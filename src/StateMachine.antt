-- ===== src/StateMachine.antt =====
-- lib/state-machine/include/state-machine/state-machine.h: a machine whose state's action names the
-- next state, or none to end it. The actions change a value of type `S`.
use pg_fort.Base.{Bool, true, false, Option, none, some, if◌then◌else◌}

-- What an action does: it names the next state, or the process dies in it.
pub data Acted {ℓ} (I : Type ℓ) (S : Type ℓ) : Type ℓ where
  moved : Option I → S → Acted I S
  died : Acted I S

-- `current_state_` and `terminated_`
pub record Machine {ℓ} (I : Type ℓ) : Type ℓ where
  pub current : Option I
  pub terminated : Bool

module _ {ℓ} {I S : Type ℓ} (action : I → S → Acted I S) where
  -- The states after `current_state_->TakeAction()`.
  unfoldable pub after_action : Acted I S → Option (Machine I × S)
  after_action died = none
  after_action (moved none s) = some (record { current = none; terminated = true }, s)
  after_action (moved (some i) s) = some (record { current = some i; terminated = false }, s)

  unfoldable pub act_in : Option I → S → Option (Machine I × S)
  unfolding after_action
  act_in none s = none
  act_in (some i) s = after_action (action i s)

  -- `StateMachine::TakeAction`: `none` is the end of the process, in the action or because there is
  -- no state to act in.
  unfoldable pub take_action : Machine I × S → Option (Machine I × S)
  unfolding act_in
  take_action (m, s) = if m.terminated then some (m, s) else act_in m.current s

-- `StateMachine::SetInitialState`, of a machine that has just been made.
unfoldable pub set_initial_state {ℓ} : {I : Type ℓ} → I → Machine I
set_initial_state i = record { current = some i; terminated = false }
