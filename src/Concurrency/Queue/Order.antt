-- ===== src/Concurrency/Queue/Order.antt =====
-- First in, first out, whatever the threads do.
use mathlib.Core.List.{append_assoc, append-nil}
use pg_fort.Base.{◌≡◌, sym, ap, ◌∙◌, List, [], ◌∷◌, ◌++◌}
use pg_fort.Concurrency.Queue.{push, pop, Access, pushing, popping, pushes, accesses}

-- Whatever pushes and pops threads make of a queue, in whatever order: what is taken out, followed by
-- what is left, is what was there followed by what was pushed. Nothing is lost, repeated or
-- overtaken.
pub accesses-pushes {ℓ} :
    {A : Type ℓ} (ops : List (Access A)) (q : List A)
    → (accesses ops q).0 ++ (accesses ops q).1 ≡ q ++ pushes ops
unfolding accesses push pop
accesses-pushes [] q = sym (append-nil q)
accesses-pushes (pushing x ∷ ops) q =
    accesses-pushes ops (push x q) ∙ append_assoc q (x ∷ []) (pushes ops)
accesses-pushes (popping b ∷ ops) [] = accesses-pushes ops []
accesses-pushes (popping b ∷ ops) (x ∷ q) = ap (λ l. x ∷ l) (accesses-pushes ops q)
