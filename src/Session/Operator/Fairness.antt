-- ===== src/Session/Operator/Fairness.antt =====
-- When a queued session is taken out by a worker.
use mathlib.Core.List.{append_assoc, append-nil}
use mathlib.Core.Option.{some-injective}
use pg_fort.Base.{
  ℕ, ◌≡◌, ◌<◌, refl, sym, ap, ◌∙◌, Bool, true, false, Bool-cases, inl, inr, List, [], ◌∷◌, ◌++◌,
  Option, none, some, length, get_elem?, arith, if◌then◌else◌,
}
use pg_fort.Session.Operator.{
  Operator, submit, add_to_watch, put_back, work, OperatorStep, accepted, popped, worked, fired,
}

-- The queue `q` with further sessions behind it.
abbrev pub Extends {ℓ} : {A : Type ℓ} → List A → List A → Type ℓ
Extends {A = A} q q' = (zs : List A) × (q' ≡ q ++ zs)

Extends-self {ℓ} : {A : Type ℓ} (q : List A) → Extends q q
Extends-self q = ([], sym (append-nil q))

get_elem?-prefix {ℓ} :
    {A : Type ℓ} (ps qs xs ys : List A) (t : A)
    → ps ++ qs ≡ xs ++ t ∷ ys
    → length xs < length ps
    → get_elem? ps (length xs) ≡ some t
get_elem?-prefix [] qs xs ys t e h = absurd (omega arith)
get_elem?-prefix (p ∷ ps) qs [] ys t e h = cc
get_elem?-prefix (p ∷ ps) qs (x ∷ xs) ys t e h = get_elem?-prefix ps qs xs ys t (cc) (omega arith)

module _ {ℓ} {C W J : Type ℓ} (start : C → J) (is_terminated is_waiting : J → Bool)
    (call : W → J → Option J) where
  placed-queue :
      (t : ℕ × J) (b : Bool) (o : Operator J)
      → Extends o.queue ((if b then add_to_watch t o else submit t o).queue)
  unfolding add_to_watch submit
  placed-queue t true o = Extends-self o.queue
  placed-queue t false o = (t ∷ [], refl)

  put_back-queue :
      (i : ℕ) (r : Option J) (o o' : Operator J)
      → put_back start is_terminated is_waiting call i r o ≡ some o'
      → Extends o.queue o'.queue
  unfolding put_back
  put_back-queue i none o o' h = cc
  put_back-queue i (some j) o o' h =
      let (zs, e) = placed-queue (i, j) (is_waiting j) o in
      (zs, ap (λ p. p.queue) (sym (some-injective _ _ h)) ∙ e)

  -- A call of a session leaves the queue, or puts the session behind it.
  work-queue :
      (w : W) (t : ℕ × J) (o o' : Operator J)
      → work start is_terminated is_waiting call w t o ≡ some o'
      → Extends o.queue o'.queue
  unfolding work
  work-queue w (i, j) o o' h = elim (Bool-cases (is_terminated j)) [
    | inl e ↦
        let h' : some (record o { deleted = (i, j) ∷ o.deleted }) ≡ some o' = rw e at h in
        ([], ap (λ p. p.queue) (sym (some-injective _ _ h')) ∙ sym (append-nil o.queue))
    | inr e ↦
        let h' : put_back start is_terminated is_waiting call i (call w j) o ≡ some o' =
          rw e at h in
        put_back-queue i (call w j) o o' h'
  ]

  -- A sequence of steps of the server, the workers and the watcher.
  pub data Steps : Operator J → Operator J → Type ℓ where
    stay : (o : Operator J) → Steps o o
    before :
        {o o' o'' : Operator J}
        → OperatorStep start is_terminated is_waiting call o o'
        → Steps o' o''
        → Steps o o''

  -- The session that a step takes out of the queue.
  abbrev pub picked_by :
      {o o' : Operator J} → OperatorStep start is_terminated is_waiting call o o' → List (ℕ × J)
  picked_by (accepted o i c fresh) = []
  picked_by (popped o t ts e) = t ∷ []
  picked_by (worked w o o' t xs ys e ended) = []
  picked_by (fired o t xs ys e) = []

  -- The sessions that the workers take out of the queue, in their order.
  unfoldable pub picked : {o o' : Operator J} → Steps o o' → List (ℕ × J)
  picked (stay o) = []
  picked (before s ss) = picked_by s ++ picked ss

  step-queue :
      (o o' : Operator J) (s : OperatorStep start is_terminated is_waiting call o o')
      → Extends o.queue (picked_by s ++ o'.queue)
  unfolding submit
  step-queue _ _ (accepted o i c fresh) = ((i, start c) ∷ [], refl)
  step-queue _ _ (popped o t ts e) = ([], sym e ∙ sym (append-nil o.queue))
  step-queue _ _ (worked w o o' t xs ys e ended) =
      work-queue w t (record o { running = xs ++ ys }) o' ended
  step-queue _ _ (fired o t xs ys e) = (t ∷ [], refl)

  -- What the workers take out of the queue, and what is left in it, is what was in it and what came.
  steps-queue : (o o' : Operator J) (ss : Steps o o') → Extends o.queue (picked ss ++ o'.queue)
  unfolding picked
  steps-queue _ _ (stay o) = Extends-self o.queue
  steps-queue o o'' (before {o' = o'} s ss) =
      let (zs, e) = step-queue o o' s in
      let (zs', e') = steps-queue o' o'' ss in
      (
        zs ++ zs',
        append_assoc (picked_by s) (picked ss) o''.queue
            ∙ ap (λ l. picked_by s ++ l) e'
            ∙ sym (append_assoc (picked_by s) o'.queue zs')
            ∙ ap (λ l. l ++ zs') e
            ∙ append_assoc o.queue zs zs',
      )

  -- No session starves in the queue: one that stands behind `n` others is taken out as soon as the
  -- workers have taken out `n + 1`, whatever the clients, the sockets, the watcher and the calls of
  -- the sessions do meanwhile.
  pub get_elem?-picked :
      (o o' : Operator J) (xs ys : List (ℕ × J)) (t : ℕ × J) (ss : Steps o o')
      → o.queue ≡ xs ++ t ∷ ys
      → length xs < length (picked ss)
      → get_elem? (picked ss) (length xs) ≡ some t
  get_elem?-picked o o' xs ys t ss e h =
      let (zs, e') = steps-queue o o' ss in
      get_elem?-prefix (picked ss) o'.queue xs (ys ++ zs) t
        (e' ∙ ap (λ l. l ++ zs) e ∙ append_assoc xs (t ∷ ys) zs) h
