-- ===== src/Session/Operator/Places.antt =====
-- A session is in one place at a time.
use pg_fort.Base.{
  ℕ, ◌≡◌, ◌≤◌, ◌+◌, sym, ap, ◌∙◌, Bool, ◌∷◌, ◌++◌, Option, none, some, arith, Bool-cases, inl, inr,
}
use mathlib.Core.Option.{some-injective}
use pg_fort.Session.Operator.{
  Operator, put_back, work, everyone, occurrences, OperatorStep, accepted, popped, worked, fired,
  Reached, at_start, next,
}
use pg_fort.Session.Operator.Totals.{
  one, one-same, total, occurrences-everyone, total-submit, total-delete, total-pop, total-stop,
  total-unwatch, total-placed, total-new_operator, total-accept,
}

module _ {ℓ} {C W J : Type ℓ} (start : C → J) (is_terminated is_waiting : J → Bool)
    (call : W → J → Option J) where
  put_back-total :
      (i k : ℕ) (j : J) (r : Option J) (o o' : Operator J)
      → put_back start is_terminated is_waiting call k r o ≡ some o'
      → total i o' ≡ total i o + one i (k, j)
  unfolding put_back
  put_back-total i k j none o o' h = cc
  put_back-total i k j (some j') o o' h =
      ap (total i) (sym (some-injective _ _ h))
      ∙ total-placed i (is_waiting j') (k, j') o
      ∙ ap (λ n. total i o + n) (one-same i k j' j)

  work-total :
      (i : ℕ) (w : W) (t : ℕ × J) (o o' : Operator J)
      → work start is_terminated is_waiting call w t o ≡ some o'
      → total i o' ≡ total i o + one i t
  unfolding work
  work-total i w (k, j) o o' h = elim (Bool-cases (is_terminated j)) [
    | inl e ↦
        let h' : some (record o { deleted = (k, j) ∷ o.deleted }) ≡ some o' = rw e at h in
        ap (total i) (sym (some-injective _ _ h')) ∙ total-delete i (k, j) o
    | inr e ↦
        let h' : put_back start is_terminated is_waiting call k (call w j) o ≡ some o' =
          rw e at h in
        put_back-total i k j (call w j) o o' h'
  ]

  step-total :
      (i : ℕ) (o o' : Operator J)
      → OperatorStep start is_terminated is_waiting call o o'
      → total i o ≤ 1
      → total i o' ≤ 1
  step-total i _ _ (accepted o k c fresh) h = total-accept i k (start c) o fresh h
  step-total i _ _ (popped o t ts e) h = omega (arith, total-pop i t ts o e, h)
  step-total i _ _ (worked w o o' t xs ys e done) h = omega (
    arith,
    work-total i w t (record o { running = xs ++ ys }) o' done,
    total-stop i t xs ys o e,
    h,
  )
  step-total i _ _ (fired o t xs ys e) h =
      omega
        (arith, total-submit i t (record o { watched = xs ++ ys }), total-unwatch i t xs ys o e, h)

  total-Reached :
      (i : ℕ) (o : Operator J) → Reached start is_terminated is_waiting call o → total i o ≤ 1
  total-Reached i _ at_start = omega (arith, total-new_operator J i)
  total-Reached i _ (next r s) = step-total i _ _ s (total-Reached i _ r)

  -- Whatever the clients, the workers, the sockets and the sessions do, a session is in one place
  -- only: it is not queued twice, no two workers run it at once, none runs it while it is watched,
  -- and a deleted one is nowhere else.
  pub occurrences-everyone_le :
      (i : ℕ) (o : Operator J)
      → Reached start is_terminated is_waiting call o
      → occurrences i (everyone o) ≤ 1
  occurrences-everyone_le i o r = omega (arith, occurrences-everyone i o, total-Reached i o r)
