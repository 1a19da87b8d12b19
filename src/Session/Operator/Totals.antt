-- ===== src/Session/Operator/Totals.antt =====
-- How often a session occurs in the places of the operator, before and after each change.
use pg_fort.Base.{
  ℕ, ◌≡◌, ◌≤◌, ◌+◌, refl, ap, Bool, true, false, List, [], ◌∷◌, ◌++◌, if◌then◌else◌, ◌==◌, arith,
  Bool-cases, inl, inr, ◌⊎◌,
}
use pg_fort.Session.Operator.{Operator, new_operator, submit, add_to_watch, everyone, occurrences}

occurrences-append {ℓ} :
    {J : Type ℓ} (i : ℕ) (ts us : List (ℕ × J))
    → occurrences i (ts ++ us) ≡ occurrences i ts + occurrences i us
unfolding occurrences
occurrences-append i [] us = omega arith
occurrences-append i ((k, j) ∷ ts) us = ground (arith, occurrences-append i ts us)

abbrev pub one {ℓ} : {J : Type ℓ} → ℕ → ℕ × J → ℕ
one i t = occurrences i (t ∷ [])

-- The number of a task decides how often it counts, not its session.
pub one-same {ℓ} : {J : Type ℓ} (i k : ℕ) (j j' : J) → one i (k, j) ≡ one i (k, j')
unfolding occurrences
one-same i k j j' = refl

one-le {ℓ} : {J : Type ℓ} (i : ℕ) (t : ℕ × J) → one i t ≤ 1
unfolding occurrences
one-le i t = ground arith

occurrences-cons {ℓ} :
    {J : Type ℓ} (i : ℕ) (t : ℕ × J) (ts : List (ℕ × J))
    → occurrences i (t ∷ ts) ≡ one i t + occurrences i ts
occurrences-cons i t ts = occurrences-append i (t ∷ []) ts

pub total {ℓ} : {J : Type ℓ} → ℕ → Operator J → ℕ
total i o =
    occurrences i o.queue
    + occurrences i o.running
    + occurrences i o.watched
    + occurrences i o.deleted

pub occurrences-everyone {ℓ} :
    {J : Type ℓ} (i : ℕ) (o : Operator J) → occurrences i (everyone o) ≡ total i o
unfolding total
occurrences-everyone i o = omega (
  arith,
  occurrences-append i o.queue (o.running ++ (o.watched ++ o.deleted)),
  occurrences-append i o.running (o.watched ++ o.deleted),
  occurrences-append i o.watched o.deleted,
)

pub total-submit {ℓ} :
    {J : Type ℓ} (i : ℕ) (t : ℕ × J) (o : Operator J) → total i (submit t o) ≡ total i o + one i t
unfolding total submit
total-submit i t o = omega (arith, occurrences-append i o.queue (t ∷ []))

total-add_to_watch {ℓ} :
    {J : Type ℓ} (i : ℕ) (t : ℕ × J) (o : Operator J)
    → total i (add_to_watch t o) ≡ total i o + one i t
unfolding total add_to_watch
total-add_to_watch i t o = omega (arith, occurrences-append i o.watched (t ∷ []))

occurrences-middle {ℓ} :
    {J : Type ℓ} (i : ℕ) (t : ℕ × J) (xs ys : List (ℕ × J))
    → occurrences i (xs ++ t ∷ ys) ≡ occurrences i (xs ++ ys) + one i t
occurrences-middle i t xs ys =
    omega
      (arith, occurrences-append i xs (t ∷ ys), occurrences-append i xs ys, occurrences-cons i t ys)

pub total-delete {ℓ} :
    {J : Type ℓ} (i : ℕ) (t : ℕ × J) (o : Operator J)
    → total i (record o { deleted = t ∷ o.deleted }) ≡ total i o + one i t
unfolding total
total-delete i t o = omega (arith, occurrences-cons i t o.deleted)

pub total-pop {ℓ} :
    {J : Type ℓ} (i : ℕ) (t : ℕ × J) (ts : List (ℕ × J)) (o : Operator J)
    → o.queue ≡ t ∷ ts
    → total i (record o { queue = ts; running = t ∷ o.running }) ≡ total i o
unfolding total
total-pop i t ts o h =
    omega (arith, occurrences-cons i t o.running, occurrences-cons i t ts, ap (occurrences i) h)

pub total-stop {ℓ} :
    {J : Type ℓ} (i : ℕ) (t : ℕ × J) (xs ys : List (ℕ × J)) (o : Operator J)
    → o.running ≡ xs ++ t ∷ ys
    → total i (record o { running = xs ++ ys }) + one i t ≡ total i o
unfolding total
total-stop i t xs ys o h = omega (arith, occurrences-middle i t xs ys, ap (occurrences i) h)

pub total-unwatch {ℓ} :
    {J : Type ℓ} (i : ℕ) (t : ℕ × J) (xs ys : List (ℕ × J)) (o : Operator J)
    → o.watched ≡ xs ++ t ∷ ys
    → total i (record o { watched = xs ++ ys }) + one i t ≡ total i o
unfolding total
total-unwatch i t xs ys o h = omega (arith, occurrences-middle i t xs ys, ap (occurrences i) h)

pub total-placed {ℓ} :
    {J : Type ℓ} (i : ℕ) (b : Bool) (t : ℕ × J) (o : Operator J)
    → total i (if b then add_to_watch t o else submit t o) ≡ total i o + one i t
total-placed i true t o = total-add_to_watch i t o
total-placed i false t o = total-submit i t o

pub total-new_operator {ℓ} : (J : Type ℓ) (i : ℕ) → total {J = J} i new_operator ≡ 0
unfolding total new_operator occurrences
total-new_operator J i = omega arith

one-cases {ℓ} : {J : Type ℓ} (i k : ℕ) (j : J) → (one i (k, j) ≡ 0) ⊎ (k ≡ i)
unfolding occurrences
one-cases i k j = elim (Bool-cases (k == i)) [
  | inl e ↦ inr (ground arith)
  | inr e ↦ inl (rw e refl)
]

pub total-accept {ℓ} :
    {J : Type ℓ} (i k : ℕ) (j : J) (o : Operator J)
    → occurrences k (everyone o) ≡ 0
    → total i o ≤ 1
    → total i (submit (k, j) o) ≤ 1
total-accept i k j o fresh h = elim (one-cases i k j) [
  | inl e ↦ omega (arith, total-submit i (k, j) o, e, h)
  | inr e ↦ omega (
    arith,
    total-submit i (k, j) o,
    one-le i (k, j),
    ap (λ n. occurrences n (everyone o)) e,
    fresh,
    occurrences-everyone i o,
  )
]
