-- ===== src/PersistentDeque/Rows.antt =====
-- What locking, unlocking and deleting do to the rows of a deque.
use pg_fort.Base.{
  ◌≡◌, refl, sym, ap, ◌∙◌, inl, inr, ℕ, ◌≤◌, Bool, true, false, List, [], ◌∷◌, none, some,
  if◌then◌else◌, Bool-cases, map, ==_iff, arith,
}
use pg_fort.PersistentDeque.{ℤ, eq_int, Row, position, unlock, holds}
use pg_fort.PersistentDeque.Operations.{delete_row, lock_row}
use pg_fort.PersistentDeque.Ends.{Descends}

abbrev pub AllFree : List Row → Type 0
AllFree [] = Unit {0}
AllFree (r ∷ rs) = (r.holder ≡ none) × AllFree rs

unlock_free : (c : ℕ) (r : Row) → r.holder ≡ none → unlock c r ≡ r
unlock_free c r h =
    ap (λ o. record r { holder = if holds c o then none else o }) h
    ∙ ap (λ o. record r { holder = o }) (sym h)

pub map-unlock_free : (c : ℕ) (rs : List Row) → AllFree rs → map (unlock c) rs ≡ rs
map-unlock_free c [] h = refl
map-unlock_free c (r ∷ rs) h =
    ap (λ s. s ∷ map (unlock c) rs) (unlock_free c r h.0)
    ∙ ap (λ l. r ∷ l) (map-unlock_free c rs h.1)

unlock-lock_row : (c : ℕ) (p : ℤ) (r : Row) → r.holder ≡ none → unlock c (lock_row c p r) ≡ r
unlock-lock_row c p r h = ap (λ o. record r { holder = o }) (holder_lem (eq_int (position r) p))
  where
    holder_lem :
        (b : Bool)
        → (let o = if b then some c else r.holder in if holds c o then none else o) ≡ r.holder
    holder_lem true = rw ((==_iff c c).1 refl, h) refl
    holder_lem false = rw h refl

pub map-unlock-lock_row :
    (c : ℕ) (p : ℤ) (rs : List Row) → AllFree rs → map (unlock c) (map (lock_row c p) rs) ≡ rs
map-unlock-lock_row c p [] h = refl
map-unlock-lock_row c p (r ∷ rs) h =
    ap (λ s. s ∷ map (unlock c) (map (lock_row c p) rs)) (unlock-lock_row c p r h.0)
    ∙ ap (λ l. r ∷ l) (map-unlock-lock_row c p rs h.1)

-- The row that is deleted is the one that was locked.
delete_row-lock_row :
    (c : ℕ) (p : ℤ) (rs : List Row) → delete_row p (map (lock_row c p) rs) ≡ delete_row p rs
unfolding delete_row
delete_row-lock_row c p [] = refl
delete_row-lock_row c p (r ∷ rs) = elim (Bool-cases (eq_int (position r) p)) [
  | inl e ↦ rw (delete_row, e) (delete_row-lock_row c p rs)
  | inr e ↦ rw (delete_row, e) (ap (λ l. r ∷ l) (delete_row-lock_row c p rs))
]

pub delete_row-AllFree : (p : ℤ) (rs : List Row) → AllFree rs → AllFree (delete_row p rs)
unfolding delete_row
delete_row-AllFree p [] h = tt
delete_row-AllFree p (r ∷ rs) h = elim (Bool-cases (eq_int (position r) p)) [
  | inl e ↦ rw (delete_row, e) (delete_row-AllFree p rs h.1)
  | inr e ↦ rw (delete_row, e) (h.0, delete_row-AllFree p rs h.1)
]

pub Descends-le : (m n : ℕ) (rs : List Row) → m ≤ n → Descends m rs → Descends n rs
Descends-le m n [] h d = tt
Descends-le m n (r ∷ rs) h d = (d.0, omega arith, d.2)

pub delete_row-Descends :
    (p : ℤ) (n : ℕ) (rs : List Row) → Descends n rs → Descends n (delete_row p rs)
unfolding delete_row
delete_row-Descends p n [] h = tt
delete_row-Descends p n (r ∷ rs) h = elim (Bool-cases (eq_int (position r) p)) [
  | inl e ↦
      rw (delete_row, e)
        (Descends-le r.seq n (delete_row p rs) (omega arith) (delete_row-Descends p r.seq rs h.2))
  | inr e ↦ rw (delete_row, e) (h.0, h.1, delete_row-Descends p r.seq rs h.2)
]

-- A DELETE that is followed by the commit, behind the lock.
pub rows_deleted :
    (c : ℕ) (p : ℤ) (rs : List Row)
    → AllFree rs
    → map (unlock c) (delete_row p (map (lock_row c p) rs)) ≡ delete_row p rs
rows_deleted c p rs h =
    ap (map (unlock c)) (delete_row-lock_row c p rs)
    ∙ map-unlock_free c (delete_row p rs) (delete_row-AllFree p rs h)
