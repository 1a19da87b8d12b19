-- ===== src/PersistentDeque/Ends.antt =====
-- The rows in the order of `_pos`: which one a search takes, and what INSERT and DELETE do to it.
use pg_fort.Base.{
  ◌≡◌, refl, sym, ap, ◌∙◌, inl, inr, ℕ, zero, suc, ◌<◌, ◌≤◌, true, false, List, [], ◌∷◌, ◌++◌,
  Option, none, some, if◌then◌else◌, Bool-cases, arith,
}
use pg_fort.PersistentDeque.{
  ℤ, times_dir, ltb_int, eq_int, Direction, forward, backward, Row, position,
}
use pg_fort.PersistentDeque.Operations.{select_row, first_in, is_locked}

-- An element at an end of a list, forward being the back.
abbrev pub put_at {ℓ} : {A : Type ℓ} → Direction → A → List A → List A
put_at forward x xs = xs ++ (x ∷ [])
put_at backward x xs = x ∷ xs

-- The rows, the latest first, in the order of their positions.
abbrev pub in_order : List Row → List Row
in_order [] = []
in_order (r ∷ rs) = put_at r.dir r (in_order rs)

-- The values of `_seq` descend from below `n`, and are not zero.
abbrev pub Descends : ℕ → List Row → Type 0
Descends n [] = Unit {0}
Descends n (r ∷ rs) = (0 < r.seq) × (r.seq < n) × Descends r.seq rs

abbrev pub Within : ℕ → Row → Type 0
Within n r = (0 < r.seq) × (r.seq < n)

-- The first row, from an end, that is not locked.
abbrev pub or_else : Option Row → Option Row → Option Row
or_else none o = o
or_else (some r) o = some r

abbrev pub free : Row → Option Row
free r = if is_locked r.holder then none else some r

abbrev pub first_free : Direction → List Row → Option Row
first_free d [] = none
first_free forward (r ∷ rs) = or_else (first_free forward rs) (free r)
first_free backward (r ∷ rs) = or_else (free r) (first_free backward rs)

-- How a position compares to that of an earlier row.
abbrev pub Beyond : Direction → ℤ → ℤ → Type 0
Beyond forward p q =
    (ltb_int q p ≡ true) × (ltb_int p q ≡ false) × (eq_int q p ≡ false) × (eq_int p q ≡ false)
Beyond backward p q =
    (ltb_int q p ≡ false) × (ltb_int p q ≡ true) × (eq_int q p ≡ false) × (eq_int p q ≡ false)

times_dir-Beyond :
    (e d : Direction) (n m : ℕ) → 0 < m → m < n → Beyond e (times_dir n e) (times_dir m d)
times_dir-Beyond e d zero m h h' = absurd (omega arith)
times_dir-Beyond e d n zero h h' = absurd (omega arith)
times_dir-Beyond forward forward (suc n) (suc m) h h' = ground arith
times_dir-Beyond forward backward (suc n) (suc m) h h' = ground arith
times_dir-Beyond backward forward (suc n) (suc m) h h' = ground arith
times_dir-Beyond backward backward (suc n) (suc m) h h' = ground arith

position-Beyond :
    (e : Direction) (r s : Row) → r.dir ≡ e → Within r.seq s → Beyond e (position r) (position s)
position-Beyond e r s h w = rw h (times_dir-Beyond e s.dir r.seq s.seq w.0 w.1)

differ : (e : Direction) (p q : ℤ) → Beyond e p q → (eq_int q p ≡ false) × (eq_int p q ≡ false)
differ forward p q h = (h.2, h.3)
differ backward p q h = (h.2, h.3)

-- An earlier row has another position.
pub positions-differ :
    (r s : Row)
    → Within r.seq s
    → (eq_int (position s) (position r) ≡ false) × (eq_int (position r) (position s) ≡ false)
positions-differ r s w = differ r.dir (position r) (position s) (position-Beyond r.dir r s refl w)

-- The latest row comes first from its own end, and last from the other.
abbrev pub merged : Direction → Direction → Option Row → Option Row → Option Row
merged forward forward f o = or_else f o
merged forward backward f o = or_else o f
merged backward forward f o = or_else o f
merged backward backward f o = or_else f o

merged_locked : (d e : Direction) (o : Option Row) → merged d e none o ≡ o
merged_locked forward forward o = refl
merged_locked forward backward none = refl
merged_locked forward backward (some s) = refl
merged_locked backward forward none = refl
merged_locked backward forward (some s) = refl
merged_locked backward backward o = refl

abbrev pub EachWithin : ℕ → Option Row → Type 0
EachWithin n none = Unit {0}
EachWithin n (some s) = Within n s

pub first_in-merged :
    (d : Direction) (r : Row) (e : Direction) (o : Option Row)
    → r.dir ≡ e
    → EachWithin r.seq o
    → first_in d r o ≡ merged d e (some r) o
first_in-merged forward r forward none h w = refl
first_in-merged forward r backward none h w = refl
first_in-merged backward r forward none h w = refl
first_in-merged backward r backward none h w = refl
first_in-merged forward r forward (some s) h w = rw ((position-Beyond forward r s h w).1) refl
first_in-merged forward r backward (some s) h w = rw ((position-Beyond backward r s h w).1) refl
first_in-merged backward r forward (some s) h w = rw ((position-Beyond forward r s h w).0) refl
first_in-merged backward r backward (some s) h w = rw ((position-Beyond backward r s h w).0) refl

or_else_assoc : (o o' o'' : Option Row) → or_else (or_else o o') o'' ≡ or_else o (or_else o' o'')
or_else_assoc none o' o'' = refl
or_else_assoc (some r) o' o'' = refl

or_else-none : (o : Option Row) → or_else o none ≡ o
or_else-none none = refl
or_else-none (some r) = refl

first_free-append :
    (d : Direction) (q : List Row) (r : Row)
    → first_free d (q ++ (r ∷ [])) ≡ merged d forward (free r) (first_free d q)
first_free-append forward [] r = sym (or_else-none (free r))
first_free-append backward [] r = or_else-none (free r)
first_free-append forward (s ∷ q) r =
    ap (λ o. or_else o (free s)) (first_free-append forward q r)
    ∙ or_else_assoc (free r) (first_free forward q) (free s)
first_free-append backward (s ∷ q) r =
    ap (λ o. or_else (free s) o) (first_free-append backward q r)
    ∙ sym (or_else_assoc (free s) (first_free backward q) (free r))

first_free-put_at :
    (d e : Direction) (q : List Row) (r : Row)
    → first_free d (put_at e r q) ≡ merged d e (free r) (first_free d q)
first_free-put_at d forward q r = first_free-append d q r
first_free-put_at forward backward q r = refl
first_free-put_at backward backward q r = refl

EachWithin-le : (m n : ℕ) (o : Option Row) → m ≤ n → EachWithin m o → EachWithin n o
EachWithin-le m n none h w = tt
EachWithin-le m n (some s) h w = (w.0, omega arith)

EachWithin-first_in :
    (d : Direction) (n : ℕ) (r : Row) (o : Option Row)
    → Within n r
    → EachWithin n o
    → EachWithin n (first_in d r o)
EachWithin-first_in d n r none h w = h
EachWithin-first_in forward n r (some s) h w =
    elim (Bool-cases (ltb_int (position r) (position s))) [ inl e ↦ rw e w | inr e ↦ rw e h ]
EachWithin-first_in backward n r (some s) h w =
    elim (Bool-cases (ltb_int (position s) (position r))) [ inl e ↦ rw e w | inr e ↦ rw e h ]

pub EachWithin-select_row :
    (d : Direction) (n : ℕ) (rs : List Row) → Descends n rs → EachWithin n (select_row d rs)
unfolding select_row
EachWithin-select_row d n [] h = tt
EachWithin-select_row d n (r ∷ rs) h =
    let w : EachWithin n (select_row d rs) =
      EachWithin-le r.seq n (select_row d rs) (omega arith)
        (EachWithin-select_row d r.seq rs h.2) in
    elim (Bool-cases (is_locked r.holder)) [
      | inl e ↦ rw (select_row, e) w
      | inr e ↦ rw (select_row, e) (EachWithin-first_in d n r (select_row d rs) (h.0, h.1) w)
    ]

-- The search takes the first row from its end that is not locked.
pub select_row-first_free :
    (d : Direction) (n : ℕ) (rs : List Row)
    → Descends n rs
    → select_row d rs ≡ first_free d (in_order rs)
unfolding select_row
select_row-first_free d n [] h = refl
select_row-first_free d n (r ∷ rs) h =
    let ih : select_row d rs ≡ first_free d (in_order rs) = select_row-first_free d r.seq rs h.2 in
    let w : EachWithin r.seq (select_row d rs) = EachWithin-select_row d r.seq rs h.2 in
    elim (Bool-cases (is_locked r.holder)) [
      | inl e ↦
          rw
            (
              select_row,
              e,
              first_free-put_at d r.dir (in_order rs) r,
              e,
              merged_locked d r.dir (first_free d (in_order rs)),
            )
            ih
      | inr e ↦
          rw (select_row, e, first_free-put_at d r.dir (in_order rs) r, e)
            (first_in-merged d r r.dir (select_row d rs) refl w ∙ ap (merged d r.dir (some r)) ih)
    ]
