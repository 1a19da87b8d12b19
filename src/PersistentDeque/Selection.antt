-- ===== src/PersistentDeque/Selection.antt =====
-- The row that a search selects stands at its end of the order, and deleting it leaves the others.
use pg_fort.Base.{
  ◌≢◌, subst, ◌≡◌, refl, sym, ap, ◌∙◌, ◌⊎◌, inl, inr, ℕ, suc, ◌≤◌, true, List, [], ◌∷◌, Option,
  none, some, if◌then◌else◌, Option-cases, map, ==_iff, length, arith, Text, length-append,
}
use mathlib.Core.Option.{some-injective}
use pg_fort.PersistentDeque.{ℤ, pos, negsuc, eq_int, Direction, forward, backward, Row, position}
use pg_fort.PersistentDeque.Operations.{select_row, first_in, is_locked, delete_row}
use pg_fort.PersistentDeque.Ends.{
  put_at, in_order, Descends, Within, positions-differ, merged, EachWithin, EachWithin-select_row,
  first_in-merged,
}
use pg_fort.PersistentDeque.Rows.{AllFree}

-- The data in the order of the positions.
abbrev pub contents_of : List Row → List Text
contents_of rs = map (λ r. r.data_) (in_order rs)

-- No earlier row has the position of a row.
delete_row-earlier :
    (r : Row) (n : ℕ) (rs : List Row) → n ≤ r.seq → Descends n rs → delete_row (position r) rs ≡ rs
unfolding delete_row
delete_row-earlier r n [] h d = refl
delete_row-earlier r n (s ∷ rs) h d =
    rw (delete_row, (positions-differ r s (d.0, omega arith)).0)
      (ap (λ l. s ∷ l) (delete_row-earlier r s.seq rs (omega arith) d.2))

delete_row-latest :
    (r : Row) (rs : List Row) → Descends r.seq rs → delete_row (position r) (r ∷ rs) ≡ rs
unfolding delete_row
delete_row-latest r rs d =
    rw (delete_row, eq_int_refl (position r)) (delete_row-earlier r r.seq rs (omega arith) d)
  where
    eq_int_refl : (p : ℤ) → eq_int p p ≡ true
    eq_int_refl (pos n) = (==_iff n n).1 refl
    eq_int_refl (negsuc n) = (==_iff n n).1 refl

delete_row-other :
    (r s : Row) (rs : List Row)
    → Within r.seq s
    → delete_row (position s) (r ∷ rs) ≡ r ∷ delete_row (position s) rs
unfolding delete_row
delete_row-other r s rs w = rw (delete_row, (positions-differ r s w).1) refl

-- The directions are the same, or a row put at one end leaves what is at the other.
same_end : (d e : Direction) → (d ≡ e) ⊎ ((d ≢ e))
same_end forward forward = inl refl
same_end forward backward = inr (λ h. cc)
same_end backward forward = inr (λ h. cc)
same_end backward backward = inl refl

put_at_comm :
    {A : Type 0}
    → (d e : Direction) (x y : A) (q : List A) → d ≢ e
    → put_at e y (put_at d x q) ≡ put_at d x (put_at e y q)
put_at_comm forward forward x y q h = absurd (h refl)
put_at_comm forward backward x y q h = refl
put_at_comm backward forward x y q h = refl
put_at_comm backward backward x y q h = absurd (h refl)

selected_row :
    (d : Direction) (r : Row) (rs : List Row) (o : Option Row)
    → r.holder ≡ none
    → Descends r.seq rs
    → select_row d rs ≡ o
    → select_row d (r ∷ rs) ≡ merged d r.dir (some r) o
unfolding select_row
selected_row d r rs o free h e =
    ap (λ b. if b then select_row d rs else first_in d r (select_row d rs)) (ap is_locked free)
    ∙ ap (first_in d r) e
    ∙ first_in-merged d r r.dir o refl
        (subst (EachWithin r.seq) e (EachWithin-select_row d r.seq rs h))

merged-some : (d e : Direction) (r : Row) (o : Option Row) → merged d e (some r) o ≢ none
merged-some forward forward r o h = cc
merged-some forward backward r none h = cc
merged-some forward backward r (some s) h = cc
merged-some backward forward r none h = cc
merged-some backward forward r (some s) h = cc
merged-some backward backward r o h = cc

-- Nothing is selected only of no rows.
pub none_selected :
    (d : Direction) (n : ℕ) (rs : List Row)
    → AllFree rs
    → Descends n rs
    → select_row d rs ≡ none
    → rs ≡ []
none_selected d n [] f h e = refl
none_selected d n (r ∷ rs) f h e = absurd (
    merged-some d r.dir r (select_row d rs)
      (sym (selected_row d r rs (select_row d rs) f.0 h.2 refl) ∙ e))

merged_same : (d e : Direction) (r : Row) (o : Option Row) → d ≡ e → merged d e (some r) o ≡ some r
merged_same forward forward r o h = refl
merged_same forward backward r o h = absurd cc
merged_same backward forward r o h = absurd cc
merged_same backward backward r o h = refl

merged-none : (d e : Direction) (r : Row) → merged d e (some r) none ≡ some r
merged-none forward forward r = refl
merged-none forward backward r = refl
merged-none backward forward r = refl
merged-none backward backward r = refl

merged_other : (d e : Direction) (r s : Row) → d ≢ e → merged d e (some r) (some s) ≡ some s
merged_other forward forward r s h = absurd (h refl)
merged_other forward backward r s h = refl
merged_other backward forward r s h = refl
merged_other backward backward r s h = absurd (h refl)

put_at_nil : {A : Type 0} → (d e : Direction) (x : A) → put_at e x [] ≡ put_at d x []
put_at_nil forward forward x = refl
put_at_nil forward backward x = refl
put_at_nil backward forward x = refl
put_at_nil backward backward x = refl

-- The row stands at the end, and the others behind it.
abbrev pub StandsAt : Direction → List Row → Row → Type 0
StandsAt d rs s = in_order rs ≡ put_at d s (in_order (delete_row (position s) rs))

latest-StandsAt_own :
    (d : Direction) (r : Row) (rs : List Row)
    → Descends r.seq rs
    → d ≡ r.dir
    → StandsAt d (r ∷ rs) r
latest-StandsAt_own d r rs h same =
    ap (λ e. put_at e r (in_order rs)) (sym same)
    ∙ ap (λ l. put_at d r (in_order l)) (sym (delete_row-latest r rs h))

latest-StandsAt_alone :
    (d : Direction) (r : Row) (rs : List Row) → Descends r.seq rs → rs ≡ [] → StandsAt d (r ∷ rs) r
latest-StandsAt_alone d r rs h nil =
    ap (λ l. put_at r.dir r (in_order l)) nil
    ∙ put_at_nil d r.dir r
    ∙ ap (λ l. put_at d r (in_order l)) (sym nil)
    ∙ ap (λ l. put_at d r (in_order l)) (sym (delete_row-latest r rs h))

earlier-StandsAt :
    (d : Direction) (r s : Row) (rs : List Row)
    → d ≢ r.dir
    → Within r.seq s
    → StandsAt d rs s
    → StandsAt d (r ∷ rs) s
earlier-StandsAt d r s rs other w ih =
    ap (put_at r.dir r) ih
    ∙ put_at_comm d r.dir s r (in_order (delete_row (position s) rs)) other
    ∙ ap (λ l. put_at d s (in_order l)) (sym (delete_row-other r s rs w))

-- The row that is selected stands at the end from which the search begins.
pub select_row-StandsAt :
    (d : Direction) (n : ℕ) (rs : List Row) (s : Row)
    → AllFree rs
    → Descends n rs
    → select_row d rs ≡ some s
    → StandsAt d rs s
unfolding select_row
select_row-StandsAt d n [] s f h e = absurd cc
select_row-StandsAt d n (r ∷ rs) s f h e = elim (same_end d r.dir) [
  | inl same ↦
      let r_is : r ≡ s = some-injective _ _ (
        sym (merged_same d r.dir r (select_row d rs) same)
        ∙ sym (selected_row d r rs (select_row d rs) f.0 h.2 refl)
        ∙ e) in
      subst (StandsAt d (r ∷ rs)) r_is (latest-StandsAt_own d r rs h.2 same)
  | inr other ↦ elim (Option-cases (select_row d rs)) [
    | inl e' ↦
        let r_is : r ≡ s =
          some-injective _ _
            (sym (merged-none d r.dir r) ∙ sym (selected_row d r rs none f.0 h.2 e') ∙ e) in
        subst (StandsAt d (r ∷ rs)) r_is
          (latest-StandsAt_alone d r rs h.2 (none_selected d r.seq rs f.1 h.2 e'))
    | inr (s', e') ↦
        let s_is : s' ≡ s = some-injective _ _ (
          sym (merged_other d r.dir r s' other)
          ∙ sym (selected_row d r rs (some s') f.0 h.2 e')
          ∙ e) in
        subst (StandsAt d (r ∷ rs)) s_is (
          earlier-StandsAt d r s' rs other
            (subst (EachWithin r.seq) e' (EachWithin-select_row d r.seq rs h.2))
            (select_row-StandsAt d r.seq rs s' f.1 h.2 e'))
  ]
]

map-put_at :
    {A B : Type 0}
    → (f : A → B) (d : Direction) (x : A) (q : List A)
    → map f (put_at d x q) ≡ put_at d (f x) (map f q)
map-put_at f backward x q = refl
map-put_at f forward x [] = refl
map-put_at f forward x (y ∷ q) = ap (λ l. f y ∷ l) (map-put_at f forward x q)

-- Selecting and deleting takes the data from the end.
pub contents_of-delete_row :
    (d : Direction) (n : ℕ) (rs : List Row) (s : Row)
    → AllFree rs
    → Descends n rs
    → select_row d rs ≡ some s
    → contents_of rs ≡ put_at d s.data_ (contents_of (delete_row (position s) rs))
contents_of-delete_row d n rs s f h e =
    ap (map (λ r. r.data_)) (select_row-StandsAt d n rs s f h e)
    ∙ map-put_at (λ r. r.data_) d s (in_order (delete_row (position s) rs))

-- The latest row puts its data at its end.
pub contents_of-cons :
    (r : Row) (rs : List Row) → contents_of (r ∷ rs) ≡ put_at r.dir r.data_ (contents_of rs)
contents_of-cons r rs = map-put_at (λ s. s.data_) r.dir r (in_order rs)

length-put_at :
    {A : Type 0} → (d : Direction) (x : A) (q : List A) → length (put_at d x q) ≡ suc (length q)
length-put_at forward x q = omega (arith, length-append q (x ∷ []))
length-put_at backward x q = refl

pub length-contents_of : (rs : List Row) → length (contents_of rs) ≡ length rs
length-contents_of [] = refl
length-contents_of (r ∷ rs) =
    ap length (contents_of-cons r rs)
    ∙ length-put_at r.dir r.data_ (contents_of rs)
    ∙ ap suc (length-contents_of rs)
