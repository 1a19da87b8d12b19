-- ===== src/Query/Json/Find.antt =====
-- `JsonUtil::FindNode` returns a pointer to the node that it finds: writing there changes that node
-- and nothing else.
use pg_fort.Base.{
  ℕ, suc, ◌≡◌, refl, ap, inl, inr, Option, none, some, Text, text_eq, decimal, if◌then◌else◌,
  Bool-cases,
}
use pg_fort.Query.Json.{
  Json, null, boolean, number, string, array, object, Items, nil, cons, Fields, end, field, Pointer,
  inside, or_else, find_node, find_items, find_fields,
}

-- A search that found nothing, or a node whose place it can write to: writing back the node itself
-- changes nothing, and after any write the same search finds what was written, at the same place.
abbrev pub IsPlace : {A : Type 0} → (A → Option (Pointer A)) → A → Option (Pointer A) → Type 0
IsPlace find a none = Unit {0}
IsPlace find a (some (n, put)) = (put n ≡ a) × ((x : Json) → find (put x) ≡ some (x, put))

module _ {A B : Type 0} (find : A → Option (Pointer A)) (find' : B → Option (Pointer B)) where
  -- A search that looks inside a part finds places of the whole.
  inside-IsPlace :
      (wrap : A → B) (a : A) (o : Option (Pointer A))
      → IsPlace find a o
      → ((c : A) (p : Pointer A) → find c ≡ some p → find' (wrap c) ≡ inside wrap (some p))
      → IsPlace find' (wrap a) (inside wrap o)
  inside-IsPlace wrap a none h k = tt
  inside-IsPlace wrap a (some (n, put)) h k = (ap wrap h.0, λ x. k (put x) (x, put) (h.1 x))

inside-none :
    {A B : Type 0} (wrap : A → B) (o : Option (Pointer A)) → inside wrap o ≡ none → o ≡ none
inside-none wrap none h = refl
inside-none wrap (some p) h = cc

or_else-IsPlace :
    {A : Type 0} (find : A → Option (Pointer A)) (a : A) (o q : Option (Pointer A))
    → IsPlace find a o
    → (o ≡ none → IsPlace find a q)
    → IsPlace find a (or_else o q)
or_else-IsPlace find a none q h k = k refl
or_else-IsPlace find a (some p) q h k = h

find_items-cons :
    (key : Text) (i : ℕ) (v : Json) (xs : Items)
    → find_items key i (cons v xs) ≡ (
        if text_eq (decimal i) key
        then some (v, λ x. cons x xs)
        else or_else
            (inside (λ x. cons x xs) (find_node key v))
            (inside (cons v) (find_items key (suc i) xs)))
unfolding find_items
find_items-cons key i v xs = refl

find_fields-field :
    (key k : Text) (v : Json) (fs : Fields)
    → find_fields key (field k v fs) ≡ (
        if text_eq k key
        then some (v, λ x. field k x fs)
        else or_else
            (inside (λ x. field k x fs) (find_node key v))
            (inside (field k v) (find_fields key fs)))
unfolding find_fields
find_fields-field key k v fs = refl

cons-IsPlace :
    (key : Text) (i : ℕ) (v : Json) (xs : Items)
    → IsPlace (find_node key) v (find_node key v)
    → IsPlace (find_items key (suc i)) xs (find_items key (suc i) xs)
    → IsPlace (find_items key i) (cons v xs) (find_items key i (cons v xs))
cons-IsPlace key i v xs hv hxs = elim (Bool-cases (text_eq (decimal i) key)) [
  | inl here ↦
      rw (find_items-cons key i v xs, here) (refl, λ x. rw (find_items-cons key i x xs, here))
  | inr other ↦
      rw (find_items-cons key i v xs, other)
        (or_else-IsPlace (find_items key i) (cons v xs) (inside (λ x. cons x xs) (find_node key v))
          (inside (cons v) (find_items key (suc i) xs))
          (inside-IsPlace (find_node key) (find_items key i) (λ x. cons x xs) v (find_node key v) hv
            (λ c p e. rw (find_items-cons key i c xs, other, e)))
          (λ none_below.
            inside-IsPlace (find_items key (suc i)) (find_items key i) (cons v) xs
              (find_items key (suc i) xs) hxs
              (λ c p e. rw (
                find_items-cons key i v c,
                other,
                e,
                inside-none (λ x. cons x xs) (find_node key v) none_below,
              ))))
]

field-IsPlace :
    (key k : Text) (v : Json) (fs : Fields)
    → IsPlace (find_node key) v (find_node key v)
    → IsPlace (find_fields key) fs (find_fields key fs)
    → IsPlace (find_fields key) (field k v fs) (find_fields key (field k v fs))
field-IsPlace key k v fs hv hfs = elim (Bool-cases (text_eq k key)) [
  | inl here ↦
      rw (find_fields-field key k v fs, here) (refl, λ x. rw (find_fields-field key k x fs, here))
  | inr other ↦
      rw (find_fields-field key k v fs, other)
        (or_else-IsPlace (find_fields key) (field k v fs)
          (inside (λ x. field k x fs) (find_node key v)) (inside (field k v) (find_fields key fs))
          (inside-IsPlace (find_node key) (find_fields key) (λ x. field k x fs) v (find_node key v)
            hv (λ c p e. rw (find_fields-field key k c fs, other, e)))
          (λ none_below.
            inside-IsPlace (find_fields key) (find_fields key) (field k v) fs (find_fields key fs)
              hfs
              (λ c p e. rw (
                find_fields-field key k v c,
                other,
                e,
                inside-none (λ x. field k x fs) (find_node key v) none_below,
              ))))
]

mutual
  unfolding find_node find_items find_fields

  node-IsPlace : (key : Text) (j : Json) → IsPlace (find_node key) j (find_node key j)
  node-IsPlace key (array xs) =
      inside-IsPlace (find_items key 0) (find_node key) array xs (find_items key 0 xs)
        (items-IsPlace key 0 xs) (λ c p e. rw e)
  node-IsPlace key (object fs) =
      inside-IsPlace (find_fields key) (find_node key) object fs (find_fields key fs)
        (fields-IsPlace key fs) (λ c p e. rw e)
  node-IsPlace key null = tt
  node-IsPlace key (boolean b) = tt
  node-IsPlace key (number n) = tt
  node-IsPlace key (string s) = tt

  items-IsPlace :
      (key : Text) (i : ℕ) (xs : Items) → IsPlace (find_items key i) xs (find_items key i xs)
  items-IsPlace key i nil = tt
  items-IsPlace key i (cons v xs) =
      cons-IsPlace key i v xs (node-IsPlace key v) (items-IsPlace key (suc i) xs)

  fields-IsPlace : (key : Text) (fs : Fields) → IsPlace (find_fields key) fs (find_fields key fs)
  fields-IsPlace key end = tt
  fields-IsPlace key (field k v fs) =
      field-IsPlace key k v fs (node-IsPlace key v) (fields-IsPlace key fs)

pub find_node-IsPlace : (key : Text) (j : Json) → IsPlace (find_node key) j (find_node key j)
find_node-IsPlace key j = node-IsPlace key j
