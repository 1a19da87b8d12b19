-- ===== src/Query/Json/First.antt =====
-- `JsonUtil::FindNode` against the list of all the places of a tree.
use pg_fort.Base.{
  ℕ, suc, ◌≡◌, refl, ◌∙◌, inl, inr, [], ◌∷◌, ◌++◌, Option, none, some, Text, text_eq, decimal,
  if◌then◌else◌, Bool-cases,
}
use pg_fort.Base.Dict.{Dict, lookup}
use pg_fort.Query.Json.{
  Json, null, boolean, number, string, array, object, Items, nil, cons, Fields, end, field, Pointer,
  inside, or_else, find_node, find_items, find_fields,
}
use pg_fort.Query.Json.Find.{IsPlace, find_node-IsPlace}

-- Every value that stands in a tree, under its key or, in an array, its index: each before what
-- stands in it, and that before what follows.
abbrev mutual
  pub entries : Json → Dict Json
  entries (array xs) = item_entries 0 xs
  entries (object fs) = field_entries fs
  entries null = []
  entries (boolean b) = []
  entries (number n) = []
  entries (string s) = []

  pub item_entries : ℕ → Items → Dict Json
  item_entries i nil = []
  item_entries i (cons v xs) = (decimal i, v) ∷ (entries v ++ item_entries (suc i) xs)

  pub field_entries : Fields → Dict Json
  field_entries end = []
  field_entries (field k v fs) = (k, v) ∷ (entries v ++ field_entries fs)

-- The node that a pointer points to.
abbrev pub node_of : {A : Type 0} → Option (Pointer A) → Option Json
node_of none = none
node_of (some (n, put)) = some n

node_of-inside :
    {A B : Type 0} (wrap : A → B) (o : Option (Pointer A)) → node_of (inside wrap o) ≡ node_of o
node_of-inside wrap none = refl
node_of-inside wrap (some p) = refl

node_of-or_else :
    {A : Type 0} (o q : Option (Pointer A))
    → node_of (or_else o q) ≡ or_else (node_of o) (node_of q)
node_of-or_else none q = refl
node_of-or_else (some p) q = refl

lookup-append :
    (key : Text) (es gs : Dict Json)
    → lookup key (es ++ gs) ≡ or_else (lookup key es) (lookup key gs)
unfolding lookup
lookup-append key [] gs = refl
lookup-append key ((k, v) ∷ es) gs = elim (Bool-cases (text_eq k key)) [
  | inl e ↦ rw e refl
  | inr e ↦ rw e (lookup-append key es gs)
]

lookup-cons :
    (key k : Text) (v : Json) (es : Dict Json)
    → lookup key ((k, v) ∷ es) ≡ (if text_eq k key then some v else lookup key es)
unfolding lookup
lookup-cons key k v es = refl

-- The search at one place: the value that stands there, or what stands in it, or what follows.
place-first :
    {A B C : Type 0} (key k : Text) (v : Json) (below : Option (Pointer B))
    (later : Option (Pointer C)) (wrap : Json → A) (in_value : B → A) (behind : C → A)
    (es gs : Dict Json)
    → node_of below ≡ lookup key es
    → node_of later ≡ lookup key gs
    → node_of (
        if text_eq k key
        then some (v, wrap)
        else or_else (inside in_value below) (inside behind later))
      ≡ lookup key ((k, v) ∷ (es ++ gs))
place-first key k v below later wrap in_value behind es gs hb hl =
    elim (Bool-cases (text_eq k key)) [
      | inl e ↦ rw (lookup-cons key k v (es ++ gs), e) refl
      | inr e ↦
          rw
            (
              lookup-cons key k v (es ++ gs),
              e,
              node_of-or_else (inside in_value below) (inside behind later),
              node_of-inside in_value below,
              node_of-inside behind later,
              lookup-append key es gs,
              hb,
              hl,
            )
            refl
    ]

mutual
  unfolding find_node find_items find_fields lookup

  node-first : (key : Text) (j : Json) → node_of (find_node key j) ≡ lookup key (entries j)
  node-first key (array xs) = node_of-inside array (find_items key 0 xs) ∙ items-first key 0 xs
  node-first key (object fs) = node_of-inside object (find_fields key fs) ∙ fields-first key fs
  node-first key null = refl
  node-first key (boolean b) = refl
  node-first key (number n) = refl
  node-first key (string s) = refl

  items-first :
      (key : Text) (i : ℕ) (xs : Items)
      → node_of (find_items key i xs) ≡ lookup key (item_entries i xs)
  items-first key i nil = refl
  items-first key i (cons v xs) =
      place-first key (decimal i) v (find_node key v) (find_items key (suc i) xs) (λ x. cons x xs)
        (λ x. cons x xs) (cons v) (entries v) (item_entries (suc i) xs) (node-first key v)
        (items-first key (suc i) xs)

  fields-first :
      (key : Text) (fs : Fields) → node_of (find_fields key fs) ≡ lookup key (field_entries fs)
  fields-first key end = refl
  fields-first key (field k v fs) =
      place-first key k v (find_node key v) (find_fields key fs) (λ x. field k x fs)
        (λ x. field k x fs) (field k v) (entries v) (field_entries fs) (node-first key v)
        (fields-first key fs)

-- `FindNode` finds the first of all the values of the tree that stands under the key, and nothing
-- exactly if none does; the values are in the order of a walk that takes each before what stands in
-- it. What it finds is a place in the tree: writing the node back leaves the tree as it was, and
-- after any value is written there, the same search finds that value, at the same place.
pub find_node-first :
    (key : Text) (j : Json)
    → (node_of (find_node key j) ≡ lookup key (entries j))
      × IsPlace (find_node key) j (find_node key j)
find_node-first key j = (node-first key j, find_node-IsPlace key j)
