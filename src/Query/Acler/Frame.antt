-- ===== src/Query/Acler/Frame.antt =====
-- What the rewriting leaves as it was.
use pg_fort.Base.{
  ◌≡◌, refl, inl, inr, true, false, Option, none, Text, codes, text_eq, ok, Bool-cases,
}
use pg_fort.Schema.Tracker.{SchemaTracker}
use pg_fort.Query.Json.{
  Json, null, boolean, number, string, array, object, Items, nil, cons, Fields, end, field,
}
use pg_fort.Query.Acler.{
  Template, is_tracked, relname_of, kept, acl_range_var, is_left_alone, acl_from_fields,
  acl_from_items, acl_from, acl_select_fields, acl_select_items, acl_select, acl_fields, acl_items,
  acl,
}
use pg_fort.Query.Acler.Guarded.Equations.{
  acl_from_fields-table, acl_from_fields-other, acl_select_fields-from, acl_select_fields-other,
}
use pg_fort.Query.Acler.Guarded.Tree.{acl_fields-select, acl_fields-other}

-- Every value under the key `RangeVar`, at any depth, satisfies `P`.
abbrev mutual
  pub EveryTable : (Json → Type 0) → Json → Type 0
  EveryTable P (object fs) = EveryTableFields P fs
  EveryTable P (array xs) = EveryTableItems P xs
  EveryTable P null = Unit {0}
  EveryTable P (boolean b) = Unit {0}
  EveryTable P (number n) = Unit {0}
  EveryTable P (string s) = Unit {0}

  pub EveryTableItems : (Json → Type 0) → Items → Type 0
  EveryTableItems P nil = Unit {0}
  EveryTableItems P (cons v xs) = EveryTable P v × EveryTableItems P xs

  pub EveryTableFields : (Json → Type 0) → Fields → Type 0
  EveryTableFields P end = Unit {0}
  EveryTableFields P (field k v fs) =
      (text_eq k (codes "RangeVar") ≡ true → P v) × EveryTable P v × EveryTableFields P fs

module _ (template : Template) (st : Option SchemaTracker) where
  -- A relation that is named, and not under access control.
  abbrev pub IsFree : Json → Type 0
  IsFree v = (t : Text) × (relname_of v ≡ ok t) × (is_tracked st t ≡ false)

  acl_range_var-IsFree : (v : Json) → IsFree v → acl_range_var template st v ≡ ok none
  unfolding acl_range_var
  acl_range_var-IsFree v (t, named, free) = rw (named, acl_range_var, free)

  from_field-free :
      (k : Text) (v : Json) (fs : Fields)
      → (text_eq k (codes "RangeVar") ≡ true → IsFree v)
      → acl_from template st v ≡ ok v
      → acl_select template st v ≡ ok v
      → acl_from_fields template st fs ≡ ok (kept fs)
      → acl_from_fields template st (field k v fs) ≡ ok (kept (field k v fs))
  from_field-free k v fs free hf hs hfs = elim (Bool-cases (text_eq k (codes "RangeVar"))) [
    | inl e ↦ rw (acl_from_fields-table template st k v fs e, acl_range_var-IsFree v (free e), hfs)
    | inr e ↦
        rw (acl_from_fields-other template st k v fs e)
          (elim (Bool-cases (text_eq k (codes "SelectStmt"))) [
            | inl s ↦ rw (s, hs, hfs)
            | inr s ↦ rw (s, hf, hfs)
          ])
  ]

  select_field-free :
      (k : Text) (v : Json) (fs : Fields)
      → acl_from template st v ≡ ok v
      → acl_select template st v ≡ ok v
      → acl_select_fields template st fs ≡ ok fs
      → acl_select_fields template st (field k v fs) ≡ ok (field k v fs)
  select_field-free k v fs hf hs hfs = elim (Bool-cases (text_eq k (codes "fromClause"))) [
    | inl e ↦ rw (acl_select_fields-from template st k v fs e, hf, hfs)
    | inr e ↦
        rw (acl_select_fields-other template st k v fs e)
          (elim (Bool-cases (is_left_alone k)) [ inl s ↦ rw (s, hfs) | inr s ↦ rw (s, hs, hfs) ])
  ]

  mutual
    unfolding acl_from acl_from_items acl_select acl_select_items acl_from_fields acl_select_fields

    from-free : (j : Json) → EveryTable IsFree j → acl_from template st j ≡ ok j
    from-free (object fs) h = rw (from_fields-free fs h)
    from-free (array xs) h = rw (from_items-free xs h)
    from-free null h = refl
    from-free (boolean b) h = refl
    from-free (number n) h = refl
    from-free (string s) h = refl

    from_items-free :
        (xs : Items) → EveryTableItems IsFree xs → acl_from_items template st xs ≡ ok xs
    from_items-free nil h = refl
    from_items-free (cons v xs) h = rw (from-free v h.0, from_items-free xs h.1)

    from_fields-free :
        (fs : Fields) → EveryTableFields IsFree fs → acl_from_fields template st fs ≡ ok (kept fs)
    from_fields-free end h = refl
    from_fields-free (field k v fs) h =
        from_field-free k v fs h.0 (from-free v h.1) (select-free v h.1) (from_fields-free fs h.2)

    select-free : (j : Json) → EveryTable IsFree j → acl_select template st j ≡ ok j
    select-free (object fs) h = rw (select_fields-free fs h)
    select-free (array xs) h = rw (select_items-free xs h)
    select-free null h = refl
    select-free (boolean b) h = refl
    select-free (number n) h = refl
    select-free (string s) h = refl

    select_items-free :
        (xs : Items) → EveryTableItems IsFree xs → acl_select_items template st xs ≡ ok xs
    select_items-free nil h = refl
    select_items-free (cons v xs) h = rw (select-free v h.0, select_items-free xs h.1)

    select_fields-free :
        (fs : Fields) → EveryTableFields IsFree fs → acl_select_fields template st fs ≡ ok fs
    select_fields-free end h = refl
    select_fields-free (field k v fs) h =
        select_field-free k v fs (from-free v h.1) (select-free v h.1) (select_fields-free fs h.2)

  field-free :
      (k : Text) (v : Json) (fs : Fields)
      → EveryTable IsFree v
      → acl template st v ≡ ok v
      → acl_fields template st fs ≡ ok fs
      → acl_fields template st (field k v fs) ≡ ok (field k v fs)
  field-free k v fs free hv hfs = elim (Bool-cases (text_eq k (codes "SelectStmt"))) [
    | inl e ↦ rw (acl_fields-select template st k v fs e, select-free v free, hfs)
    | inr e ↦ rw (acl_fields-other template st k v fs e, hv, hfs)
  ]

  mutual
    unfolding acl acl_items acl_fields

    tree-free : (j : Json) → EveryTable IsFree j → acl template st j ≡ ok j
    tree-free (object fs) h = rw (fields-free fs h)
    tree-free (array xs) h = rw (items-free xs h)
    tree-free null h = refl
    tree-free (boolean b) h = refl
    tree-free (number n) h = refl
    tree-free (string s) h = refl

    items-free : (xs : Items) → EveryTableItems IsFree xs → acl_items template st xs ≡ ok xs
    items-free nil h = refl
    items-free (cons v xs) h = rw (tree-free v h.0, items-free xs h.1)

    fields-free : (fs : Fields) → EveryTableFields IsFree fs → acl_fields template st fs ≡ ok fs
    fields-free end h = refl
    fields-free (field k v fs) h = field-free k v fs h.1 (tree-free v h.1) (fields-free fs h.2)

  -- A statement none of whose tables is under access control is returned as it was.
  pub acl-free : (j : Json) → EveryTable IsFree j → acl template st j ≡ ok j
  acl-free j h = tree-free j h
