-- ===== src/Query/Acler/Total.antt =====
-- The rewriting of a statement that names its tables plainly does not throw.
use pg_fort.Base.{
  ◌≡◌, refl, inl, inr, true, ◌&&◌, Option, none, some, Text, codes, text_eq, Result, ok, ◌>>=◌,
  Bool-cases,
}
use pg_fort.Schema.Tracker.{SchemaTracker}
use pg_fort.Query.Json.{
  Json, null, boolean, number, string, array, object, Items, nil, cons, Fields, end, field,
}
use pg_fort.Query.Acler.{
  parse_template, is_plain, plain_alias, join_expr, is_tracked, relname_of, alias_of, kept, on_kept,
  to_json, expand, acl_range_var, is_left_alone, acl_from_fields, acl_from_items, acl_from,
  acl_select_fields, acl_select_items, acl_select, acl_fields, acl_items, acl,
}
use pg_fort.Query.Acler.Frame.{EveryTable, EveryTableItems, EveryTableFields}
use pg_fort.Query.Acler.Guarded.Equations.{
  on_range_var, acl_from_fields-table, acl_from_fields-other, acl_select_fields-from,
  acl_select_fields-other,
}
use pg_fort.Query.Acler.Guarded.Tree.{acl_fields-select, acl_fields-other}

abbrev pub Returns {ℓ} : {A : Type ℓ} → Result A → Type ℓ
Returns {A} r = (a : A) × (r ≡ ok a)

Returns-bind {ℓ κ} :
    {A : Type ℓ} {B : Type κ} (r : Result A) (f : A → Result B)
    → Returns r
    → ((a : A) → Returns (f a))
    → Returns (r >>= f)
Returns-bind r f (a, e) k = rw e (k a)

module _ (parse_other : Text → Option Text → Result Json) (st : Option SchemaTracker) where
  -- A table with a name, and an alias if it has one, that need no quoting.
  abbrev pub IsNamed : Json → Type 0
  IsNamed v =
      (t : Text) × (a : Option Text) × (relname_of v ≡ ok t)
      × (alias_of v ≡ ok a)
      × ((is_plain t && plain_alias a) ≡ true)

  acl_range_var-Returns : (v : Json) → IsNamed v → Returns (acl_range_var (some parse_other) st v)
  unfolding acl_range_var expand parse_template
  acl_range_var-Returns v (t, a, named, aliased, plain) = elim (Bool-cases (is_tracked st t)) [
    | inl e ↦
        rw (named, acl_range_var, e, aliased, expand, parse_template, plain)
          (some (join_expr t a), refl)
    | inr e ↦ rw (named, acl_range_var, e) (none, refl)
  ]

  from_field-Returns :
      (k : Text) (v : Json) (fs : Fields)
      → (text_eq k (codes "RangeVar") ≡ true → IsNamed v)
      → Returns (acl_from (some parse_other) st v)
      → Returns (acl_select (some parse_other) st v)
      → Returns (acl_from_fields (some parse_other) st fs)
      → Returns (acl_from_fields (some parse_other) st (field k v fs))
  from_field-Returns k v fs named hf hs hfs = elim (Bool-cases (text_eq k (codes "RangeVar"))) [
    | inl e ↦ rw (acl_from_fields-table (some parse_other) st k v fs e) (
        Returns-bind (acl_range_var (some parse_other) st v) _ (acl_range_var-Returns v (named e))
          (λ r. table r))
    | inr e ↦
        rw (acl_from_fields-other (some parse_other) st k v fs e)
          (elim (Bool-cases (text_eq k (codes "SelectStmt"))) [
            | inl s ↦ rw s (Returns-bind (acl_select (some parse_other) st v) _ hs (λ w. after w))
            | inr s ↦ rw s (Returns-bind (acl_from (some parse_other) st v) _ hf (λ w. after w))
          ])
  ]
    where
      after :
          (w : Json)
          → Returns (acl_from_fields (some parse_other) st fs >>= λ p. ok (on_kept (field k w) p))
      after w =
          Returns-bind (acl_from_fields (some parse_other) st fs) _ hfs
            (λ p. (on_kept (field k w) p, refl))

      table : (r : Option Json) → Returns (on_range_var (some parse_other) st k v fs r)
      table none = after v
      table (some j) = (_, refl)

  select_field-Returns :
      (k : Text) (v : Json) (fs : Fields)
      → Returns (acl_from (some parse_other) st v)
      → Returns (acl_select (some parse_other) st v)
      → Returns (acl_select_fields (some parse_other) st fs)
      → Returns (acl_select_fields (some parse_other) st (field k v fs))
  select_field-Returns k v fs hf hs hfs = elim (Bool-cases (text_eq k (codes "fromClause"))) [
    | inl e ↦
        rw (acl_select_fields-from (some parse_other) st k v fs e)
          (Returns-bind (acl_from (some parse_other) st v) _ hf (λ w. after w))
    | inr e ↦
        rw (acl_select_fields-other (some parse_other) st k v fs e)
          (elim (Bool-cases (is_left_alone k)) [
            | inl s ↦ rw s (after v)
            | inr s ↦ rw s (Returns-bind (acl_select (some parse_other) st v) _ hs (λ w. after w))
          ])
  ]
    where
      after :
          (w : Json)
          → Returns (acl_select_fields (some parse_other) st fs >>= λ gs. ok (field k w gs))
      after w =
          Returns-bind (acl_select_fields (some parse_other) st fs) _ hfs
            (λ gs. (field k w gs, refl))

  mutual
    unfolding acl_from acl_from_items acl_select acl_select_items acl_from_fields acl_select_fields

    from-Returns : (j : Json) → EveryTable IsNamed j → Returns (acl_from (some parse_other) st j)
    from-Returns (object fs) h =
        Returns-bind (acl_from_fields (some parse_other) st fs) _ (from_fields-Returns fs h)
          (λ p. (to_json p, refl))
    from-Returns (array xs) h =
        Returns-bind (acl_from_items (some parse_other) st xs) _ (from_items-Returns xs h)
          (λ ys. (array ys, refl))
    from-Returns null h = (null, refl)
    from-Returns (boolean b) h = (boolean b, refl)
    from-Returns (number n) h = (number n, refl)
    from-Returns (string s) h = (string s, refl)

    from_items-Returns :
        (xs : Items)
        → EveryTableItems IsNamed xs
        → Returns (acl_from_items (some parse_other) st xs)
    from_items-Returns nil h = (nil, refl)
    from_items-Returns (cons v xs) h =
        Returns-bind (acl_from (some parse_other) st v) _ (from-Returns v h.0) (λ w.
          Returns-bind (acl_from_items (some parse_other) st xs) _ (from_items-Returns xs h.1)
            (λ ys. (cons w ys, refl)))

    from_fields-Returns :
        (fs : Fields)
        → EveryTableFields IsNamed fs
        → Returns (acl_from_fields (some parse_other) st fs)
    from_fields-Returns end h = (kept end, refl)
    from_fields-Returns (field k v fs) h =
        from_field-Returns k v fs h.0 (from-Returns v h.1) (select-Returns v h.1)
          (from_fields-Returns fs h.2)

    select-Returns :
        (j : Json) → EveryTable IsNamed j → Returns (acl_select (some parse_other) st j)
    select-Returns (object fs) h =
        Returns-bind (acl_select_fields (some parse_other) st fs) _ (select_fields-Returns fs h)
          (λ gs. (object gs, refl))
    select-Returns (array xs) h =
        Returns-bind (acl_select_items (some parse_other) st xs) _ (select_items-Returns xs h)
          (λ ys. (array ys, refl))
    select-Returns null h = (null, refl)
    select-Returns (boolean b) h = (boolean b, refl)
    select-Returns (number n) h = (number n, refl)
    select-Returns (string s) h = (string s, refl)

    select_items-Returns :
        (xs : Items)
        → EveryTableItems IsNamed xs
        → Returns (acl_select_items (some parse_other) st xs)
    select_items-Returns nil h = (nil, refl)
    select_items-Returns (cons v xs) h =
        Returns-bind (acl_select (some parse_other) st v) _ (select-Returns v h.0) (λ w.
          Returns-bind (acl_select_items (some parse_other) st xs) _ (select_items-Returns xs h.1)
            (λ ys. (cons w ys, refl)))

    select_fields-Returns :
        (fs : Fields)
        → EveryTableFields IsNamed fs
        → Returns (acl_select_fields (some parse_other) st fs)
    select_fields-Returns end h = (end, refl)
    select_fields-Returns (field k v fs) h =
        select_field-Returns k v fs (from-Returns v h.1) (select-Returns v h.1)
          (select_fields-Returns fs h.2)

  field-Returns :
      (k : Text) (v : Json) (fs : Fields)
      → EveryTable IsNamed v
      → Returns (acl (some parse_other) st v)
      → Returns (acl_fields (some parse_other) st fs)
      → Returns (acl_fields (some parse_other) st (field k v fs))
  field-Returns k v fs named hv hfs = elim (Bool-cases (text_eq k (codes "SelectStmt"))) [
    | inl e ↦ rw (acl_fields-select (some parse_other) st k v fs e) (
        Returns-bind (acl_select (some parse_other) st v) _ (select-Returns v named) (λ w. after w))
    | inr e ↦
        rw (acl_fields-other (some parse_other) st k v fs e)
          (Returns-bind (acl (some parse_other) st v) _ hv (λ w. after w))
  ]
    where
      after : (w : Json) → Returns (acl_fields (some parse_other) st fs >>= λ gs. ok (field k w gs))
      after w =
          Returns-bind (acl_fields (some parse_other) st fs) _ hfs (λ gs. (field k w gs, refl))

  mutual
    unfolding acl acl_items acl_fields

    tree-Returns : (j : Json) → EveryTable IsNamed j → Returns (acl (some parse_other) st j)
    tree-Returns (object fs) h =
        Returns-bind (acl_fields (some parse_other) st fs) _ (fields-Returns fs h)
          (λ gs. (object gs, refl))
    tree-Returns (array xs) h =
        Returns-bind (acl_items (some parse_other) st xs) _ (items-Returns xs h)
          (λ ys. (array ys, refl))
    tree-Returns null h = (null, refl)
    tree-Returns (boolean b) h = (boolean b, refl)
    tree-Returns (number n) h = (number n, refl)
    tree-Returns (string s) h = (string s, refl)

    items-Returns :
        (xs : Items) → EveryTableItems IsNamed xs → Returns (acl_items (some parse_other) st xs)
    items-Returns nil h = (nil, refl)
    items-Returns (cons v xs) h =
        Returns-bind (acl (some parse_other) st v) _ (tree-Returns v h.0) (λ w.
          Returns-bind (acl_items (some parse_other) st xs) _ (items-Returns xs h.1)
            (λ ys. (cons w ys, refl)))

    fields-Returns :
        (fs : Fields) → EveryTableFields IsNamed fs → Returns (acl_fields (some parse_other) st fs)
    fields-Returns end h = (end, refl)
    fields-Returns (field k v fs) h =
        field-Returns k v fs h.1 (tree-Returns v h.1) (fields-Returns fs h.2)
