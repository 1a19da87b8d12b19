-- ===== src/Query/Acler/Guarded/Passes.antt =====
-- The passes over FROM clauses and over SELECT statements leave them guarded.
use pg_fort.Base.{
  ◌≡◌, refl, ◌≢◌, inl, inr, true, false, ◌&&◌, Option, none, some, Text, codes, text_eq,
  text_eq_iff, Result, ok, throw, ◌>>=◌, arith, Bool-cases, Ensures, Ensures-bind, Ensures-any,
}
use pg_fort.Schema.Tracker.{SchemaTracker}
use pg_fort.Query.Json.{
  Json, null, boolean, number, string, array, object, Items, nil, cons, Fields, end, field,
}
use pg_fort.Query.Acler.{
  parse_template, Template, is_plain, plain_alias, is_tracked, relname_of, alias_of, Pass, kept,
  replaced, on_kept, to_json, expand, acl_range_var, is_left_alone, acl_from_fields, acl_from_items,
  acl_from, acl_select_fields, acl_select_items, acl_select,
}
use pg_fort.Query.Acler.Guarded.{
  GuardedFrom, GuardedFromFields, GuardedFromItems, GuardedSelect, GuardedSelectFields,
  GuardedSelectItems, joined, parsed, from_object, from_array, from_null, from_boolean, from_number,
  from_string, from_end, from_table, from_select, from_field, from_nil, from_cons, select_object,
  select_array, select_null, select_boolean, select_number, select_string, select_end, select_from,
  select_skipped, select_field, select_nil, select_cons,
}
use pg_fort.Query.Acler.Guarded.Equations.{
  on_range_var, acl_from_fields-table, acl_from_fields-other, acl_select_fields-from,
  acl_select_fields-other,
}

module _ (template : Template) (st : Option SchemaTracker) where
  abbrev pub From : Json → Type 0
  From = GuardedFrom template st

  abbrev pub FromFields : Fields → Type 0
  FromFields = GuardedFromFields template st

  abbrev pub FromItems : Items → Type 0
  FromItems = GuardedFromItems template st

  abbrev pub Select : Json → Type 0
  Select = GuardedSelect template st

  abbrev pub SelectFields : Fields → Type 0
  SelectFields = GuardedSelectFields template st

  abbrev pub SelectItems : Items → Type 0
  SelectItems = GuardedSelectItems template st

  abbrev GuardedPass : Pass → Type 0
  GuardedPass (kept fs) = FromFields fs
  GuardedPass (replaced j) = From j

  -- A RangeVar is replaced by a guarded join, or its relation is not under access control.
  abbrev RangeVarDone : Json → Option Json → Type 0
  RangeVarDone v (some j) = From j
  RangeVarDone v none = (t : Text) × (relname_of v ≡ ok t) × (is_tracked st t ≡ false)

  expand-GuardedFrom :
      (t : Text) (a : Option Text) → is_tracked st t ≡ true → Ensures From (expand template st t a)
  unfolding expand
  expand-GuardedFrom t a tracked = elim (Bool-cases (is_plain t && plain_alias a)) [
    | inl e ↦ plainly template e
    | inr e ↦ go (parse_template template t a) refl e
  ]
    where
      plainly :
          (p : Template)
          → (is_plain t && plain_alias a) ≡ true
          → Ensures From (parse_template p t a)
      plainly none e = unfold parse_template in tt
      plainly (some parse_other) e = rw (parse_template, e) (joined t a tracked)

      go :
          (r : Result Json)
          → parse_template template t a ≡ r
          → (is_plain t && plain_alias a) ≡ false
          → Ensures From r
      go (ok j) p e = parsed t a e p
      go (throw x) p e = tt

  acl_range_var-RangeVarDone : (v : Json) → Ensures (RangeVarDone v) (acl_range_var template st v)
  unfolding acl_range_var
  acl_range_var-RangeVarDone v = go (relname_of v) refl
    where
      go :
          (r : Result Text)
          → relname_of v ≡ r
          → Ensures (RangeVarDone v) (acl_range_var template st v)
      go (throw x) p = rw (p, acl_range_var) tt
      go (ok t) p = elim (Bool-cases (is_tracked st t)) [
        | inr e ↦ rw (p, acl_range_var, e) (t, p, e)
        | inl e ↦
            rw (p, acl_range_var, e)
              (Ensures-bind (λ _. Unit {0}) (RangeVarDone v) (alias_of v) _
                (Ensures-any (alias_of v))
                (λ a _.
                  Ensures-bind From (RangeVarDone v) (expand template st t a) _
                    (expand-GuardedFrom t a e) (λ j g. g)))
      ]

  on_kept-GuardedPass :
      (k : Text) (v : Json)
      → ((fs : Fields) → FromFields fs → FromFields (field k v fs))
      → (p : Pass) → GuardedPass p
      → GuardedPass (on_kept (field k v) p)
  on_kept-GuardedPass k v h (kept fs) g = h fs g
  on_kept-GuardedPass k v h (replaced j) g = g

  to_json-GuardedFrom : (p : Pass) → GuardedPass p → From (to_json p)
  to_json-GuardedFrom (kept fs) g = from_object g
  to_json-GuardedFrom (replaced j) g = g

  ne_of_false : (k t : Text) → text_eq k t ≡ false → k ≢ t
  ne_of_false k t h e = ground (arith, text_eq_iff k t)

  field-GuardedPass :
      (k : Text) (v : Json) (fs : Fields)
      → Ensures From (acl_from template st v)
      → Ensures Select (acl_select template st v)
      → Ensures GuardedPass (acl_from_fields template st fs)
      → Ensures GuardedPass (acl_from_fields template st (field k v fs))
  field-GuardedPass k v fs hf hs hfs = elim (Bool-cases (text_eq k (codes "RangeVar"))) [
    | inl e ↦ rw (acl_from_fields-table template st k v fs e) (
        Ensures-bind (RangeVarDone v) GuardedPass (acl_range_var template st v)
          (on_range_var template st k v fs) (acl_range_var-RangeVarDone v)
          (λ r. table ((text_eq_iff k _).0 e) r))
    | inr e ↦
        rw (acl_from_fields-other template st k v fs e)
          (elim (Bool-cases (text_eq k (codes "SelectStmt"))) [
            | inl s ↦ rw s (
                Ensures-bind Select GuardedPass (acl_select template st v) _ hs
                  (λ v' g. after v' (λ gs p. from_select ((text_eq_iff k _).0 s) g p)))
            | inr s ↦ rw s (
                Ensures-bind From GuardedPass (acl_from template st v) _ hf (λ v' g.
                  after v' (λ gs p. from_field (ne_of_false k _ e) (ne_of_false k _ s) g p)))
          ])
  ]
    where
      after :
          (w : Json)
          → ((gs : Fields) → FromFields gs → FromFields (field k w gs))
          → Ensures GuardedPass (acl_from_fields template st fs >>= λ p. ok (on_kept (field k w) p))
      after w h =
          Ensures-bind GuardedPass GuardedPass (acl_from_fields template st fs) _ hfs
            (λ p g. on_kept-GuardedPass k w h p g)

      table :
          k ≡ codes "RangeVar"
          → (r : Option Json) → RangeVarDone v r
          → Ensures GuardedPass (on_range_var template st k v fs r)
      table e (some j) g = g
      table e none (t, named, free) = after v (λ gs p. from_table t e named free p)

  field-GuardedSelectFields :
      (k : Text) (v : Json) (fs : Fields)
      → Ensures From (acl_from template st v)
      → Ensures Select (acl_select template st v)
      → Ensures SelectFields (acl_select_fields template st fs)
      → Ensures SelectFields (acl_select_fields template st (field k v fs))
  field-GuardedSelectFields k v fs hf hs hfs = elim (Bool-cases (text_eq k (codes "fromClause"))) [
    | inl e ↦ rw (acl_select_fields-from template st k v fs e) (
        Ensures-bind From SelectFields (acl_from template st v) _ hf
          (λ v' g. after v' (λ gs p. select_from ((text_eq_iff k _).0 e) g p)))
    | inr e ↦
        rw (acl_select_fields-other template st k v fs e) (elim (Bool-cases (is_left_alone k)) [
          | inl s ↦ rw s (after v (λ gs p. select_skipped s p))
          | inr s ↦ rw s (
              Ensures-bind Select SelectFields (acl_select template st v) _ hs
                (λ v' g. after v' (λ gs p. select_field (ne_of_false k _ e) g p)))
        ])
  ]
    where
      after :
          (w : Json)
          → ((gs : Fields) → SelectFields gs → SelectFields (field k w gs))
          → Ensures SelectFields (acl_select_fields template st fs >>= λ gs. ok (field k w gs))
      after w h =
          Ensures-bind SelectFields SelectFields (acl_select_fields template st fs) _ hfs
            (λ gs g. h gs g)

  mutual
    unfolding acl_from acl_from_items acl_select acl_select_items

    pub acl_from-Guarded : (j : Json) → Ensures From (acl_from template st j)
    acl_from-Guarded (object fs) =
        Ensures-bind GuardedPass From (acl_from_fields template st fs) _ (from_fields-Guarded fs)
          (λ p g. to_json-GuardedFrom p g)
    acl_from-Guarded (array xs) =
        Ensures-bind FromItems From (acl_from_items template st xs) _ (acl_from_items-Guarded xs)
          (λ ys g. from_array g)
    acl_from-Guarded null = from_null
    acl_from-Guarded (boolean b) = from_boolean
    acl_from-Guarded (number n) = from_number
    acl_from-Guarded (string s) = from_string

    acl_from_items-Guarded : (xs : Items) → Ensures FromItems (acl_from_items template st xs)
    acl_from_items-Guarded nil = from_nil
    acl_from_items-Guarded (cons v xs) =
        Ensures-bind From FromItems (acl_from template st v) _ (acl_from-Guarded v) (λ v' g.
          Ensures-bind FromItems FromItems (acl_from_items template st xs) _
            (acl_from_items-Guarded xs) (λ ys h. from_cons g h))

    from_fields-Guarded : (fs : Fields) → Ensures GuardedPass (acl_from_fields template st fs)
    from_fields-Guarded end = from_end
    from_fields-Guarded (field k v fs) =
        field-GuardedPass k v fs (acl_from-Guarded v) (acl_select-Guarded v)
          (from_fields-Guarded fs)

    pub acl_select-Guarded : (j : Json) → Ensures Select (acl_select template st j)
    acl_select-Guarded (object fs) =
        Ensures-bind SelectFields Select (acl_select_fields template st fs) _
          (acl_select_fields-Guarded fs) (λ gs g. select_object g)
    acl_select-Guarded (array xs) =
        Ensures-bind SelectItems Select (acl_select_items template st xs) _
          (acl_select_items-Guarded xs) (λ ys g. select_array g)
    acl_select-Guarded null = select_null
    acl_select-Guarded (boolean b) = select_boolean
    acl_select-Guarded (number n) = select_number
    acl_select-Guarded (string s) = select_string

    acl_select_items-Guarded : (xs : Items) → Ensures SelectItems (acl_select_items template st xs)
    acl_select_items-Guarded nil = select_nil
    acl_select_items-Guarded (cons v xs) =
        Ensures-bind Select SelectItems (acl_select template st v) _ (acl_select-Guarded v) (λ v' g.
          Ensures-bind SelectItems SelectItems (acl_select_items template st xs) _
            (acl_select_items-Guarded xs) (λ ys h. select_cons g h))

    acl_select_fields-Guarded :
        (fs : Fields) → Ensures SelectFields (acl_select_fields template st fs)
    acl_select_fields-Guarded end = select_end
    acl_select_fields-Guarded (field k v fs) =
        field-GuardedSelectFields k v fs (acl_from-Guarded v) (acl_select-Guarded v)
          (acl_select_fields-Guarded fs)
