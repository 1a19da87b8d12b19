-- ===== src/Query/Acler/Guarded/Equations.antt =====
-- The equations of the passes of query-acler.cpp over the fields of an object, case by case.
use pg_fort.Base.{
  ◌≡◌, inl, inr, Bool, true, false, Option, none, some, Text, codes, text_eq, Result, ok, ◌>>=◌,
  Bool-cases,
}
use pg_fort.Schema.Tracker.{SchemaTracker}
use pg_fort.Query.Json.{Json, Fields, field}
use pg_fort.Query.Acler.{
  Template, Pass, replaced, on_kept, acl_range_var, is_left_alone, acl_from_fields, acl_from,
  acl_select_fields, acl_select,
}

module _ (template : Template) (st : Option SchemaTracker) where
  -- The equations of the passes over fields.
  abbrev pub acl_from_value : Bool → Json → Result Json
  acl_from_value true v = acl_select template st v
  acl_from_value false v = acl_from template st v

  abbrev pub on_range_var : Text → Json → Fields → Option Json → Result Pass
  on_range_var k v fs (some j) = ok (replaced j)
  on_range_var k v fs none = acl_from_fields template st fs >>= λ p. ok (on_kept (field k v) p)

  pub acl_from_fields-table :
      (k : Text) (v : Json) (fs : Fields)
      → text_eq k (codes "RangeVar") ≡ true
      → acl_from_fields template st (field k v fs)
        ≡ (acl_range_var template st v >>= on_range_var k v fs)
  unfolding acl_from_fields
  acl_from_fields-table k v fs h = rw (h, acl_from_fields)

  pub acl_from_fields-other :
      (k : Text) (v : Json) (fs : Fields)
      → text_eq k (codes "RangeVar") ≡ false
      → acl_from_fields template st (field k v fs) ≡ (
          acl_from_value (text_eq k (codes "SelectStmt")) v >>= λ v'.
          acl_from_fields template st fs >>= λ p. ok (on_kept (field k v') p))
  unfolding acl_from_fields
  acl_from_fields-other k v fs h =
      rw (h, acl_from_fields)
        (elim (Bool-cases (text_eq k (codes "SelectStmt"))) [ inl e ↦ rw e | inr e ↦ rw e ])

  pub acl_select_fields-from :
      (k : Text) (v : Json) (fs : Fields)
      → text_eq k (codes "fromClause") ≡ true
      → acl_select_fields template st (field k v fs) ≡ (
          acl_from template st v >>= λ v'.
          acl_select_fields template st fs >>= λ fs'. ok (field k v' fs'))
  unfolding acl_select_fields
  acl_select_fields-from k v fs h = rw (h, acl_select_fields)

  abbrev pub acl_select_value : Bool → Json → Result Json
  acl_select_value true v = ok v
  acl_select_value false v = acl_select template st v

  pub acl_select_fields-other :
      (k : Text) (v : Json) (fs : Fields)
      → text_eq k (codes "fromClause") ≡ false
      → acl_select_fields template st (field k v fs) ≡ (
          acl_select_value (is_left_alone k) v >>= λ v'.
          acl_select_fields template st fs >>= λ fs'. ok (field k v' fs'))
  unfolding acl_select_fields
  acl_select_fields-other k v fs h =
      rw (h, acl_select_fields)
        (elim (Bool-cases (is_left_alone k)) [ inl e ↦ rw e | inr e ↦ rw e ])
