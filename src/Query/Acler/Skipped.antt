-- ===== src/Query/Acler/Skipped.antt =====
-- The clauses of a SELECT that the rewriting does not look into.
use pg_fort.Base.{
  ◌≡◌, refl, inl, inr, true, false, Option, Text, codes, text_eq, text_eq_iff, ok, ◌>>=◌, arith,
  Bool-cases, Ensures, Ensures-bind, Ensures-ok, Ensures-any,
}
use pg_fort.Schema.Tracker.{SchemaTracker}
use pg_fort.Query.Json.{Json, Fields, end, field, get_field}
use pg_fort.Query.Acler.{Template, is_left_alone, acl_from, acl_select_fields, acl_select}
use pg_fort.Query.Acler.Guarded.Equations.{acl_select_fields-from, acl_select_fields-other}

get_field-field :
    (key k : Text) (v w : Json) (fs gs : Fields)
    → (text_eq k key ≡ true → w ≡ v)
    → get_field key gs ≡ get_field key fs
    → get_field key (field k w gs) ≡ get_field key (field k v fs)
unfolding get_field
get_field-field key k v w fs gs same rest = elim (Bool-cases (text_eq k key)) [
  | inl e ↦ rw (e, same e)
  | inr e ↦ rw (e, rest)
]

from_clause_looked_into : is_left_alone (codes "fromClause") ≡ false
unfolding is_left_alone text_eq
from_clause_looked_into = refl

module _ (template : Template) (st : Option SchemaTracker) (key : Text) where
  abbrev Same : Fields → Fields → Type 0
  Same fs gs = get_field key gs ≡ get_field key fs

  field-Same :
      (k : Text) (v w : Json) (fs : Fields)
      → (text_eq k key ≡ true → w ≡ v)
      → Ensures (Same fs) (acl_select_fields template st fs)
      → Ensures (Same (field k v fs)) (acl_select_fields template st fs >>= λ gs. ok (field k w gs))
  field-Same k v w fs same h =
      Ensures-bind (Same fs) (Same (field k v fs)) (acl_select_fields template st fs) _ h
        (λ gs e. get_field-field key k v w fs gs same e)

  select_fields-Same :
      (fs : Fields)
      → is_left_alone key ≡ true
      → Ensures (Same fs) (acl_select_fields template st fs)
  select_fields-Same end s = unfold acl_select_fields in refl
  select_fields-Same (field k v fs) s =
      let ih = select_fields-Same fs s in
      elim (Bool-cases (text_eq k (codes "fromClause"))) [
        | inl e ↦ rw (acl_select_fields-from template st k v fs e) (
            Ensures-bind (λ _. Unit {0}) (Same (field k v fs)) (acl_from template st v) _
              (Ensures-any (acl_from template st v))
              (λ w _. field-Same k v w fs (λ q. absurd (not_from e q)) ih))
        | inr e ↦
            rw (acl_select_fields-other template st k v fs e) (elim (Bool-cases (is_left_alone k)) [
              | inl l ↦ rw l (field-Same k v v fs (λ q. refl) ih)
              | inr l ↦ rw l (
                  Ensures-bind (λ _. Unit {0}) (Same (field k v fs)) (acl_select template st v) _
                    (Ensures-any (acl_select template st v))
                    (λ w _. field-Same k v w fs (λ q. absurd (not_left l q)) ih))
            ])
      ]
    where
      not_left : is_left_alone k ≡ false → text_eq k key ≡ true → ⊥
      not_left l q = ground (arith, text_eq_iff k key)

      not_from : text_eq k (codes "fromClause") ≡ true → text_eq k key ≡ true → ⊥
      not_from e q =
          ground
            (arith, text_eq_iff k key, text_eq_iff k (codes "fromClause"), from_clause_looked_into)

  clause-skipped :
      (fs gs : Fields)
      → is_left_alone key ≡ true
      → acl_select_fields template st fs ≡ ok gs
      → get_field key gs ≡ get_field key fs
  clause-skipped fs gs s e =
      Ensures-ok (Same fs) (acl_select_fields template st fs) (select_fields-Same fs s) e

-- The clauses INTO and WHERE and the target list of a SELECT come out of the rewriting as they went
-- in, whatever sub-queries they hold and whatever tables are under access control.
pub acl_select_fields-skipped :
    (template : Template) (st : Option SchemaTracker) (fs : Fields) {gs : Fields}
    → acl_select_fields template st fs ≡ ok gs
    → (get_field (codes "intoClause") gs ≡ get_field (codes "intoClause") fs)
      × (get_field (codes "whereClause") gs ≡ get_field (codes "whereClause") fs)
      × (get_field (codes "targetList") gs ≡ get_field (codes "targetList") fs)
unfolding is_left_alone text_eq
acl_select_fields-skipped template st fs {gs} e = (
  clause-skipped template st (codes "intoClause") fs gs refl e,
  clause-skipped template st (codes "whereClause") fs gs refl e,
  clause-skipped template st (codes "targetList") fs gs refl e,
)
