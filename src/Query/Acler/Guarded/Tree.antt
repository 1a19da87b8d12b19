-- ===== src/Query/Acler/Guarded/Tree.antt =====
-- The rewriting of a whole statement.
use pg_fort.Base.{
  ◌≡◌, inl, inr, true, false, Option, Text, codes, text_eq, text_eq_iff, ok, ◌>>=◌, arith,
  Bool-cases, Ensures, Ensures-bind, Ensures-ok, ◌≢◌,
}
use pg_fort.Schema.Tracker.{SchemaTracker}
use pg_fort.Query.Json.{
  Json, null, boolean, number, string, array, object, Items, nil, cons, Fields, end, field,
}
use pg_fort.Query.Acler.{Template, acl_select, acl_fields, acl_items, acl}
use pg_fort.Query.Acler.Guarded.{
  GuardedSelect, GuardedTree, GuardedTreeFields, GuardedTreeItems, tree_object, tree_array,
  tree_null, tree_boolean, tree_number, tree_string, tree_end, tree_select, tree_field, tree_nil,
  tree_cons,
}
use pg_fort.Query.Acler.Guarded.Passes.{acl_select-Guarded}

module _ (template : Template) (st : Option SchemaTracker) where
  abbrev Tree : Json → Type 0
  Tree = GuardedTree template st

  abbrev TreeFields : Fields → Type 0
  TreeFields = GuardedTreeFields template st

  abbrev TreeItems : Items → Type 0
  TreeItems = GuardedTreeItems template st

  pub acl_fields-select :
      (k : Text) (v : Json) (fs : Fields)
      → text_eq k (codes "SelectStmt") ≡ true
      → acl_fields template st (field k v fs) ≡ (
          acl_select template st v >>= λ v'.
          acl_fields template st fs >>= λ fs'. ok (field k v' fs'))
  unfolding acl_fields
  acl_fields-select k v fs e = rw (e, acl_fields)

  pub acl_fields-other :
      (k : Text) (v : Json) (fs : Fields)
      → text_eq k (codes "SelectStmt") ≡ false
      → acl_fields template st (field k v fs)
        ≡ (acl template st v >>= λ v'. acl_fields template st fs >>= λ fs'. ok (field k v' fs'))
  unfolding acl_fields
  acl_fields-other k v fs e = rw (e, acl_fields)

  field-TreeFields :
      (k : Text) (v : Json) (fs : Fields)
      → Ensures Tree (acl template st v)
      → Ensures TreeFields (acl_fields template st fs)
      → Ensures TreeFields (acl_fields template st (field k v fs))
  field-TreeFields k v fs hv hfs = elim (Bool-cases (text_eq k (codes "SelectStmt"))) [
    | inl e ↦ rw (acl_fields-select k v fs e) (
        Ensures-bind (GuardedSelect template st) TreeFields (acl_select template st v) _
          (acl_select-Guarded template st v)
          (λ v' g. after v' (λ gs h. tree_select ((text_eq_iff k _).0 e) g h)))
    | inr e ↦ rw (acl_fields-other k v fs e) (
        Ensures-bind Tree TreeFields (acl template st v) _ hv
          (λ v' g. after v' (λ gs h. tree_field (other e) g h)))
  ]
    where
      other : text_eq k (codes "SelectStmt") ≡ false → k ≢ codes "SelectStmt"
      other e p = ground (arith, text_eq_iff k (codes "SelectStmt"))

      after :
          (w : Json)
          → ((gs : Fields) → TreeFields gs → TreeFields (field k w gs))
          → Ensures TreeFields (acl_fields template st fs >>= λ gs. ok (field k w gs))
      after w h =
          Ensures-bind TreeFields TreeFields (acl_fields template st fs) _ hfs (λ gs g. h gs g)

  mutual
    unfolding acl acl_items

    json-Guarded : (j : Json) → Ensures Tree (acl template st j)
    json-Guarded (object fs) =
        Ensures-bind TreeFields Tree (acl_fields template st fs) _ (fields-Guarded fs)
          (λ gs g. tree_object g)
    json-Guarded (array xs) =
        Ensures-bind TreeItems Tree (acl_items template st xs) _ (items-Guarded xs)
          (λ ys g. tree_array g)
    json-Guarded null = tree_null
    json-Guarded (boolean b) = tree_boolean
    json-Guarded (number n) = tree_number
    json-Guarded (string s) = tree_string

    items-Guarded : (xs : Items) → Ensures TreeItems (acl_items template st xs)
    items-Guarded nil = tree_nil
    items-Guarded (cons v xs) =
        Ensures-bind Tree TreeItems (acl template st v) _ (json-Guarded v) (λ v' g.
          Ensures-bind TreeItems TreeItems (acl_items template st xs) _ (items-Guarded xs)
            (λ ys h. tree_cons g h))

    fields-Guarded : (fs : Fields) → Ensures TreeFields (acl_fields template st fs)
    fields-Guarded end = tree_end
    fields-Guarded (field k v fs) = field-TreeFields k v fs (json-Guarded v) (fields-Guarded fs)

  -- A statement that the rewriting returns is guarded: in the FROM clauses of its SELECTs, and of
  -- the sub-queries in such clauses, every table under access control has become its join with its
  -- access list (or what the JSON parser made of that join, for a name that needs quoting), and the
  -- only bare tables are those that are not under access control. The clauses INTO, WHERE and the
  -- target list are not looked into.
  pub acl-Guarded : (j : Json) {j' : Json} → acl template st j ≡ ok j' → GuardedTree template st j'
  acl-Guarded j e = Ensures-ok Tree (acl template st j) (json-Guarded j) e
