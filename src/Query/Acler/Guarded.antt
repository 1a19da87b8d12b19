-- ===== src/Query/Acler/Guarded.antt =====
-- Which statements are guarded: no table under access control stands bare in a FROM clause, of the
-- statement or of a sub-query in such a clause. The proofs stand in the children.
pub mod Equations
mod Passes
pub mod Tree
use pg_fort.Base.{◌≡◌, ◌≢◌, Bool, true, false, ◌&&◌, Option, Text, codes, Result, ok}
use pg_fort.Schema.Tracker.{SchemaTracker}
use pg_fort.Query.Json.{
  Json, null, boolean, number, string, array, object, Items, nil, cons, Fields, end, field,
}
use pg_fort.Query.Acler.{
  parse_template, Template, is_plain, plain_alias, join_expr, is_tracked, relname_of, is_left_alone,
}

module _ (template : Template) (st : Option SchemaTracker) where
  mutual
    -- What a FROM clause may hold.
    pub data GuardedFrom : Json → Type 0 where
      -- a table under access control, joined with its access list
      joined : (t : Text) (a : Option Text) → is_tracked st t ≡ true → GuardedFrom (join_expr t a)
      -- what the JSON parser made of the join, for a name that needs quoting
      parsed :
          {j : Json} (t : Text) (a : Option Text)
          → (is_plain t && plain_alias a) ≡ false
          → parse_template template t a ≡ ok j
          → GuardedFrom j
      from_object : {fs : Fields} → GuardedFromFields fs → GuardedFrom (object fs)
      from_array : {xs : Items} → GuardedFromItems xs → GuardedFrom (array xs)
      from_null : GuardedFrom null
      from_boolean : {b : Bool} → GuardedFrom (boolean b)
      from_number : {n : Text} → GuardedFrom (number n)
      from_string : {s : Text} → GuardedFrom (string s)

    pub data GuardedFromFields : Fields → Type 0 where
      from_end : GuardedFromFields end
      -- a relation that is not under access control
      from_table :
          {k : Text} {v : Json} {fs : Fields} (t : Text)
          → k ≡ codes "RangeVar"
          → relname_of v ≡ ok t
          → is_tracked st t ≡ false
          → GuardedFromFields fs
          → GuardedFromFields (field k v fs)
      from_select :
          {k : Text} {v : Json} {fs : Fields}
          → k ≡ codes "SelectStmt"
          → GuardedSelect v
          → GuardedFromFields fs
          → GuardedFromFields (field k v fs)
      from_field :
          {k : Text} {v : Json} {fs : Fields}
          → k ≢ codes "RangeVar"
          → k ≢ codes "SelectStmt"
          → GuardedFrom v
          → GuardedFromFields fs
          → GuardedFromFields (field k v fs)

    pub data GuardedFromItems : Items → Type 0 where
      from_nil : GuardedFromItems nil
      from_cons :
          {v : Json} {xs : Items}
          → GuardedFrom v
          → GuardedFromItems xs
          → GuardedFromItems (cons v xs)

    -- A SELECT statement: its FROM clauses are guarded, at every level below it, except that nothing
    -- is said of the clauses that are left alone.
    pub data GuardedSelect : Json → Type 0 where
      select_object : {fs : Fields} → GuardedSelectFields fs → GuardedSelect (object fs)
      select_array : {xs : Items} → GuardedSelectItems xs → GuardedSelect (array xs)
      select_null : GuardedSelect null
      select_boolean : {b : Bool} → GuardedSelect (boolean b)
      select_number : {n : Text} → GuardedSelect (number n)
      select_string : {s : Text} → GuardedSelect (string s)

    pub data GuardedSelectFields : Fields → Type 0 where
      select_end : GuardedSelectFields end
      select_from :
          {k : Text} {v : Json} {fs : Fields}
          → k ≡ codes "fromClause"
          → GuardedFrom v
          → GuardedSelectFields fs
          → GuardedSelectFields (field k v fs)
      select_skipped :
          {k : Text} {v : Json} {fs : Fields}
          → is_left_alone k ≡ true
          → GuardedSelectFields fs
          → GuardedSelectFields (field k v fs)
      select_field :
          {k : Text} {v : Json} {fs : Fields}
          → k ≢ codes "fromClause"
          → GuardedSelect v
          → GuardedSelectFields fs
          → GuardedSelectFields (field k v fs)

    pub data GuardedSelectItems : Items → Type 0 where
      select_nil : GuardedSelectItems nil
      select_cons :
          {v : Json} {xs : Items}
          → GuardedSelect v
          → GuardedSelectItems xs
          → GuardedSelectItems (cons v xs)

  mutual
    -- A statement: every SELECT in it is guarded.
    pub data GuardedTree : Json → Type 0 where
      tree_object : {fs : Fields} → GuardedTreeFields fs → GuardedTree (object fs)
      tree_array : {xs : Items} → GuardedTreeItems xs → GuardedTree (array xs)
      tree_null : GuardedTree null
      tree_boolean : {b : Bool} → GuardedTree (boolean b)
      tree_number : {n : Text} → GuardedTree (number n)
      tree_string : {s : Text} → GuardedTree (string s)

    pub data GuardedTreeFields : Fields → Type 0 where
      tree_end : GuardedTreeFields end
      tree_select :
          {k : Text} {v : Json} {fs : Fields}
          → k ≡ codes "SelectStmt"
          → GuardedSelect v
          → GuardedTreeFields fs
          → GuardedTreeFields (field k v fs)
      tree_field :
          {k : Text} {v : Json} {fs : Fields}
          → k ≢ codes "SelectStmt"
          → GuardedTree v
          → GuardedTreeFields fs
          → GuardedTreeFields (field k v fs)

    pub data GuardedTreeItems : Items → Type 0 where
      tree_nil : GuardedTreeItems nil
      tree_cons :
          {v : Json} {xs : Items}
          → GuardedTree v
          → GuardedTreeItems xs
          → GuardedTreeItems (cons v xs)
