-- ===== src/Session/Plugins/Columns/Keys.antt =====
-- `EnsureNewTableHasIdPlugIn`: the flags that a constraint of the table sets.
use pg_fort.Base.{
  ◌∙◌, ◌≡◌, refl, ◌&&◌, ◌||◌, Bool-cases, inl, inr, List, [], ◌∷◌, Text, codes, text_eq, arith, ok,
}
use mathlib.Core.Bool.{or-false}
use pg_fort.Query.Json.{
  number, boolean, set_field, put_key, null, is_string, Json, array, object, nil, cons, Fields,
  at_key, string,
}
use pg_fort.Query.Json.Access.{at_key-put_key}
use pg_fort.Session.Plugins.Nodes.{Holds, AreListed}
use pg_fort.Session.Plugins.Tree.{at_index, size_of, at_path}
use pg_fort.Session.Plugins.Create.{
  inspect_keys, Flags, inspect_column, inspect_table_constraint, inspect_element,
}
use pg_fort.Session.Plugins.Columns.{only_id, table_constraint, other_element, IsName, IsElement}
use pg_fort.Session.Plugins.Columns.Inspection.{
  join, join-no_flags, Inspected, element_flags, no_constraint,
}

name-is_id :
    (name : Text) (v : Json)
    → IsName name v
    → (w : Json) × (at_path (codes "String") (codes "str") v ≡ ok (string name, w))
unfolding at_path
name-is_id name v (c, here, (t, name_here, is_name)) = (
  put_key (codes "String") (put_key (codes "str") (string name) c) v,
  rw (here, name_here, is_name) refl,
)

key-flags :
    (names : List Text) (keys : Json) (fl : Flags)
    → AreListed IsName names keys
    → inspect_keys keys fl ≡ ok (record fl { primary = fl.primary || only_id names })
unfolding inspect_keys is_string size_of at_index
key-flags [] null fl h = rw (or-false fl.primary) refl
key-flags [] (array nil) fl h = rw (or-false fl.primary) refl
key-flags (name ∷ []) (array (cons v nil)) fl h = let (w, p) = name-is_id name v h.0 in rw p refl
key-flags (name ∷ name' ∷ names) (array (cons v (cons v' xs))) fl h =
    rw (or-false fl.primary) (ground arith)
key-flags [] (array (cons v xs)) fl h = absurd h
key-flags (name ∷ names) (array nil) fl h = absurd h
key-flags (name ∷ []) (array (cons v (cons v' xs))) fl h = absurd h.1
key-flags (name ∷ name' ∷ names) (array (cons v nil)) fl h = absurd h.1
key-flags (name ∷ names) null fl h = absurd h
key-flags names (boolean b) fl h = absurd h
key-flags names (number n) fl h = absurd h
key-flags names (string t) fl h = absurd h
key-flags names (object fs) fl h = absurd h

-- The null that the test for a column inserts.
abbrev seen : Fields → Fields
seen fs = set_field (codes "ColumnDef") (put_key (codes "colname") null null) fs

no_column :
    (v : Json) (fl : Flags)
    → at_key (codes "ColumnDef") v ≡ ok null
    → inspect_column v fl
      ≡ ok (fl, put_key (codes "ColumnDef") (put_key (codes "colname") null null) v)
unfolding inspect_column at_path is_string at_key
no_column v fl h = rw h refl

seen-constraint :
    (fs : Fields) (c : Json)
    → at_key (codes "Constraint") (object fs) ≡ ok c
    → at_key (codes "Constraint") (object (seen fs)) ≡ ok c
unfolding put_key text_eq
seen-constraint fs c h =
    at_key-put_key (codes "ColumnDef") (codes "Constraint") (put_key (codes "colname") null null) fs
    ∙ h

constraint-flags :
    (kind : Text) (names : List Text) (v c keys : Json) (fl : Flags)
    → at_key (codes "Constraint") v ≡ ok c
    → Holds (codes "contype") (string kind) c
    → at_key (codes "keys") c ≡ ok keys
    → AreListed IsName names keys
    → at_key (codes "Constraint") (put_key (codes "Constraint") c v) ≡ ok c
    → Inspected inspect_table_constraint v fl (record fl {
      primary = fl.primary || text_eq kind (codes "CONSTR_PRIMARY") && only_id names;
    })
unfolding inspect_table_constraint at_path is_string
constraint-flags kind names v c keys fl here (k, same) keyed listed again =
    elim (Bool-cases (text_eq kind (codes "CONSTR_PRIMARY"))) [
      | inl t ↦ (
        put_key (codes "Constraint") (put_key (codes "keys") keys c)
            (put_key (codes "Constraint") c v),
        rw (here, k, same, t, again, keyed, key-flags names keys fl listed) refl,
      )
      | inr f ↦ (put_key (codes "Constraint") c v, rw (here, k, same, f, or-false fl.primary) refl)
    ]

pub table_constraint-flags :
    (kind : Text) (names : List Text) (v : Json) (fl : Flags)
    → IsElement (table_constraint kind names) v
    → Inspected inspect_element v fl (join fl (element_flags (table_constraint kind names)))
unfolding inspect_element put_key text_eq
table_constraint-flags kind names v fl (fs, cs, keys, is_object, no_def, c, k, keyed, listed) =
    let (j, p) =
      constraint-flags kind names (object (seen fs)) (object cs) keys fl
        (seen-constraint fs (object cs) c) k keyed listed
        (at_key-put_key (codes "Constraint") (codes "Constraint") (object cs) (seen fs)) in
    rw is_object (
      j,
      rw
          (
            no_column (object fs) fl no_def,
            p,
            or-false fl.have_id,
            or-false fl.not_null,
            or-false fl.unique,
          )
          refl,
    )

pub other_element-flags :
    (v : Json) (fl : Flags)
    → IsElement other_element v
    → Inspected inspect_element v fl (join fl (element_flags other_element))
unfolding inspect_element put_key text_eq
other_element-flags v fl (fs, is_object, no_def, unconstrained) =
    let (j, p) = no_constraint (object (seen fs)) fl (seen-constraint fs null unconstrained) in
    rw is_object (j, rw (no_column (object fs) fl no_def, p, join-no_flags fl) refl)
