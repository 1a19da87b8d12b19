-- ===== src/Session/Plugins/Columns/Inspection.antt =====
-- `EnsureNewTableHasIdPlugIn`: the flags that a column of the statement sets.
use pg_fort.Base.{
  ap, ◌∙◌, ◌≡◌, refl, true, false, ◌&&◌, ◌||◌, Bool-cases, inl, inr, List, [], ◌∷◌, Text, codes,
  text_eq, if◌then◌else◌, Result, ok,
}
use mathlib.Core.Bool.{or_assoc, or-false, or-true}
use pg_fort.Query.Json.{
  number, boolean, set_field, put_key, null, is_string, Json, array, object, Items, nil, cons,
  Fields, at_key, string,
}
use pg_fort.Query.Json.Access.{at_key-put_key}
use pg_fort.Session.Plugins.Nodes.{Holds, AreItems, AreListed}
use pg_fort.Session.Plugins.Tree.{for_all_items, for_items, at_path}
use pg_fort.Session.Plugins.Create.{
  Flags, no_flags, inspect_constraint, inspect_column, inspect_table_constraint, inspect_element,
}
use pg_fort.Session.Plugins.Columns.{
  TableElement, is_id, any_is, only_id, column, table_constraint, other_element, IsConstraint,
  IsElement,
}

abbrev pub join : Flags → Flags → Flags
join f g = record {
  have_id = f.have_id || g.have_id;
  not_null = f.not_null || g.not_null;
  unique = f.unique || g.unique;
  primary = f.primary || g.primary;
}

pub join_assoc : (f g h : Flags) → join (join f g) h ≡ join f (join g h)
join_assoc f g h =
    rw
      (
        or_assoc f.have_id g.have_id h.have_id,
        or_assoc f.not_null g.not_null h.not_null,
        or_assoc f.unique g.unique h.unique,
        or_assoc f.primary g.primary h.primary,
      )
      refl

pub join-no_flags : (f : Flags) → join f no_flags ≡ f
join-no_flags f =
    rw (or-false f.have_id, or-false f.not_null, or-false f.unique, or-false f.primary) refl

abbrev pub kind_flags : Text → Flags
kind_flags kind = record {
  have_id = false;
  not_null = text_eq kind (codes "CONSTR_NOTNULL");
  unique = text_eq kind (codes "CONSTR_UNIQUE");
  primary = text_eq kind (codes "CONSTR_PRIMARY");
}

abbrev pub kinds_flags : List Text → Flags
kinds_flags kinds = record {
  have_id = false;
  not_null = any_is (codes "CONSTR_NOTNULL") kinds;
  unique = any_is (codes "CONSTR_UNIQUE") kinds;
  primary = any_is (codes "CONSTR_PRIMARY") kinds;
}

pub for_all_items-cons :
    (visit : Json → Flags → Result (Flags × Json)) {v v' : Json} (xs : Items) {xs' : Items}
    {f g h : Flags}
    → visit v f ≡ ok (g, v')
    → for_all_items visit xs g ≡ ok (h, xs')
    → for_all_items visit (cons v xs) f ≡ ok (h, cons v' xs')
unfolding for_all_items
for_all_items-cons visit xs p q = rw (p, q)

-- What the inspection of a part leaves.
abbrev pub Inspected : (Json → Flags → Result (Flags × Json)) → Json → Flags → Flags → Type 0
Inspected visit j f g = (j' : Json) × (visit j f ≡ ok (g, j'))

inspect_constraint-kind :
    (kind : Text) (v : Json) (fl : Flags)
    → IsConstraint kind v
    → Inspected inspect_constraint v fl (join fl (kind_flags kind))
unfolding inspect_constraint at_path is_string
inspect_constraint-kind kind v fl (c, here, (t, kind_here, is_kind)) = (
  put_key (codes "Constraint") (put_key (codes "contype") (string kind) c) v,
  rw (here, kind_here, is_kind, or-false fl.have_id) refl,
)

constraint_items-flags :
    (kinds : List Text) (xs : Items) (fl : Flags)
    → AreItems IsConstraint kinds xs
    → (ys : Items) × (for_all_items inspect_constraint xs fl ≡ ok (join fl (kinds_flags kinds), ys))
unfolding for_all_items
constraint_items-flags [] nil fl h = (nil, rw (join-no_flags fl))
constraint_items-flags [] (cons v xs) fl h = absurd h
constraint_items-flags (kind ∷ kinds) nil fl h = absurd h
constraint_items-flags (kind ∷ kinds) (cons v xs) fl h =
    let (v', p) = inspect_constraint-kind kind v fl h.0 in
    let (ys, q) = constraint_items-flags kinds xs (join fl (kind_flags kind)) h.1 in
    (
      cons v' ys,
      for_all_items-cons inspect_constraint xs p
          (q ∙ ap (λ g. ok (g, ys)) (join_assoc fl (kind_flags kind) (kinds_flags kinds))),
    )

constraints-flags :
    (kinds : List Text) (cs : Json) (fl : Flags)
    → AreListed IsConstraint kinds cs
    → Inspected (for_items inspect_constraint) cs fl (join fl (kinds_flags kinds))
unfolding for_items
constraints-flags kinds (array xs) fl h =
    let (ys, p) = constraint_items-flags kinds xs fl h in (array ys, rw p refl)
constraints-flags [] null fl h = (null, rw (join-no_flags fl))
constraints-flags (kind ∷ kinds) null fl h = absurd h
constraints-flags kinds (boolean b) fl h = absurd h
constraints-flags kinds (number n) fl h = absurd h
constraints-flags kinds (string t) fl h = absurd h
constraints-flags kinds (object fs) fl h = absurd h

abbrev pub element_flags : TableElement → Flags
element_flags (column name kinds) =
    if is_id name then join (record no_flags { have_id = true }) (kinds_flags kinds) else no_flags
element_flags (table_constraint kind names) = record no_flags {
  primary = text_eq kind (codes "CONSTR_PRIMARY") && only_id names;
}
element_flags other_element = no_flags

-- A node that is an object without a constraint keeps the flags.
pub no_constraint :
    (v : Json) (fl : Flags)
    → at_key (codes "Constraint") v ≡ ok null
    → Inspected inspect_table_constraint v fl fl
unfolding inspect_table_constraint at_path is_string at_key
no_constraint v fl h =
    (put_key (codes "Constraint") (put_key (codes "contype") null null) v, rw h refl)

inspect_column-other :
    (name : Text) (v def : Json) (fl : Flags)
    → Holds (codes "ColumnDef") def v
    → Holds (codes "colname") (string name) def
    → is_id name ≡ false
    → inspect_column v fl ≡ ok (fl, v)
unfolding inspect_column at_path is_string
inspect_column-other name v def fl (d, same) (n, same') f = rw (d, n, same', same, f) refl

-- What a column `id` has become when its constraints have been looked at.
abbrev looked_at : Json → Json → Json → Json → Json
looked_at def cs cs' v =
    let read = put_key (codes "constraints") cs def in
    put_key (codes "ColumnDef") (put_key (codes "constraints") cs' read)
      (put_key (codes "ColumnDef") read v)

inspect_column-id :
    (name : Text) (kinds : List Text) (v def cs cs' : Json) (fl : Flags)
    → Holds (codes "ColumnDef") def v
    → Holds (codes "colname") (string name) def
    → at_key (codes "constraints") def ≡ ok cs
    → at_key
        (codes "ColumnDef")
        (put_key (codes "ColumnDef") (put_key (codes "constraints") cs def) v)
      ≡ ok (put_key (codes "constraints") cs def)
    → for_items inspect_constraint cs (record fl { have_id = true })
      ≡ ok (join (record fl { have_id = true }) (kinds_flags kinds), cs')
    → is_id name ≡ true
    → inspect_column v fl
      ≡ ok (join (record fl { have_id = true }) (kinds_flags kinds), looked_at def cs cs' v)
unfolding inspect_column at_path is_string
inspect_column-id name kinds v def cs cs' fl (d, same) (n, same') c again walked t =
    rw (d, n, same', same, t, d, c, walked, again) refl

looked_at-constraint :
    (def cs cs' : Json) (fs : Fields)
    → at_key (codes "Constraint") (object fs) ≡ ok null
    → at_key (codes "Constraint") (looked_at def cs cs' (object fs)) ≡ ok null
unfolding put_key text_eq
looked_at-constraint def cs cs' fs h =
    let read = put_key (codes "constraints") cs def in
    at_key-put_key (codes "ColumnDef") (codes "Constraint") (put_key (codes "constraints") cs' read)
      (set_field (codes "ColumnDef") read fs)
    ∙ at_key-put_key (codes "ColumnDef") (codes "Constraint") read fs
    ∙ h

pub column-flags :
    (name : Text) (kinds : List Text) (v : Json) (fl : Flags)
    → IsElement (column name kinds) v
    → Inspected inspect_element v fl (join fl (element_flags (column name kinds)))
unfolding inspect_element text_eq
column-flags name kinds v fl (fs, def, cs, is_object, d, n, c, listed, unconstrained) =
    rw is_object (elim (Bool-cases (is_id name)) [
      | inl t ↦
          let (cs', walked) = constraints-flags kinds cs (record fl { have_id = true }) listed in
          let (j, p) =
            no_constraint (looked_at def cs cs' (object fs))
              (join (record fl { have_id = true }) (kinds_flags kinds))
              (looked_at-constraint def cs cs' fs unconstrained) in
          let again =
            at_key-put_key (codes "ColumnDef") (codes "ColumnDef")
              (put_key (codes "constraints") cs def) fs in
          let visited =
            inspect_column-id name kinds (object fs) def cs cs' fl d n c again walked t in
          (j, rw (visited, t, p, or-true fl.have_id) refl)
      | inr f ↦
          let (j, p) = no_constraint (object fs) fl unconstrained in
          (j, rw (inspect_column-other name (object fs) def fl d n f, f, p, join-no_flags fl))
    ])
