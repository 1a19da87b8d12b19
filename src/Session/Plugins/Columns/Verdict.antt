-- ===== src/Session/Plugins/Columns/Verdict.antt =====
-- `EnsureNewTableHasIdPlugIn` decides as the description says.
use pg_fort.Base.{
  ◌≡◌, refl, ◌∙◌, ap, Bool, true, false, not, ◌&&◌, ◌||◌, Bool-cases, inl, inr, List, [], ◌∷◌, Text,
  codes, text_eq, ends_with, arith, if◌then◌else◌, ok,
}
use mathlib.Core.Bool.{or_assoc}
use pg_fort.Common.{no_error}
use pg_fort.Query.Json.{
  get_string, put_key, Json, null, boolean, number, string, array, object, Items, nil, cons,
}
use pg_fort.Session.Plugins.Tree.{for_all_items, for_items, at_path}
use pg_fort.Session.Plugins.Nodes.{AreItems, AreListed}
use pg_fort.Session.Plugins.Create.{
  judge, Flags, no_flags, inspect_element, missing_id, weak_id, check_columns,
}
use pg_fort.Session.Plugins.Columns.{
  TableElement, is_id, any_is, only_id, has_id, id_has, id_is_key, identifies, column,
  table_constraint, other_element, IsElement, IsCreate,
}
use pg_fort.Session.Plugins.Columns.Keys.{table_constraint-flags, other_element-flags}
use pg_fort.Session.Plugins.Columns.Inspection.{
  join, join_assoc, join-no_flags, for_all_items-cons, element_flags, Inspected, column-flags,
}

or_left_comm : (a b c : Bool) → (a || (b || c)) ≡ (b || (a || c))
or_left_comm true true c = refl
or_left_comm true false c = refl
or_left_comm false b c = refl

abbrev elements_flags : List TableElement → Flags
elements_flags es = record {
  have_id = has_id es;
  not_null = id_has (codes "CONSTR_NOTNULL") es;
  unique = id_has (codes "CONSTR_UNIQUE") es;
  primary = id_has (codes "CONSTR_PRIMARY") es || id_is_key es;
}

element-flags :
    (e : TableElement) (v : Json) (fl : Flags)
    → IsElement e v
    → Inspected inspect_element v fl (join fl (element_flags e))
element-flags (column name kinds) v fl h = column-flags name kinds v fl h
element-flags (table_constraint kind names) v fl h = table_constraint-flags kind names v fl h
element-flags other_element v fl h = other_element-flags v fl h

elements_flags-cons :
    (e : TableElement) (es : List TableElement)
    → join (element_flags e) (elements_flags es) ≡ elements_flags (e ∷ es)
elements_flags-cons (column name kinds) es = elim (Bool-cases (is_id name)) [
  | inl t ↦ rw (t, or_assoc (any_is (codes "CONSTR_PRIMARY") kinds)) refl
  | inr f ↦ rw f refl
]
elements_flags-cons (table_constraint kind names) es =
    rw
      (or_left_comm (text_eq kind (codes "CONSTR_PRIMARY") && only_id names)
        (id_has (codes "CONSTR_PRIMARY") es) (id_is_key es))
      refl
elements_flags-cons other_element es = refl

element_items-flags :
    (es : List TableElement) (xs : Items) (fl : Flags)
    → AreItems IsElement es xs
    → (ys : Items) × (for_all_items inspect_element xs fl ≡ ok (join fl (elements_flags es), ys))
unfolding for_all_items
element_items-flags [] nil fl h = (nil, rw (join-no_flags fl))
element_items-flags [] (cons v xs) fl h = absurd h
element_items-flags (e ∷ es) nil fl h = absurd h
element_items-flags (e ∷ es) (cons v xs) fl h =
    let (v', p) = element-flags e v fl h.0 in
    let (ys, q) = element_items-flags es xs (join fl (element_flags e)) h.1 in
    (
      cons v' ys,
      for_all_items-cons inspect_element xs p (
          q
          ∙ ap (λ g. ok (g, ys))
              (join_assoc fl (element_flags e) (elements_flags es)
                ∙ ap (join fl) (elements_flags-cons e es))),
    )

elements-flags :
    (es : List TableElement) (elts : Json)
    → AreListed IsElement es elts
    → Inspected (for_items inspect_element) elts no_flags (elements_flags es)
unfolding for_items
elements-flags es (array xs) h =
    let (ys, p) = element_items-flags es xs no_flags h in (array ys, rw p refl)
elements-flags [] null h = (null, refl)
elements-flags (e ∷ es) null h = absurd h
elements-flags es (boolean b) h = absurd h
elements-flags es (number n) h = absurd h
elements-flags es (string t) h = absurd h
elements-flags es (object fs) h = absurd h

judge-elements :
    (es : List TableElement)
    → judge (elements_flags es)
      ≡ (if not (has_id es) then missing_id else if not (identifies es) then weak_id else no_error)
unfolding judge
judge-elements es = ground arith

-- A CREATE TABLE statement is let pass exactly if it has a column `id` and that identifies its rows:
-- it alone is the primary key, by a constraint of the column or of the table, or the constraints of
-- the columns `id` have both NOT NULL and UNIQUE. What it lacks decides on the error. The node of the
-- statement may hold whatever else a parser puts there; the tables of access bindings are not looked
-- at.
pub check_columns_lem :
    (name : Text) (es : List TableElement) (n : Json)
    → IsCreate name es n
    → (n' : Json) × (check_columns n
        ≡ ok (
          (if ends_with name (codes "__access_bindings__")
              then no_error
              else if not (has_id es)
              then missing_id
              else if not (identifies es)
              then weak_id
              else no_error),
          n',
        ))
unfolding check_columns at_path get_string
check_columns_lem name es n (r, elts, (related, same), (named, same'), listed, h) =
    elim (Bool-cases (ends_with name (codes "__access_bindings__"))) [
      | inl t ↦ (n, rw (related, named, same', same, t) refl)
      | inr f ↦
          let (elts', walked) = elements-flags es elts h in
          (
            put_key (codes "tableElts") elts' n,
            rw (related, named, same', same, f, listed, walked, ← judge-elements es) refl,
          )
    ]
