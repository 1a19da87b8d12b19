-- ===== src/Session/Plugins/Create.antt =====
-- `EnsureNewTableHasIdPlugIn`.
use pg_fort.Base.{
  Bool, true, false, not, ◌&&◌, ◌||◌, [], ◌∷◌, Option, none, some, Text, codes, ends_with, ◌==◌,
  if◌then◌else◌, Result, ok, throw, ◌>>=◌,
}
use pg_fort.Common.{source_file, Error, no_error}
use pg_fort.Query.Json.{Json, at_key, put_key, get_string, is_string, find_node, Pointer}
use pg_fort.Session.{Session, World, Ran, done, thrown, with_query}
use pg_fort.Session.Plugins.Tree.{at_index, at_path, for_items, size_of}

pub record Flags : Type 0 where
  pub have_id : Bool
  pub not_null : Bool
  pub unique : Bool
  pub primary : Bool

abbrev pub no_flags : Flags
no_flags = record { have_id = false; not_null = false; unique = false; primary = false }

-- A constraint of the column `id`.
unfoldable pub inspect_constraint : Json → Flags → Result (Flags × Json)
unfolding at_path
inspect_constraint cstr fl = do
  (contype, cstr') ← at_path (codes "Constraint") (codes "contype") cstr
  ok (
    record fl {
      not_null = fl.not_null || is_string (codes "CONSTR_NOTNULL") contype;
      unique = fl.unique || is_string (codes "CONSTR_UNIQUE") contype;
      primary = fl.primary || is_string (codes "CONSTR_PRIMARY") contype;
    },
    cstr',
  )

-- The checks on a column: `elt["ColumnDef"]`.
unfoldable pub inspect_column : Json → Flags → Result (Flags × Json)
unfolding at_path for_items inspect_constraint
inspect_column elt fl = do
  (colname, elt1) ← at_path (codes "ColumnDef") (codes "colname") elt
  let rest : Result (Flags × Json) = (do
    (constraints, elt2) ← at_path (codes "ColumnDef") (codes "constraints") elt1
    (fl', constraints') ← for_items inspect_constraint constraints (record fl { have_id = true })
    def ← at_key (codes "ColumnDef") elt2
    ok (fl', put_key (codes "ColumnDef") (put_key (codes "constraints") constraints' def) elt2))
  (if is_string (codes "id") colname then rest else ok (fl, elt1))

-- `keys.size() == 1` and `keys[0]["String"]["str"] == "id"`, on a copy of the keys.
unfoldable pub inspect_keys : Json → Flags → Result Flags
unfolding at_index at_path size_of
inspect_keys keys fl =
    if size_of keys == 1
    then (do
      first ← at_index 0 keys
      (name, first') ← at_path (codes "String") (codes "str") first
      ok (record fl { primary = fl.primary || is_string (codes "id") name }))
    else ok fl

-- The checks on a table constraint: `elt["Constraint"]`.
unfoldable pub inspect_table_constraint : Json → Flags → Result (Flags × Json)
unfolding at_path inspect_keys
inspect_table_constraint elt fl = do
  (contype, elt1) ← at_path (codes "Constraint") (codes "contype") elt
  let rest : Result (Flags × Json) = (do
    (keys, elt2) ← at_path (codes "Constraint") (codes "keys") elt1
    fl' ← inspect_keys keys fl
    ok (fl', elt2))
  (if is_string (codes "CONSTR_PRIMARY") contype then rest else ok (fl, elt1))

-- The body of the loop over `tableElts`.
unfoldable pub inspect_element : Json → Flags → Result (Flags × Json)
unfolding inspect_column inspect_table_constraint
inspect_element elt fl = do (fl', elt') ← inspect_column elt fl; inspect_table_constraint elt' fl'

-- The two refusals.
abbrev pub refusal : Text → Text → Error
refusal msg line =
    (codes "S", codes "ERROR")
    ∷ (codes "C", codes "42P16")
    ∷ (codes "M", msg)
    ∷ (codes "F", source_file (codes "session/plugin.cpp"))
    ∷ (codes "L", line)
    ∷ (codes "R", codes "EnsureNewTableHasIdPlugIn")
    ∷ []

abbrev pub missing_id : Error
missing_id = refusal (codes "column \"id\" missing") (codes "272")

abbrev pub weak_id : Error
weak_id = refusal (codes "column \"id\" is neither PRIMARY nor NOT NULL UNIQUE") (codes "286")

unfoldable pub judge : Flags → Error
judge fl =
    if not fl.have_id
    then missing_id
    else if not fl.primary && not (fl.not_null && fl.unique)
    then weak_id
    else no_error

-- What the inspection of the node `n` finds, with what the node has become.
unfoldable pub check_columns : Json → Result (Error × Json)
unfolding inspect_element for_items at_path judge
check_columns n = do
  (name, n1) ← at_path (codes "relation") (codes "relname") n
  table_name ← get_string name
  let rest : Result (Error × Json) = (do
    elts ← at_key (codes "tableElts") n1
    (fl, elts') ← for_items inspect_element elts no_flags
    ok (judge fl, put_key (codes "tableElts") elts' n1))
  (if ends_with table_name (codes "__access_bindings__") then ok (no_error, n1) else rest)

on_checked : Session → (Json → Json) → Result (Error × Json) → Ran
on_checked s put (throw e) = thrown s e
on_checked s put (ok (err, n)) = done (with_query s (record { valid = true; json = put n })) err

unfoldable pub on_create : Session → Option (Pointer Json) → Ran
unfolding on_checked check_columns
on_create s none = done s no_error
on_create s (some (n, put)) = on_checked s put (check_columns n)

unfoldable pub ensure_new_table_has_id : World → Session → Ran
unfolding on_create
ensure_new_table_has_id w s =
    if s.context.query.valid
    then on_create s (find_node (codes "CreateStmt") s.context.query.json)
    else done s no_error
