-- ===== src/Session/Plugins/Columns.antt =====
-- A description of CREATE TABLE statements, and of those that `EnsureNewTableHasIdPlugIn` is to let
-- pass.
pub mod Inspection
pub mod Keys
pub mod Verdict
use pg_fort.Base.{◌≡◌, Bool, true, false, ◌&&◌, ◌||◌, List, [], ◌∷◌, Text, codes, text_eq, ok}
use pg_fort.Query.Json.{Json, null, string, object, Fields, at_key}
use pg_fort.Session.Plugins.Nodes.{Holds, At, AreListed}

-- An element of a CREATE TABLE statement: a column with the kinds of its constraints, a constraint
-- of the table with its kind and columns, or another.
pub data TableElement : Type 0 where
  column : Text → List Text → TableElement
  table_constraint : Text → List Text → TableElement
  other_element : TableElement

abbrev pub IsConstraint : Text → Json → Type 0
IsConstraint kind v = At (codes "Constraint" ∷ codes "contype" ∷ []) (string kind) v

abbrev pub IsName : Text → Json → Type 0
IsName name v = At (codes "String" ∷ codes "str" ∷ []) (string name) v

-- The node of an element, by the parts that the plugin reads. A missing key reads as null.
abbrev pub IsElement : TableElement → Json → Type 0
IsElement (column name kinds) v =
    (fs : Fields) × (def : Json) × (cs : Json) × (v ≡ object fs)
    × Holds (codes "ColumnDef") def (object fs)
    × Holds (codes "colname") (string name) def
    × (at_key (codes "constraints") def ≡ ok cs)
    × AreListed IsConstraint kinds cs
    × (at_key (codes "Constraint") (object fs) ≡ ok null)
IsElement (table_constraint kind names) v =
    (fs : Fields) × (cs : Fields) × (keys : Json) × (v ≡ object fs)
    × (at_key (codes "ColumnDef") (object fs) ≡ ok null)
    × (at_key (codes "Constraint") (object fs) ≡ ok (object cs))
    × Holds (codes "contype") (string kind) (object cs)
    × (at_key (codes "keys") (object cs) ≡ ok keys)
    × AreListed IsName names keys
IsElement other_element v =
    (fs : Fields) × (v ≡ object fs)
    × (at_key (codes "ColumnDef") (object fs) ≡ ok null)
    × (at_key (codes "Constraint") (object fs) ≡ ok null)

-- The node under "CreateStmt" of a table with these elements.
abbrev pub IsCreate : Text → List TableElement → Json → Type 0
IsCreate name es n =
    (r : Json) × (elts : Json) × Holds (codes "relation") r n
    × Holds (codes "relname") (string name) r
    × (at_key (codes "tableElts") n ≡ ok elts)
    × AreListed IsElement es elts

abbrev pub is_id : Text → Bool
is_id name = text_eq name (codes "id")

abbrev pub any_is : Text → List Text → Bool
any_is t [] = false
any_is t (u ∷ us) = text_eq u t || any_is t us

abbrev pub only_id : List Text → Bool
only_id (name ∷ []) = is_id name
only_id _ = false

-- The facts of interest about a table: it has a column `id`; some column `id` has a constraint of
-- the kind `t`; `id` alone is its primary key.
abbrev pub has_id : List TableElement → Bool
has_id [] = false
has_id (column name kinds ∷ es) = is_id name || has_id es
has_id (table_constraint kind names ∷ es) = has_id es
has_id (other_element ∷ es) = has_id es

abbrev pub id_has : Text → List TableElement → Bool
id_has t [] = false
id_has t (column name kinds ∷ es) = (is_id name && any_is t kinds) || id_has t es
id_has t (table_constraint kind names ∷ es) = id_has t es
id_has t (other_element ∷ es) = id_has t es

abbrev pub id_is_key : List TableElement → Bool
id_is_key [] = false
id_is_key (column name kinds ∷ es) = id_is_key es
id_is_key (table_constraint kind names ∷ es) =
    (text_eq kind (codes "CONSTR_PRIMARY") && only_id names) || id_is_key es
id_is_key (other_element ∷ es) = id_is_key es

-- A table is identified by `id` if that is its primary key, or not null and unique.
abbrev pub identifies : List TableElement → Bool
identifies es =
    id_has (codes "CONSTR_PRIMARY") es
    || id_is_key es
    || (id_has (codes "CONSTR_NOTNULL") es && id_has (codes "CONSTR_UNIQUE") es)
