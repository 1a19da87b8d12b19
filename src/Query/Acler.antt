-- ===== src/Query/Acler.antt =====
-- lib/query/query-acler.cpp and include/query/join_expr.tpl: the rewriting that joins every table of
-- a FROM clause with the view of its access lists. A pass that throws leaves no tree. An array's
-- items have decimal keys, which are none of the names that are tested.
pub mod Guarded
pub mod Frame
pub mod Skipped
pub mod Total
use pg_fort.Base.{
  ℕ, ◌≡◌, Bool, true, false, not, ◌&&◌, ◌||◌, List, [], ◌∷◌, ◌++◌, Option, none, some, Text, codes,
  text_eq, ltb, leb, ◌==◌, if◌then◌else◌, Result, ok, throw, json_error, ◌>>=◌,
}
use pg_fort.Schema.Tracker.{SchemaTracker, exist}
use pg_fort.Query.Json.{
  Json, null, boolean, number, string, array, object, Items, nil, cons, Fields, end, field, at_key,
  has_key, get_string,
}

-- A text that stands for itself between the quotes of a JSON text.
unfoldable pub is_plain : Text → Bool
is_plain [] = true
is_plain (c ∷ t) = leb 32 c && ltb c 127 && not (c == b'"') && not (c == 92) && is_plain t

abbrev pub one_field : Text → Json → Json
one_field k v = object (field k v end)

abbrev pub list_of : List Json → Items
list_of [] = nil
list_of (j ∷ js) = cons j (list_of js)

abbrev pub str : Text → Json
str s = one_field (codes "String") (one_field (codes "str") (string s))

abbrev pub column : Text → Text → Json
column table name =
    one_field (codes "ColumnRef")
      (one_field (codes "fields") (array (list_of (str table ∷ str name ∷ []))))

abbrev pub equals : Json → Json → Json
equals l r = one_field (codes "A_Expr") (
    object (
      field (codes "kind") (string (codes "AEXPR_OP")) (
        field (codes "lexpr") l (
          field (codes "name") (array (list_of (str (codes "=") ∷ [])))
            (field (codes "rexpr") r end)))))

abbrev pub current_user : Json
current_user = one_field (codes "SQLValueFunction") (
    object (
      field (codes "op") (string (codes "SVFOP_CURRENT_USER"))
        (field (codes "typmod") (number (codes "-1")) end)))

abbrev pub constant : Text → Json
constant s = one_field (codes "A_Const") (one_field (codes "val") (str s))

abbrev pub acls : Text → Text
acls t = t ++ codes "__acls__"

abbrev pub with_alias : Option Text → Fields → Fields
with_alias none fs = fs
with_alias (some a) fs = field (codes "alias") (one_field (codes "aliasname") (string a)) fs

abbrev pub range_var : Text → Option Text → Json
range_var name alias = one_field (codes "RangeVar") (
    object (
      with_alias alias (
        field (codes "inh") (boolean true) (
          field (codes "relname") (string name)
            (field (codes "relpersistence") (string (codes "p")) end)))))

-- How the columns of the table are referred to.
abbrev pub reference : Text → Option Text → Text
reference name none = name
reference name (some a) = a

abbrev pub acls_alias : Option Text → Option Text
acls_alias none = none
acls_alias (some a) = some (acls a)

abbrev pub acl_quals : Text → Text → Json
acl_quals ref operation = one_field (codes "BoolExpr") (
    object (
      field (codes "args")
        (array (
          list_of (
            equals (column ref (codes "id")) (column (acls ref) (codes "_id"))
            ∷ equals (column (acls ref) (codes "_principal")) current_user
            ∷ equals (column (acls ref) (codes "_operation")) (constant operation)
            ∷ [])))
        (field (codes "boolop") (string (codes "AND_EXPR")) end)))

-- The value of the template join_expr.tpl for a table and its alias.
unfoldable pub join_expr : Text → Option Text → Json
join_expr name alias = one_field (codes "JoinExpr") (
    object (
      field (codes "jointype") (string (codes "JOIN_INNER")) (
        field (codes "larg") (range_var name alias) (
          field (codes "quals") (acl_quals (reference name alias) (codes "SELECT"))
            (field (codes "rarg") (range_var (acls name) (acls_alias alias)) end)))))

abbrev pub plain_alias : Option Text → Bool
plain_alias none = true
plain_alias (some a) = is_plain a

-- `st_ == nullptr || !st_->Exist(relname)`, the other way round.
unfoldable pub is_tracked : Option SchemaTracker → Text → Bool
is_tracked none t = false
is_tracked (some st) t = exist t st

unfoldable pub relname_of : Json → Result Text
relname_of v = do r ← at_key (codes "relname") v; get_string r

-- The alias of a table, if it has one.
unfoldable pub alias_of : Json → Result (Option Text)
alias_of v =
    if has_key (codes "alias") v
    then (do
      a ← at_key (codes "alias") v
      n ← at_key (codes "aliasname") a
      s ← get_string n
      ok (some s))
    else ok none

-- What a FROM clause's object becomes: itself with new fields, or another value in its place.
pub data Pass : Type 0 where
  kept : Fields → Pass
  replaced : Json → Pass

abbrev pub on_kept : (Fields → Fields) → Pass → Pass
on_kept f (kept fs) = kept (f fs)
on_kept f (replaced j) = replaced j

abbrev pub to_json : Pass → Json
to_json (kept fs) = object fs
to_json (replaced j) = j

-- The clauses of a SELECT that are left as they are, for now.
unfoldable pub is_left_alone : Text → Bool
is_left_alone k =
    text_eq k (codes "intoClause")
    || text_eq k (codes "whereClause")
    || text_eq k (codes "targetList")

-- The template's file: none if it cannot be read at its absolute path, or what `json::parse` makes of
-- the expanded template when a name in it does not stand for itself.
abbrev pub Template : Type 0
Template = Option (Text → Option Text → Result Json)

-- What `json::parse` makes of the expanded template. Of a file that is not read the text is empty.
unfoldable pub parse_template : Template → Text → Option Text → Result Json
unfolding join_expr is_plain
parse_template none name alias = throw json_error
parse_template (some parse_other) name alias =
    if is_plain name && plain_alias alias then ok (join_expr name alias) else parse_other name alias

module _ (template : Template) (st : Option SchemaTracker) where
  -- `ExpandTemplate` and `json::parse`
  unfoldable pub expand : Text → Option Text → Result Json
  unfolding parse_template
  expand name alias = parse_template template name alias

  -- The case `k == "RangeVar"`: `none` is `continue`.
  unfoldable pub acl_range_var : Json → Result (Option Json)
  acl_range_var v = do
    relname ← relname_of v
    (if is_tracked st relname
        then (do alias ← alias_of v; j ← expand relname alias; ok (some j))
        else ok none)

  unfoldable mutual
    -- `QueryAcler::AclSelectStmtFromClause`, over an object's fields in turn.
    pub acl_from_fields : Fields → Result Pass
    acl_from_fields end = ok (kept end)
    acl_from_fields (field k v fs) = elim (text_eq k (codes "RangeVar")) [
      | true ↦ (do
        r ← acl_range_var v
        elim r [
          | some j ↦ ok (replaced j)
          | none ↦ (do p ← acl_from_fields fs; ok (on_kept (field k v) p))
        ])
      | false ↦ (do
        v' ← elim (text_eq k (codes "SelectStmt")) [ true ↦ acl_select v | false ↦ acl_from v ]
        p ← acl_from_fields fs
        ok (on_kept (field k v') p))
    ]

    pub acl_from_items : Items → Result Items
    acl_from_items nil = ok nil
    acl_from_items (cons v xs) = do v' ← acl_from v; xs' ← acl_from_items xs; ok (cons v' xs')

    pub acl_from : Json → Result Json
    acl_from (object fs) = do p ← acl_from_fields fs; ok (to_json p)
    acl_from (array xs) = do xs' ← acl_from_items xs; ok (array xs')
    acl_from null = ok null
    acl_from (boolean b) = ok (boolean b)
    acl_from (number n) = ok (number n)
    acl_from (string s) = ok (string s)

    -- `QueryAcler::AclSelectStmt`
    pub acl_select_fields : Fields → Result Fields
    acl_select_fields end = ok end
    acl_select_fields (field k v fs) = do
      v' ← elim (text_eq k (codes "fromClause")) [
        | true ↦ acl_from v
        | false ↦ elim (is_left_alone k) [ true ↦ ok v | false ↦ acl_select v ]
      ]
      fs' ← acl_select_fields fs
      ok (field k v' fs')

    pub acl_select_items : Items → Result Items
    acl_select_items nil = ok nil
    acl_select_items (cons v xs) = do v' ← acl_select v; xs' ← acl_select_items xs; ok (cons v' xs')

    pub acl_select : Json → Result Json
    acl_select (object fs) = do fs' ← acl_select_fields fs; ok (object fs')
    acl_select (array xs) = do xs' ← acl_select_items xs; ok (array xs')
    acl_select null = ok null
    acl_select (boolean b) = ok (boolean b)
    acl_select (number n) = ok (number n)
    acl_select (string s) = ok (string s)

  unfoldable mutual
    -- `QueryAcler::Acl`
    pub acl_fields : Fields → Result Fields
    acl_fields end = ok end
    acl_fields (field k v fs) = do
      v' ← elim (text_eq k (codes "SelectStmt")) [ true ↦ acl_select v | false ↦ acl v ]
      fs' ← acl_fields fs
      ok (field k v' fs')

    pub acl_items : Items → Result Items
    acl_items nil = ok nil
    acl_items (cons v xs) = do v' ← acl v; xs' ← acl_items xs; ok (cons v' xs')

    pub acl : Json → Result Json
    acl (object fs) = do fs' ← acl_fields fs; ok (object fs')
    acl (array xs) = do xs' ← acl_items xs; ok (array xs')
    acl null = ok null
    acl (boolean b) = ok (boolean b)
    acl (number n) = ok (number n)
    acl (string s) = ok (string s)
