-- ===== src/Tests/Query.antt =====
-- Runs of the JSON access and of the rewriting at concrete inputs.
use pg_fort.Base.{
  ◌≡◌, refl, [], ◌∷◌, Option, none, some, Text, codes, text_eq, ends_with, Result, ok, throw,
  sql_error, if◌then◌else◌,
}
use pg_fort.Schema.Tracker.{is_excluded, is_internal, SchemaTracker, exist, mem}
use pg_fort.Query.Json.{
  get_string, has_key, Json, string, array, object, nil, cons, Fields, end, field, get_field,
  at_key, put_key, find_node,
}
use pg_fort.Query.Json.Access.{at_key-put_key}
use pg_fort.Base.Dict.{lookup}
use pg_fort.Query.Json.Find.{IsPlace}
use pg_fort.Query.Json.First.{entries, node_of, find_node-first}
use pg_fort.Query.Acler.{Template}
use pg_fort.Query.Acler.{
  acl_select, acl_range_var, expand, acl, acl_select_fields, join_expr, is_left_alone, is_plain,
  relname_of, alias_of, is_tracked,
}
use pg_fort.Query.Acler.Guarded.{GuardedTree}
use pg_fort.Query.Acler.Guarded.Tree.{acl-Guarded}
use pg_fort.Query.Acler.Frame.{EveryTable, IsFree, acl-free}
use pg_fort.Query.Acler.Skipped.{acl_select_fields-skipped}

abbrev pub no_parse_other : Text → Option Text → Result Json
no_parse_other t a = throw sql_error

abbrev pub no_parse : Template
no_parse = some no_parse_other

abbrev pub one_table : SchemaTracker
one_table = record { relnames = codes "films" ∷ [] }

abbrev table : Text → Json
table t = object (field (codes "RangeVar") (object (field (codes "relname") (string t) end)) end)

abbrev select_fields : Json → Fields
select_fields from =
    field (codes "fromClause") (array (cons from nil))
      (field (codes "whereClause") (array (cons (table (codes "films")) nil)) end)

-- SELECT … FROM …, as the parser gives it.
abbrev pub select_from : Json → Json
select_from from = object (field (codes "SelectStmt") (object (select_fields from)) end)

abbrev pub from_films : Json
from_films = select_from (table (codes "films"))

abbrev pub films_joined : Json
films_joined = select_from (join_expr (codes "films") none)

pub from_films-acl : acl no_parse (some one_table) from_films ≡ ok films_joined
unfolding acl acl_select acl_select_fields acl_range_var expand exist mem is_excluded is_internal
    text_eq is_plain get_field join_expr ends_with relname_of alias_of at_key get_string has_key
    is_tracked is_left_alone
from_films-acl = refl

acl-Guarded_example : GuardedTree no_parse (some one_table) films_joined
acl-Guarded_example = acl-Guarded no_parse (some one_table) from_films from_films-acl

at_key-put_key_example :
    at_key (codes "a") (put_key (codes "b") (string []) (object end))
    ≡ (if text_eq (codes "b") (codes "a") then ok (string []) else at_key (codes "a") (object end))
at_key-put_key_example = at_key-put_key (codes "b") (codes "a") (string []) end

find_node-first_example :
    (node_of (find_node (codes "RangeVar") from_films)
      ≡ lookup (codes "RangeVar") (entries from_films))
    × IsPlace (find_node (codes "RangeVar")) from_films (find_node (codes "RangeVar") from_films)
find_node-first_example = find_node-first (codes "RangeVar") from_films

from_films-every :
    (P : Json → Type 0)
    → P (object (field (codes "relname") (string (codes "films")) end))
    → EveryTable P from_films
unfolding text_eq
from_films-every P p =
    let leaf : EveryTable P (table (codes "films")) = (λ _. p, (λ h. cc, tt, tt), tt) in
    (λ h. cc, (λ h. cc, (leaf, tt), (λ h. cc, (leaf, tt), tt)), tt)

films-IsFree : EveryTable (IsFree no_parse none) from_films
unfolding relname_of at_key get_field get_string is_tracked text_eq
films-IsFree = from_films-every (IsFree no_parse none) (codes "films", refl, refl)

acl-free_example : acl no_parse none from_films ≡ ok from_films
acl-free_example = acl-free no_parse none from_films films-IsFree

select_films :
    acl_select_fields no_parse (some one_table) (select_fields (table (codes "films")))
    ≡ ok (select_fields (join_expr (codes "films") none))
unfolding acl acl_select acl_select_fields acl_range_var expand exist mem is_excluded is_internal
    text_eq is_plain get_field join_expr ends_with relname_of alias_of at_key get_string has_key
    is_tracked is_left_alone
select_films = refl

acl_select_fields-skipped_example :
    (get_field (codes "intoClause") (select_fields (join_expr (codes "films") none))
      ≡ get_field (codes "intoClause") (select_fields (table (codes "films"))))
    × (get_field (codes "whereClause") (select_fields (join_expr (codes "films") none))
        ≡ get_field (codes "whereClause") (select_fields (table (codes "films"))))
    × (get_field (codes "targetList") (select_fields (join_expr (codes "films") none))
        ≡ get_field (codes "targetList") (select_fields (table (codes "films"))))
acl_select_fields-skipped_example =
    acl_select_fields-skipped no_parse (some one_table) (select_fields (table (codes "films")))
      select_films
