-- ===== src/Tests/Plugins.antt =====
-- Runs of the plugins at concrete inputs.
use pg_fort.Base.{
  decimal, text_ltb, inr, ◌≡◌, refl, true, not, ◌&&◌, ◌||◌, List, [], ◌∷◌, none, some, Text, codes,
  text_eq, ok, throw, sql_error, if◌then◌else◌, ends_with,
}
use pg_fort.Common.{no_error}
use pg_fort.Conn.Buffer.{count, eof, Buffer}
use pg_fort.Schema.Tracker.{SchemaTracker, new_tracker, exist}
use pg_fort.Schema.Tracker.Names.{trackable}
use pg_fort.Query.Json.{
  Json, object, number, end, find_node, at_key, put_key, get_field, set_field, has_key, get_string,
}
use pg_fort.Query.Statement.{parsed}
use pg_fort.Session.{Session, World, new_context, done}
use pg_fort.Session.Plugins.Drop.{drop_table, drop_name}
use pg_fort.Session.Plugins.Tree.{at_index}
use pg_fort.Tests.Trees.{
  arr, obj, id_column, id_column_constraints, name_column, name_column_constraints, tags_column,
  tags_column_constraints, relation_xxx, create_xxx, drop_objects, drop_xxx, role_args, set_role,
}
use pg_fort.Session.Plugins.Drop.Outcome.{Cascaded, drop_table-cascade}
use pg_fort.Schema.Tracker.{emplace, mem, is_excluded, is_internal}
use pg_fort.Query.Json.{string}
use pg_fort.Session.Plugins.Columns.{TableElement, column, has_id, identifies, IsElement, IsCreate}
use pg_fort.Session.Plugins.Columns.Verdict.{check_columns_lem}
use pg_fort.Session.Plugins.Create.{check_columns, missing_id, weak_id}
use pg_fort.Session.Plugins.Update.{update_schema, update_parameters}
use pg_fort.Session.Plugins.Update.Tracking.{completed, update_schema_lem}
use pg_fort.Session.Plugins.Update.Roles.{RoleSet, update_parameters_lem}
use pg_fort.Session.Plugins.Rewrite.{first_byte}

-- A world in which the server and the client are silent and nothing is parsed.
abbrev pub quiet : World
quiet = record {
  cl_in = record { pending = []; ending = eof };
  sv_in = record { pending = []; ending = eof };
  cl_send = λ t. count 0;
  sv_send = λ t. count 0;
  os_errno = 0;
  parser = λ t. parsed (object end);
  deparse = λ j. none;
  acquired = true;
  exec_rolsuper = λ t. ok (codes "f");
  exec_test = λ t. none;
  template = some (λ t a. throw sql_error);
  what = λ e. codes "error";
}

abbrev xxx_elements : List TableElement
xxx_elements =
    column (codes "id") (codes "CONSTR_PRIMARY" ∷ [])
    ∷ column (codes "name") (codes "CONSTR_NOTNULL" ∷ [])
    ∷ column (codes "tags") (codes "CONSTR_NOTNULL" ∷ [])
    ∷ []

id_column-IsElement :
    IsElement
      (column (codes "id") (codes "CONSTR_PRIMARY" ∷ []))
      (obj ((codes "ColumnDef", id_column) ∷ []))
unfolding at_key put_key set_field get_field text_eq text_ltb
id_column-IsElement = (
  _,
  id_column,
  id_column_constraints,
  refl,
  (refl, refl),
  (refl, refl),
  refl,
  ((_, refl, (_, refl, refl)), tt),
  refl,
)

name_column-IsElement :
    IsElement
      (column (codes "name") (codes "CONSTR_NOTNULL" ∷ []))
      (obj ((codes "ColumnDef", name_column) ∷ []))
unfolding at_key put_key set_field get_field text_eq text_ltb
name_column-IsElement = (
  _,
  name_column,
  name_column_constraints,
  refl,
  (refl, refl),
  (refl, refl),
  refl,
  ((_, refl, (_, refl, refl)), tt),
  refl,
)

tags_column-IsElement :
    IsElement
      (column (codes "tags") (codes "CONSTR_NOTNULL" ∷ []))
      (obj ((codes "ColumnDef", tags_column) ∷ []))
unfolding at_key put_key set_field get_field text_eq text_ltb
tags_column-IsElement = (
  _,
  tags_column,
  tags_column_constraints,
  refl,
  (refl, refl),
  (refl, refl),
  refl,
  ((_, refl, (_, refl, refl)), tt),
  refl,
)

create_xxx-IsCreate : IsCreate (codes "xxx") xxx_elements create_xxx
unfolding at_key put_key set_field get_field text_eq text_ltb
create_xxx-IsCreate = (
  relation_xxx,
  _,
  (refl, refl),
  (refl, refl),
  refl,
  (id_column-IsElement, (name_column-IsElement, (tags_column-IsElement, tt))),
)

check_columns_lem_example :
    (n : Json) × (check_columns create_xxx
      ≡ ok (
        (if ends_with (codes "xxx") (codes "__access_bindings__")
            then no_error
            else if not (has_id xxx_elements)
            then missing_id
            else if not (identifies xxx_elements)
            then weak_id
            else no_error),
        n,
      ))
check_columns_lem_example =
    check_columns_lem (codes "xxx") xxx_elements create_xxx create_xxx-IsCreate

abbrev films_tracker : SchemaTracker
films_tracker = new_tracker (some (codes "yyy" ∷ []))

abbrev response_c : Buffer
response_c = record { buf = codes "C"; data_size = 1; buf_size = 0 }

abbrev session_of : Json → Session
session_of j = record {
  parameters = [];
  cl_sock = 4;
  sv_sock = 5;
  st = some films_tracker;
  context = record new_context { response = response_c; query = record { valid = true; json = j } };
}

-- A statement as the parser gives it, under the key of its kind.
abbrev stmt : Text → Json → Json
stmt k v = obj (
    (codes "stmts", arr (obj ((codes "stmt", obj ((k, v) ∷ [])) ∷ []) ∷ []))
    ∷ (codes "version", number (codes "130003"))
    ∷ [])

abbrev creating : Session
creating = session_of (stmt (codes "CreateStmt") create_xxx)

update_schema_lem_example :
    (st' : SchemaTracker) × (update_schema quiet creating
      ≡ done (record creating { st = some st' }) no_error)
    × ((u : Text)
        → exist u st' ≡ (
            (completed creating && text_eq (codes "xxx") u && trackable u)
            || exist u films_tracker))
unfolding find_node decimal text_eq at_key get_field has_key
update_schema_lem_example =
    update_schema_lem quiet creating films_tracker (codes "xxx") create_xxx
      (λ x. stmt (codes "CreateStmt") x) refl refl ((_, refl, (_, refl, refl)), inr (true, refl))

abbrev setting : Session
setting = session_of (stmt (codes "VariableSetStmt") set_role)

update_parameters_lem_example :
    RoleSet (codes "jim@amzn") setting (ok (codes "f")) (update_parameters quiet setting)
unfolding find_node decimal text_eq text_ltb first_byte at_key put_key get_field set_field at_index
update_parameters_lem_example =
    update_parameters_lem quiet setting (codes "jim@amzn") set_role
      (λ x. stmt (codes "VariableSetStmt") x) refl refl
      (role_args, _, (refl, refl), refl, refl, (_, refl, (_, refl, (_, refl, (_, refl, refl)))))
      refl refl

abbrev deparsing : World
deparsing = record quiet { deparse = λ j. some (codes "DROP TABLE") }

abbrev dropping : Session
dropping = session_of (stmt (codes "DropStmt") drop_xxx)

abbrev put_drop : Json → Json
put_drop x = stmt (codes "DropStmt") x

abbrev put_objects : Json → Json
put_objects x = put_drop (
    obj (
      (codes "behavior", string (codes "DROP_CASCADE"))
      ∷ (codes "objects", x)
      ∷ (codes "removeType", string (codes "OBJECT_TABLE"))
      ∷ []))

drop_table-cascade_example :
    Cascaded deparsing dropping drop_xxx put_drop none (drop_table deparsing dropping)
unfolding find_node decimal text_eq text_ltb exist mem is_excluded is_internal ends_with new_tracker
    emplace at_key put_key get_field set_field drop_name get_string
drop_table-cascade_example =
    drop_table-cascade deparsing dropping films_tracker
      (codes "xxx" ∷ codes "yyy" ∷ codes "zzz" ∷ []) drop_objects drop_xxx put_drop put_objects
      (codes "yyy__access_bindings__") [] (codes "DROP TABLE") refl refl refl
      ((refl, refl), (refl, refl), (refl, (refl, (refl, tt)))) refl refl refl refl
