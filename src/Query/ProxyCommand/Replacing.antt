-- ===== src/Query/ProxyCommand/Replacing.antt =====
-- The passes of lib/query/proxy-command.cpp that are one `std::regex_replace`.
use pg_fort.Base.{◌∷◌, ◌++◌, [], Option, Text, codes}
use pg_fort.Query.ProxyCommand.Patterns.{
  comment, enable_access_control, create_access_permission, bind_access_role,
  list_access_role_binding,
}
use pg_fort.Query.ProxyCommand.Rewriting.{Output, replace_all}

unfoldable pub remove_comments : Text → Option Output
unfolding replace_all comment
remove_comments command = replace_all comment [] command

abbrev pub bindings_table : Text
bindings_table =
    codes "CREATE TABLE $1__access_bindings__ ("
    ++ codes "   _id             BIGINT NOT NULL,"
    ++ codes "   _role           TEXT NOT NULL,"
    ++ codes "   _principal      TEXT NOT NULL,"
    ++ codes "   _ref            BIGINT NOT NULL,"
    ++ codes "   _inheritance    BIGINT NOT NULL DEFAULT 0,"
    ++ codes "   _ts             TIMESTAMP DEFAULT NOW(),"
    ++ codes "   PRIMARY KEY (_id, _inheritance, _ref),"
    ++ codes "   FOREIGN KEY (_id) REFERENCES $1 (id) ON DELETE CASCADE,"
    ++ codes "   FOREIGN KEY (_role) REFERENCES __access_roles__ (_name) ON DELETE RESTRICT,"
    ++ codes "   FOREIGN KEY (_ref) REFERENCES __access_binding_refs__ (_id) ON DELETE CASCADE,"
    ++ codes
        "   FOREIGN KEY (_inheritance) REFERENCES __access_inheritances__ (_id) ON DELETE CASCADE"
    ++ codes ");"

abbrev pub upsert_trigger : Text
upsert_trigger =
    codes "CREATE TRIGGER $1__upsert__"
    ++ codes "   AFTER INSERT OR UPDATE ON $1"
    ++ codes "   FOR EACH ROW"
    ++ codes "   EXECUTE FUNCTION __set_access_bindings__();"

abbrev pub acls_view : Text
acls_view =
    codes "CREATE VIEW $1__acls__ AS"
    ++ codes "   SELECT b._id, b._role, b._principal, r._operation, r._columns"
    ++ codes "   FROM $1__access_bindings__ b, __access_roles_expanded__ r"
    ++ codes "   WHERE r._relation = '$1'::REGCLASS AND b._role = r._name;"
    ++ codes "GRANT ALL PRIVILEGES ON $1, $1__acls__ TO PUBLIC"

abbrev pub access_control_template : Text
access_control_template = bindings_table ++ upsert_trigger ++ acls_view

unfoldable pub translate_enable_access_control : Text → Option Output
unfolding replace_all enable_access_control
translate_enable_access_control command =
    replace_all enable_access_control access_control_template command

abbrev pub permission_template : Text
permission_template =
    codes "INSERT INTO __access_permissions__ (_name, _relation, _operation)"
    ++ b'\t' ∷ codes "VALUES (LOWER('$1'), '$2', UPPER('$3'))"

unfoldable pub translate_create_access_permission : Text → Option Output
unfolding replace_all create_access_permission
translate_create_access_permission command =
    replace_all create_access_permission permission_template command

abbrev pub bind_template : Text
bind_template =
    codes "WITH r AS"
    ++ codes "   (INSERT INTO __access_binding_refs__ (_origin, _origin_id)"
    ++ codes "       VALUES ('$3', ($4))"
    ++ codes "       RETURNING *)"
    ++ codes "INSERT INTO $3__access_bindings__ (_role, _principal, _id, _ref)"
    ++ codes "   SELECT '$1', '$2', _origin_id, _id"
    ++ codes "   FROM r"

unfoldable pub translate_bind_access_role : Text → Option Output
unfolding replace_all bind_access_role
translate_bind_access_role command = replace_all bind_access_role bind_template command

abbrev pub binding_template : Text
binding_template =
    codes "SELECT *" ++ codes "   FROM $1__access_bindings__" ++ codes "   WHERE _id = ($2)"

unfoldable pub translate_list_access_role_binding : Text → Option Output
unfolding replace_all list_access_role_binding
translate_list_access_role_binding command =
    replace_all list_access_role_binding binding_template command
