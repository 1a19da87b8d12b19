-- ===== src/Session/Plugins/Update.antt =====
-- `UpdateParametersPlugIn` and `UpdateSchemaPlugIn`, which look at a response.
pub mod Roles
pub mod Tracking
use pg_fort.Base.{
  ℕ, ◌≡◌, Bool, true, false, not, List, [], ◌∷◌, Option, none, some, Text, codes, ◌==◌,
  if◌then◌else◌, Result, ok, throw, Exception, ◌>>=◌,
}
use pg_fort.Base.Dict.{insert}
use pg_fort.Common.{Error, no_error}
use pg_fort.Schema.Tracker.{SchemaTracker, add_rel_name}
use pg_fort.Query.Json.{
  Json, at_key, put_key, get_string, get_bool, has_key, is_string, find_node, Pointer,
}
use pg_fort.Session.{rolsuper_query, Session, World, Ran, done, thrown, crashed, with_query}
use pg_fort.Session.Plugins.Tree.{at_index}
use pg_fort.Session.Plugins.Rewrite.{first_byte}

-- `(*n)["args"][0]["A_Const"]["val"]["String"]["str"]`
unfoldable pub role_of : Json → Result Text
unfolding at_index
role_of n = do
  args ← at_key (codes "args") n
  first ← at_index 0 args
  c ← at_key (codes "A_Const") first
  v ← at_key (codes "val") c
  s ← at_key (codes "String") v
  t ← at_key (codes "str") s
  get_string t

unfoldable pub on_rolsuper : Session → Result Text → Ran
on_rolsuper s (throw e) = thrown s e
on_rolsuper s (ok v) =
    done (record s { parameters = insert (codes "rolsuper") v s.parameters }) no_error

-- The user parameter is written first; the query for `rolsuper` needs a connection and may throw.
unfoldable pub refresh_rolsuper : World → Session → Result Text → Ran
unfolding on_rolsuper
refresh_rolsuper w s (throw e) = thrown s e
refresh_rolsuper w s (ok role) =
    let s' : Session = record s { parameters = insert (codes "user") role s.parameters } in
    if w.acquired then on_rolsuper s' (w.exec_rolsuper (rolsuper_query role)) else crashed

unfoldable pub on_set_name : World → Session → Json → (Json → Json) → Result Json → Ran
on_set_name w s n put (throw e) = thrown s e
on_set_name w s n put (ok name) =
    let n' = put_key (codes "name") name n in
    let s' = with_query s (record { valid = true; json = put n' }) in
    if not (is_string (codes "role") name)
    then done s' no_error
    else if not (first_byte s.context.response == b'C')
    then done s' no_error
    else refresh_rolsuper w s' (role_of n')

unfoldable pub on_set_role : World → Session → Option (Pointer Json) → Ran
unfolding on_set_name refresh_rolsuper
on_set_role w s none = done s no_error
on_set_role w s (some (n, put)) = on_set_name w s n put (at_key (codes "name") n)

unfoldable pub update_parameters : World → Session → Ran
unfolding on_set_role
update_parameters w s =
    if s.context.query.valid
    then on_set_role w s (find_node (codes "VariableSetStmt") s.context.query.json)
    else done s no_error

-- The flag is read, which may throw, and then not used.
unfoldable pub if_not_exists_of : Json → Result Bool
if_not_exists_of n =
    if has_key (codes "if_not_exists") n
    then (do v ← at_key (codes "if_not_exists") n; get_bool v)
    else ok false

unfoldable pub created_name : Json → Result Text
unfolding if_not_exists_of
created_name n = do
  r ← at_key (codes "relation") n
  v ← at_key (codes "relname") r
  table_name ← get_string v
  flag ← if_not_exists_of n
  ok table_name

unfoldable pub on_name : Session → Result Text → Ran
on_name s (throw e) = thrown s e
on_name s (ok t) = elim s.st [
  | none ↦ crashed
  | some st ↦ done (record s { st = some (add_rel_name t st) }) no_error
]

unfoldable pub on_created : Session → Option (Pointer Json) → Ran
unfolding created_name on_name
on_created s none = done s no_error
on_created s (some (n, put)) = on_name s (created_name n)

unfoldable pub update_schema : World → Session → Ran
unfolding on_created first_byte
update_schema w s =
    if not s.context.query.valid
    then done s no_error
    else if not (first_byte s.context.response == b'C')
    then done s no_error
    else on_created s (find_node (codes "CreateStmt") s.context.query.json)
