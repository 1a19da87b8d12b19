-- ===== src/Tests/Session.antt =====
-- Runs of a session's actions at concrete inputs.
use pg_fort.Base.{◌≡◌, refl, true, [], ◌∷◌, none, some, Text, codes, text_eq, ok, c_str}
use pg_fort.Base.{ends_with, decimal}
use pg_fort.Base.Dict.{lookup, contains}
use pg_fort.Query.Json.{string, get_field, at_key, get_string, has_key}
use pg_fort.Query.Statement.{parse_query, to_string}
use pg_fort.Query.Acler.{
  acl_select, acl_range_var, expand, is_plain, join_expr, relname_of, alias_of, is_tracked,
  is_left_alone,
}
use pg_fort.Schema.Tracker.{exist, mem, is_excluded, is_internal}
use pg_fort.Session.{parameter, touch_parameter}
use pg_fort.Session.Plugins.Rewrite.{
  translate_proxy_command, parse_query_plugin, acl_query, first_byte,
}
use pg_fort.Session.Plugins.Drop.{drop_table, on_drop}
use pg_fort.Session.Plugins.Create.{ensure_new_table_has_id, on_create}
use pg_fort.Session.Plugins.Chain.{then_run, restrict_internal_table_access}
use pg_fort.Session.Actions.{on_pre_request}
use pg_fort.Common.{is_error, no_error}
use pg_fort.Conn.Message.{set_query, query_text}
use pg_fort.StateMachine.{Acted, moved, died}
use pg_fort.Query.Json.{Json, find_node}
use pg_fort.Query.Statement.{parsed}
use pg_fort.Query.Acler.{acl}
use pg_fort.Query.Acler.Guarded.{GuardedTree}
use pg_fort.Query.ProxyCommand.Translate.{translated}
use pg_fort.Query.Json.{object, field, end, set_field, is_string}
use pg_fort.Session.Plugins.Create.{missing_id}
use pg_fort.Session.{Session, World, Ran, done, thrown, crashed, new_context}
use pg_fort.Session.Plugins.Rewrite.{is_query_message}
use pg_fort.Session.Plugins.Chain.{
  pre_request_plugins, post_response_plugins, run_pre_request, run_post_response,
}
use pg_fort.Session.Plugins.Wiring.{Keeps, plugins-Keep}
use pg_fort.Session.Actions.{
  StateId, apply_pre_request_plugins, prepare_to_forward_request, receive_request, act,
}
use pg_fort.Session.Actions.Guard.{forwarded-Guarded}
use pg_fort.Session.Actions.Unexamined.{forwarded-other}
use pg_fort.Session.Actions.Refusal.{Told, refused-Told}
use pg_fort.Conn.Message.{field_of}
use pg_fort.Base.{arith}
use pg_fort.Session.Actions.Order.{Allowed, act-Allowed}
use pg_fort.Session.Actions.Waiting.{ActedOk, act-ActedOk}
use pg_fort.Session.Actions.Run.{OutcomeOk, run, new_session, run-MachineOk}
use pg_fort.Tests.Query.{one_table, from_films}
use pg_fort.Tests.Plugins.{quiet}

-- A world in which every query is one of the films.
abbrev films_world : World
films_world = record quiet {
  parser = λ t. parsed from_films;
  deparse = λ j. some (codes "SELECT 2");
}

abbrev pub films_session : Session
films_session = record {
  parameters = (codes "rolsuper", codes "f") ∷ [];
  cl_sock = 4;
  sv_sock = 5;
  st = some one_table;
  context = record new_context { initiated = true; request = set_query (codes "SELECT 1") };
}

abbrev session_of : Acted StateId Session → Session
session_of (moved i t) = t
session_of died = films_session

abbrev forwarded : Session
forwarded = session_of (act films_world apply_pre_request_plugins films_session)

films-forwarded :
    act films_world apply_pre_request_plugins films_session
    ≡ moved (some prepare_to_forward_request) forwarded
unfolding act on_pre_request run_pre_request then_run is_query_message set_query query_text c_str
    is_error translate_proxy_command translated parse_query_plugin acl_query drop_table on_drop
    ensure_new_table_has_id on_create restrict_internal_table_access parameter touch_parameter
    lookup contains parse_query to_string acl acl_select acl_range_var expand exist mem is_excluded
    is_internal text_eq is_plain get_field join_expr ends_with relname_of alias_of at_key get_string
    has_key is_tracked is_left_alone find_node decimal first_byte new_context
films-forwarded = refl

plugins-Keep_example :
    Keeps films_session (run_pre_request pre_request_plugins films_world films_session)
    × Keeps films_session (run_post_response post_response_plugins films_world films_session)
plugins-Keep_example = plugins-Keep films_world films_session

act-Allowed_example : Allowed receive_request (act films_world receive_request films_session)
act-Allowed_example = act-Allowed films_world receive_request films_session

act-ActedOk_example : ActedOk (act films_world apply_pre_request_plugins films_session)
unfolding new_context
act-ActedOk_example = act-ActedOk films_world apply_pre_request_plugins films_session (refl, refl)

run-MachineOk_example :
    OutcomeOk (run (films_world ∷ quiet ∷ []) (new_session 4 5 (some one_table)))
run-MachineOk_example = run-MachineOk (films_world ∷ quiet ∷ []) 4 5 (some one_table)

forwarded-Guarded_example :
    (j : Json) × (q : Text) × (acl films_world.template (some one_table) from_films ≡ ok j)
    × GuardedTree films_world.template (some one_table) j
    × (films_world.deparse j ≡ some q)
    × (find_node (codes "DropStmt") j ≡ none → forwarded.context.request ≡ set_query q)
unfolding text_eq parameter lookup is_query_message set_query query_text c_str is_error translated
forwarded-Guarded_example =
    forwarded-Guarded films_world films_session forwarded (codes "SELECT 1") no_error from_films
      refl refl refl refl refl films-forwarded

-- A Parse message of the extended protocol.
abbrev parse_session : Session
parse_session = record films_session {
  context = record films_session.context {
    request = record { buf = codes "P"; data_size = 1; buf_size = 0 };
  };
}

forwarded-other_example :
    (t : Session) × (act films_world apply_pre_request_plugins parse_session
      ≡ moved (some prepare_to_forward_request) t)
    × (t.context.request ≡ parse_session.context.request)
unfolding is_query_message new_context
forwarded-other_example = forwarded-other films_world parse_session refl refl

-- A world in which every query creates a table without an `id`, and a superuser.
abbrev creating : World
creating = record quiet {
  parser = λ t. parsed (
      object (
        field (codes "CreateStmt")
          (object (
            field (codes "relation") (object (field (codes "relname") (string (codes "films")) end))
              end))
          end));
}

abbrev creating_session : Session
creating_session = record films_session { parameters = (codes "rolsuper", codes "t") ∷ [] }

abbrev session_at : Ran → Session
session_at (done s err) = s
session_at (thrown s e) = s
session_at crashed = creating_session

refused-Told_example : Told missing_id (act creating apply_pre_request_plugins creating_session)
unfolding run_pre_request then_run translate_proxy_command translated is_query_message set_query
    is_error contains lookup field_of text_eq c_str query_text parse_query_plugin acl_query
    parameter drop_table touch_parameter parse_query find_node decimal ensure_new_table_has_id
    get_field get_string ends_with set_field is_string
refused-Told_example =
    refused-Told creating creating_session
      (session_at (run_pre_request pre_request_plugins creating creating_session)) missing_id refl
      refl refl (omega arith)
