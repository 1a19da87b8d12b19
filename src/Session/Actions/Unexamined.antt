-- ===== src/Session/Actions/Unexamined.antt =====
-- The requests that the plugins do not look at.
use pg_fort.Base.{◌≡◌, refl, false, some, codes, arith}
use pg_fort.Common.{no_error, is_error}
use pg_fort.StateMachine.{moved}
use pg_fort.Session.{Session, World, done, touch_parameter}
use pg_fort.Session.Plugins.Rewrite.{
  is_query_message, translate_proxy_command, parse_query_plugin, acl_query,
}
use pg_fort.Session.Plugins.Drop.{drop_table}
use pg_fort.Session.Plugins.Create.{ensure_new_table_has_id}
use pg_fort.Session.Plugins.Chain.{
  restrict_internal_table_access, pre_request_plugins, then_run, run_pre_request,
}
use pg_fort.Session.Actions.{
  apply_pre_request_plugins, prepare_to_forward_request, on_pre_request, act,
}

invalid-chain :
    (w : World) (s : Session)
    → is_query_message s.context.request ≡ false
    → s.context.query.valid ≡ false
    → run_pre_request pre_request_plugins w s ≡ done (touch_parameter (codes "rolsuper") s) no_error
unfolding run_pre_request then_run is_error translate_proxy_command parse_query_plugin acl_query
    drop_table ensure_new_table_has_id restrict_internal_table_access touch_parameter
invalid-chain w s q v = ground arith

-- A request that is not a query message, in a session that has parsed none since the last reset, is
-- forwarded as it came, whoever the user is: a statement in a Parse message of the extended protocol
-- is not checked.
pub forwarded-other :
    (w : World) (s : Session)
    → is_query_message s.context.request ≡ false
    → s.context.query.valid ≡ false
    → (t : Session) × (act w apply_pre_request_plugins s
        ≡ moved (some prepare_to_forward_request) t)
      × (t.context.request ≡ s.context.request)
unfolding act on_pre_request touch_parameter is_error
forwarded-other w s q v =
    (touch_parameter (codes "rolsuper") s, rw (invalid-chain w s q v) refl, ground arith)
