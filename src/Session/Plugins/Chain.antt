-- ===== src/Session/Plugins/Chain.antt =====
-- The chains of plugins, and how the session applies them.
use pg_fort.Base.{List, [], ◌∷◌, if◌then◌else◌}
use pg_fort.Common.{no_error, is_error}
use pg_fort.Session.{Session, World, Ran, done, thrown, crashed}
use pg_fort.Session.Plugins.Rewrite.{translate_proxy_command, parse_query_plugin, acl_query}
use pg_fort.Session.Plugins.Drop.{drop_table}
use pg_fort.Session.Plugins.Create.{ensure_new_table_has_id}
use pg_fort.Session.Plugins.Update.{update_parameters, update_schema}

abbrev pub Plugin : Type 0
Plugin = World → Session → Ran

-- `RestrictInternalTableAccessPlugIn` does nothing yet.
unfoldable pub restrict_internal_table_access : Plugin
restrict_internal_table_access w s = done s no_error

abbrev pub pre_request_plugins : List Plugin
pre_request_plugins =
    translate_proxy_command ∷ parse_query_plugin ∷ acl_query ∷ drop_table ∷ ensure_new_table_has_id
    ∷ restrict_internal_table_access ∷ []

abbrev pub post_response_plugins : List Plugin
post_response_plugins = update_parameters ∷ update_schema ∷ []

-- The first plugin that gives an error, throws or dies ends the chain.
unfoldable pub then_run : (Session → Ran) → Ran → Ran
then_run k (done s err) = if is_error err then done s err else k s
then_run k (thrown s e) = thrown s e
then_run k crashed = crashed

-- The loop of `Session::ApplyPreRequestPlugins`.
unfoldable pub run_pre_request : List Plugin → World → Session → Ran
unfolding then_run
run_pre_request [] w s = done s no_error
run_pre_request (p ∷ ps) w s = then_run (run_pre_request ps w) (p w s)

unfoldable pub then_run_always : (Session → Ran) → Ran → Ran
then_run_always k (done s err) = k s
then_run_always k (thrown s e) = thrown s e
then_run_always k crashed = crashed

-- The loop of `Session::ApplyPostResponsePlugins`, which drops the errors.
unfoldable pub run_post_response : List Plugin → World → Session → Ran
unfolding then_run_always
run_post_response [] w s = done s no_error
run_post_response (p ∷ ps) w s = then_run_always (run_post_response ps w) (p w s)
