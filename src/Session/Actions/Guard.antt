-- ===== src/Session/Actions/Guard.antt =====
-- What reaches the server: the request that is forwarded is the rewritten one.
use pg_fort.Base.{
  ◌≡◌, refl, sym, ap, ◌∙◌, true, false, List, [], ◌∷◌, Option, none, some, Text, codes, text_eq,
  c_str, c_str-append, c_str-HasNoNul, arith, Result, ok, throw,
}
use pg_fort.Common.{Error, no_error, is_error}
use pg_fort.Conn.Message.{set_query, query_text}
use pg_fort.StateMachine.{moved}
use pg_fort.Query.Json.{Json, find_node}
use pg_fort.Query.Acler.{acl}
use pg_fort.Query.Acler.Guarded.{GuardedTree}
use pg_fort.Query.Acler.Guarded.Tree.{acl-Guarded}
use pg_fort.Query.ProxyCommand.Translate.{translated}
use pg_fort.Query.Statement.{parsed, parse_query, to_string}
use pg_fort.Session.{
  Session, World, Ran, done, thrown, crashed, with_query, with_request, parameter, touch_parameter,
}
use pg_fort.Session.Plugins.Rewrite.{
  is_query_message, translate_proxy_command, parse_query_plugin, acl_query, on_acled, on_deparsed,
}
use pg_fort.Session.Plugins.Drop.{drop_table, on_drop}
use pg_fort.Session.Plugins.Create.{ensure_new_table_has_id}
use pg_fort.Session.Plugins.Chain.{
  Plugin, restrict_internal_table_access, pre_request_plugins, then_run, run_pre_request,
}
use pg_fort.Session.Actions.{
  act_apply_pre_request_plugins, apply_pre_request_plugins, prepare_to_forward_request,
  on_pre_request, act,
}

-- A chain that leads on to forwarding has ended without an error.
on_pre_request-forward :
    (w : World) (r : Ran) (t : Session)
    → on_pre_request w r ≡ moved (some prepare_to_forward_request) t
    → (err : Error) × (r ≡ done t err) × (is_error err ≡ false)
unfolding on_pre_request
on_pre_request-forward w (done s err) t h = (err, ground arith, ground arith)
on_pre_request-forward w (thrown s e) t h = absurd (ground arith)
on_pre_request-forward w crashed t h = cc

-- A plugin in a chain that ended without an error has ended without one, and the rest went on from
-- where it left the session.
then_run-done :
    (k : Session → Ran) (r : Ran) (t : Session) (err : Error)
    → then_run k r ≡ done t err
    → is_error err ≡ false
    → (s : Session) × (e : Error) × (r ≡ done s e) × (k s ≡ done t err)
unfolding then_run
then_run-done k (done s e) t err h n = (s, e, refl, ground arith)
then_run-done k (thrown s x) t err h n = cc
then_run-done k crashed t err h n = cc

query_text-set_query_any : (q : Text) → query_text (set_query q) ≡ c_str q
unfolding query_text set_query
query_text-set_query_any q = c_str-append (c_str q) [] (c_str-HasNoNul q)

set_query-is_query : (q : Text) → is_query_message (set_query q) ≡ true
unfolding is_query_message set_query
set_query-is_query q = refl

run_pre_request-cons :
    (p : Plugin) (ps : List Plugin) (w : World) (s : Session)
    → run_pre_request (p ∷ ps) w s ≡ then_run (run_pre_request ps w) (p w s)
unfolding run_pre_request
run_pre_request-cons p ps w s = refl

run_pre_request-step :
    (p : Plugin) (ps : List Plugin) (w : World) (s t : Session)
    → p w s ≡ done t no_error
    → run_pre_request (p ∷ ps) w s ≡ run_pre_request ps w t
unfolding then_run is_error
run_pre_request-step p ps w s t h = rw (run_pre_request-cons p ps w s, h)

translate-query :
    (w : World) (s : Session) (sql : Text) (err : Error)
    → is_query_message s.context.request ≡ true
    → translated (query_text s.context.request) ≡ (sql, err)
    → is_error err ≡ false
    → translate_proxy_command w s ≡ done (with_request s (set_query sql)) no_error
unfolding translate_proxy_command
translate-query w s sql err q translation n = rw (q, translation, n)

parse-query :
    (w : World) (s : Session) (sql : Text) (j : Json)
    → w.parser (c_str sql) ≡ parsed j
    → parse_query_plugin w (with_request s (set_query sql))
      ≡ done
          (with_query (with_request s (set_query sql)) (record { valid = true; json = j }))
          no_error
unfolding parse_query_plugin parse_query
parse-query w s sql j p = rw (set_query-is_query sql, query_text-set_query_any sql, parse_query, p)

-- The access checks of a session whose user is no superuser, for a valid statement.
acl_query-valid :
    (w : World) (s : Session)
    → text_eq (parameter (codes "rolsuper") s) (codes "t") ≡ false
    → s.context.query.valid ≡ true
    → acl_query w s
      ≡ on_acled w (touch_parameter (codes "rolsuper") s) (acl w.template s.st s.context.query.json)
unfolding acl_query
acl_query-valid w s r v = rw (r, v)

-- What the last three plugins do to a request.
abbrev KeepsRequest : Session → Ran → Type 0
KeepsRequest s (done t err) = t.context.request ≡ s.context.request
KeepsRequest s (thrown t e) = Unit {0}
KeepsRequest s crashed = Unit {0}

ensure-KeepsRequest : (w : World) (s : Session) → KeepsRequest s (ensure_new_table_has_id w s)
unfolding ensure_new_table_has_id
ensure-KeepsRequest w s = ground arith

drop-none :
    (w : World) (s : Session)
    → find_node (codes "DropStmt") s.context.query.json ≡ none
    → drop_table w s ≡ done s no_error
unfolding drop_table on_drop
drop-none w s h = ground arith

restrict-last :
    (w : World) (u t : Session) (err : Error)
    → run_pre_request (restrict_internal_table_access ∷ []) w u ≡ done t err
    → t ≡ u
unfolding run_pre_request restrict_internal_table_access is_error
restrict-last w u t err q = ground arith

-- The chain behind the access checks, for a statement that drops nothing.
rest-KeepsRequest :
    (w : World) (s t : Session) (err : Error)
    → find_node (codes "DropStmt") s.context.query.json ≡ none
    → is_error err ≡ false
    → run_pre_request
        (drop_table ∷ ensure_new_table_has_id ∷ restrict_internal_table_access ∷ [])
        w
        s
      ≡ done t err
    → t.context.request ≡ s.context.request
rest-KeepsRequest w s t err nothing n h =
    let h1 =
      sym (
        run_pre_request-step drop_table
          (ensure_new_table_has_id ∷ restrict_internal_table_access ∷ []) w s s
          (drop-none w s nothing))
      ∙ h in
    let h2 =
      sym (run_pre_request-cons ensure_new_table_has_id (restrict_internal_table_access ∷ []) w s)
      ∙ h1 in
    let (u, e, p, q) =
      then_run-done (run_pre_request (restrict_internal_table_access ∷ []) w)
        (ensure_new_table_has_id w s) t err h2 n in
    let kept : KeepsRequest s (done u e) = rw p at (ensure-KeepsRequest w s) in
    ap (λ (x : Session). x.context.request) (restrict-last w u t err q) ∙ kept

-- After the access checks: the rewriting has returned, its tree could be deparsed, and the request
-- is the text.
on_acled-request :
    (w : World) (s t : Session) (r : Result Json) (err : Error) (rest : List Plugin)
    → then_run (run_pre_request rest w) (on_acled w s r) ≡ done t err
    → is_error err ≡ false
    → (j : Json) × (q : Text) × (r ≡ ok j)
      × (w.deparse j ≡ some q)
      × (run_pre_request rest w
            (with_request (with_query s (record { valid = true; json = j })) (set_query q))
          ≡ done t err)
unfolding on_acled then_run to_string is_error
on_acled-request w s t (throw x) err rest h n = cc
on_acled-request w s t (ok j) err rest h n = go (w.deparse j) refl h
  where
    go :
        (o : Option Text)
        → w.deparse j ≡ o
        → then_run
            (run_pre_request rest w)
            (on_deparsed (with_query s (record { valid = true; json = j })) o)
          ≡ done t err
        → (j' : Json) × (q : Text) × (ok j ≡ ok j')
          × (w.deparse j' ≡ some q)
          × (run_pre_request rest w
                (with_request (with_query s (record { valid = true; json = j' })) (set_query q))
              ≡ done t err)
    go none p e = cc
    go (some q) p e = (j, q, refl, p, e)

-- The request of a client that is no superuser, if it is a query that translates to `sql` and `sql`
-- parses to `j`: when the session goes on to forward it, the rewriting of `j` has returned a guarded
-- tree, and unless that tree drops something, what is forwarded is a query message with its text.
pub forwarded-Guarded :
    (w : World) (s t : Session) (sql : Text) (err : Error) (j : Json)
    → text_eq (parameter (codes "rolsuper") s) (codes "t") ≡ false
    → is_query_message s.context.request ≡ true
    → translated (query_text s.context.request) ≡ (sql, err)
    → is_error err ≡ false
    → w.parser (c_str sql) ≡ parsed j
    → act w apply_pre_request_plugins s ≡ moved (some prepare_to_forward_request) t
    → (j' : Json) × (q : Text) × (acl w.template s.st j ≡ ok j')
      × GuardedTree w.template s.st j'
      × (w.deparse j' ≡ some q)
      × (find_node (codes "DropStmt") j' ≡ none → t.context.request ≡ set_query q)
unfolding act act_apply_pre_request_plugins parameter
forwarded-Guarded w s t sql err j role query translation fine parses h =
    let (e, chain, n) = on_pre_request-forward w (run_pre_request pre_request_plugins w s) t h in
    let s1 = with_query (with_request s (set_query sql)) (record { valid = true; json = j }) in
    let c1 =
      sym (
        run_pre_request-step translate_proxy_command _ w s (with_request s (set_query sql))
          (translate-query w s sql err query translation fine))
      ∙ chain in
    let c2 =
      sym (
        run_pre_request-step parse_query_plugin _ w (with_request s (set_query sql)) s1
          (parse-query w s sql j parses))
      ∙ c1 in
    let c3 = sym (run_pre_request-cons acl_query _ w s1) ∙ c2 in
    let c4 = rw (acl_query-valid w s1 role refl) at c3 in
    let (j', q, acled, text, c5) = on_acled-request w _ t (acl w.template s1.st j) e _ c4 n in
    (
      j',
      q,
      acled,
      acl-Guarded w.template s.st j acled,
      text,
      λ nothing. rest-KeepsRequest w _ t e nothing n c5,
    )
