-- ===== src/Session/Plugins/Wiring.antt =====
-- No plugin touches what the event loop goes by.
use pg_fort.Base.{inr, inl, Bool-cases, ◌≡◌, refl, ◌∙◌, List, [], ◌∷◌, Text, codes, arith}
use pg_fort.Common.{is_error}
use pg_fort.Session.{Session, World, Ran, done, thrown, crashed, touch_parameter}
use pg_fort.Session.Plugins.Rewrite.{translate_proxy_command, parse_query_plugin, acl_query}
use pg_fort.Session.Plugins.Drop.{drop_table}
use pg_fort.Session.Plugins.Create.{ensure_new_table_has_id}
use pg_fort.Session.Plugins.Update.{update_parameters, update_schema}
use pg_fort.Session.Plugins.Chain.{
  Plugin, restrict_internal_table_access, pre_request_plugins, post_response_plugins, then_run,
  run_pre_request, then_run_always, run_post_response,
}

-- The sockets, the event that is waited for, whether the session waits and whether it is initiated.
abbrev pub Wired : Session → Session → Type 0
Wired s t =
    (t.cl_sock ≡ s.cl_sock)
    × (t.sv_sock ≡ s.sv_sock)
    × (t.context.waiting ≡ s.context.waiting)
    × (t.context.initiated ≡ s.context.initiated)

abbrev pub Keeps : Session → Ran → Type 0
Keeps s (done t err) = Wired s t
Keeps s (thrown t e) = Wired s t
Keeps s crashed = Unit {0}

abbrev wired : (s : Session) → Wired s s
wired s = (refl, refl, refl, refl)

touch-Wired : (k : Text) (s : Session) → Wired s (touch_parameter k s)
unfolding touch_parameter
touch-Wired k s = ground arith

translate-Keeps : (w : World) (s : Session) → Keeps s (translate_proxy_command w s)
unfolding translate_proxy_command
translate-Keeps w s = ground arith

parse-Keeps : (w : World) (s : Session) → Keeps s (parse_query_plugin w s)
unfolding parse_query_plugin
parse-Keeps w s = ground arith

acl-Keeps : (w : World) (s : Session) → Keeps s (acl_query w s)
unfolding acl_query
acl-Keeps w s = ground (arith, touch-Wired (codes "rolsuper") s)

drop-Keeps : (w : World) (s : Session) → Keeps s (drop_table w s)
unfolding drop_table
drop-Keeps w s = ground arith

ensure-Keeps : (w : World) (s : Session) → Keeps s (ensure_new_table_has_id w s)
unfolding ensure_new_table_has_id
ensure-Keeps w s = ground arith

update_parameters-Keeps : (w : World) (s : Session) → Keeps s (update_parameters w s)
unfolding update_parameters
update_parameters-Keeps w s = ground arith

update_schema-Keeps : (w : World) (s : Session) → Keeps s (update_schema w s)
unfolding update_schema
update_schema-Keeps w s = ground arith

Wired-trans : (s t u : Session) → Wired s t → Wired t u → Wired s u
Wired-trans s t u p q = (q.0 ∙ p.0, q.1 ∙ p.1, q.2 ∙ p.2, q.3 ∙ p.3)

Keeps-trans : (s t : Session) (r : Ran) → Wired s t → Keeps t r → Keeps s r
Keeps-trans s t (done u err) p q = Wired-trans s t u p q
Keeps-trans s t (thrown u e) p q = Wired-trans s t u p q
Keeps-trans s t crashed p q = tt

abbrev AllKeep : List Plugin → Type 0
AllKeep [] = Unit {0}
AllKeep (p ∷ ps) = ((w : World) (s : Session) → Keeps s (p w s)) × AllKeep ps

run_pre_request-Keeps :
    (ps : List Plugin) (w : World) (s : Session) → AllKeep ps → Keeps s (run_pre_request ps w s)
unfolding run_pre_request
run_pre_request-Keeps [] w s h = wired s
run_pre_request-Keeps (p ∷ ps) w s h = go (p w s) (h.0 w s) (λ t. run_pre_request-Keeps ps w t h.1)
  where
    go :
        (r : Ran)
        → Keeps s r
        → ((t : Session) → Keeps t (run_pre_request ps w t))
        → Keeps s (then_run (run_pre_request ps w) r)
    go (done t err) k rest = elim (Bool-cases (is_error err)) [
      | inl e ↦ rw e k
      | inr e ↦ rw e (Keeps-trans s t (run_pre_request ps w t) k (rest t))
    ]
    go (thrown t e) k rest = k
    go crashed k rest = tt

run_post_response-Keeps :
    (ps : List Plugin) (w : World) (s : Session) → AllKeep ps → Keeps s (run_post_response ps w s)
unfolding run_post_response
run_post_response-Keeps [] w s h = wired s
run_post_response-Keeps (p ∷ ps) w s h =
    go (p w s) (h.0 w s) (λ t. run_post_response-Keeps ps w t h.1)
  where
    go :
        (r : Ran)
        → Keeps s r
        → ((t : Session) → Keeps t (run_post_response ps w t))
        → Keeps s (then_run_always (run_post_response ps w) r)
    go (done t err) k rest = Keeps-trans s t (run_post_response ps w t) k (rest t)
    go (thrown t e) k rest = k
    go crashed k rest = tt

restrict-Keeps : (w : World) (s : Session) → Keeps s (restrict_internal_table_access w s)
unfolding restrict_internal_table_access
restrict-Keeps w s = wired s

pub pre_request-Keeps :
    (w : World) (s : Session) → Keeps s (run_pre_request pre_request_plugins w s)
pre_request-Keeps w s = run_pre_request-Keeps pre_request_plugins w s (
  translate-Keeps,
  (parse-Keeps, (acl-Keeps, (drop-Keeps, (ensure-Keeps, (restrict-Keeps, tt))))),
)

pub post_response-Keeps :
    (w : World) (s : Session) → Keeps s (run_post_response post_response_plugins w s)
post_response-Keeps w s =
    run_post_response-Keeps post_response_plugins w s
      (update_parameters-Keeps, (update_schema-Keeps, tt))

-- However the chain of plugins on a request or on a response ends, unless with the process, it has
-- changed neither the sockets, nor whether the session waits, nor whether it is initiated.
pub plugins-Keep :
    (w : World) (s : Session)
    → Keeps s (run_pre_request pre_request_plugins w s)
      × Keeps s (run_post_response post_response_plugins w s)
plugins-Keep w s = (pre_request-Keeps w s, post_response-Keeps w s)
