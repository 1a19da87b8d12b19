-- ===== src/Session/Actions/Untranslatable.antt =====
-- What a proxy command that cannot be translated does to the process.
use pg_fort.Base.{◌≡◌, refl, inl, inr, true, false, Text}
use pg_fort.Common.{Error, is_error}
use pg_fort.Conn.Message.{query_text}
use pg_fort.Conn.Message.Mandatory.{sendable, set_error-none_iff}
use pg_fort.Query.ProxyCommand.Translate.{translated}
use pg_fort.Query.ProxyCommand.Total.{Answers, translate-Answers}
use pg_fort.StateMachine.{died}
use pg_fort.Session.{Session, World, done}
use pg_fort.Session.Plugins.Rewrite.{is_query_message, translate_proxy_command}
use pg_fort.Session.Plugins.Chain.{pre_request_plugins, run_pre_request, then_run}
use pg_fort.Session.Actions.{apply_pre_request_plugins, on_pre_request, respond, act}

untranslated :
    (w : World) (s : Session)
    → is_query_message s.context.request ≡ true
    → is_error (translated (query_text s.context.request)).1 ≡ true
    → run_pre_request pre_request_plugins w s ≡ done s (translated (query_text s.context.request)).1
unfolding run_pre_request then_run translate_proxy_command
untranslated w s q fault = rw (run_pre_request, translate_proxy_command, q, fault, fault) refl

uncoded-unsendable :
    (query : Text) (a : Text × Error) → Answers query a → is_error a.1 ≡ true → sendable a.1 ≡ false
unfolding is_error
uncoded-unsendable query a (inl none_given) fault =
    let silent : is_error a.1 ≡ false = rw none_given refl in absurd cc
uncoded-unsendable query a (inr (same, (_, uncoded))) fault = rw uncoded refl

respond-died : (s : Session) (err : Error) → sendable err ≡ false → respond s err ≡ died
unfolding respond
respond-died s err h = rw (respond, (set_error-none_iff err).1 h) refl

-- A query message whose text the translator refuses, for whatever reason, ends the whole process
-- where the client should be told of the error.
pub untranslatable-died :
    (w : World) (s : Session)
    → is_query_message s.context.request ≡ true
    → is_error (translated (query_text s.context.request)).1 ≡ true
    → act w apply_pre_request_plugins s ≡ died
unfolding act on_pre_request
untranslatable-died w s q fault =
    let query = query_text s.context.request in
    rw (untranslated w s q fault, fault)
      (respond-died s (translated query).1
        (uncoded-unsendable query (translated query) (translate-Answers query).1 fault))
