-- ===== src/Session/Plugins/Rewrite.antt =====
-- `TranslateProxyCommandPlugIn`, `ParseQueryPlugIn`, `AclQueryPlugIn`.
use pg_fort.Base.{
  ℕ, Bool, true, not, Option, none, some, Text, codes, text_eq, get_or, ◌==◌, if◌then◌else◌, Result,
  ok, throw,
}
use pg_fort.Common.{Error, no_error, is_error}
use pg_fort.Conn.Buffer.{Buffer}
use pg_fort.Conn.Message.{set_query, query_text}
use pg_fort.Query.Json.{Json}
use pg_fort.Query.ProxyCommand.Translate.{translated}
use pg_fort.Query.Acler.{acl}
use pg_fort.Query.Statement.{Query, parse_query, to_string}
use pg_fort.Session.{
  Session, World, Ran, done, thrown, crashed, with_query, with_request, parameter, touch_parameter,
}

-- `Data()[0]`
unfoldable pub first_byte : Buffer → ℕ
first_byte b = get_or b.buf 0 0

unfoldable pub is_query_message : Buffer → Bool
unfolding first_byte
is_query_message b = first_byte b == b'Q'

pub on_translated : Session → Text × Error → Ran
on_translated s (translated, err) =
    if is_error err then done s err else done (with_request s (set_query translated)) no_error

unfoldable pub translate_proxy_command : World → Session → Ran
unfolding on_translated
translate_proxy_command w s =
    if is_query_message s.context.request
    then on_translated s (translated (query_text s.context.request))
    else done s no_error

-- An error of the parser is dropped: the server will report it.
pub on_parsed_query : Session → Result (Query × Error) → Ran
on_parsed_query s (throw e) = thrown s e
on_parsed_query s (ok (q, err)) = done (with_query s q) no_error

unfoldable pub parse_query_plugin : World → Session → Ran
unfolding on_parsed_query
parse_query_plugin w s =
    if is_query_message s.context.request
    then on_parsed_query s (parse_query w.parser (query_text s.context.request))
    else done s no_error

-- The request becomes the text of the session's query.
unfoldable pub on_deparsed : Session → Option Text → Ran
on_deparsed s none = crashed
on_deparsed s (some q) = done (with_request s (set_query q)) no_error

-- An exception leaves the tree partly rewritten; nothing reads it before the context is reset.
unfoldable pub on_acled : World → Session → Result Json → Ran
unfolding on_deparsed
on_acled w s (throw e) = thrown s e
on_acled w s (ok j) =
    let q : Query = record { valid = true; json = j } in
    on_deparsed (with_query s q) (to_string w.deparse q)

unfoldable pub acl_query : World → Session → Ran
unfolding on_acled
acl_query w s =
    if text_eq (parameter (codes "rolsuper") s) (codes "t")
    then done (touch_parameter (codes "rolsuper") s) no_error
    else if not s.context.query.valid
    then done (touch_parameter (codes "rolsuper") s) no_error
    else on_acled w (touch_parameter (codes "rolsuper") s)
        (acl w.template s.st s.context.query.json)
