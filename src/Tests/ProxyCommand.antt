-- ===== src/Tests/ProxyCommand.antt =====
-- Translations of lib/query/proxy-command.cpp, run.
use pg_fort.Base.{
  c_str, ◌≡◌, refl, ◌++◌, [], Option, none, some, Text, codes, true, false, length, ◌==◌,
  if◌then◌else◌,
}
use pg_fort.Common.{no_error, is_error}
use pg_fort.Conn.Message.{set_query, query_text}
use pg_fort.StateMachine.{died}
use pg_fort.Query.Regex.{Found, find}
use pg_fort.Query.ProxyCommand.Patterns.{create_access_inheritance}
use pg_fort.Query.ProxyCommand.Rewriting.{fails, str}
use pg_fort.Query.ProxyCommand.Searching.{inheritance, inheritance_sql, dimension_mismatch}
use pg_fort.Query.ProxyCommand.Translate.{translate, translated}
use pg_fort.Query.ProxyCommand.Total.{Answers, translate-Answers}
use pg_fort.Query.ProxyCommand.Ordinary.{translate-ordinary}
use pg_fort.Query.ProxyCommand.Columns.{words, pairs, condition, inheritance-pairs}
use pg_fort.Session.{Session, new_context}
use pg_fort.Session.Actions.{apply_pre_request_plugins, act}
use pg_fort.Session.Actions.Untranslatable.{untranslatable-died}
use pg_fort.Session.Plugins.Rewrite.{is_query_message}
use pg_fort.Tests.Plugins.{quiet}
use pg_fort.Tests.Session.{films_session}

abbrev uneven_inheritance : Text
uneven_inheritance = codes "CREATE ACCESS INHERITANCE FROM a (b, c) TO d(e)"

translate-Answers_example :
    (translate uneven_inheritance ≡ some (translated uneven_inheritance))
    × Answers uneven_inheritance (translated uneven_inheritance)
translate-Answers_example = translate-Answers uneven_inheritance

translate-ordinary_example :
    translate (codes "SELECT * FROM films;") ≡ some (codes "SELECT * FROM films;", no_error)
translate-ordinary_example = translate-ordinary (codes "SELECT * FROM films;") refl refl refl

-- The match of CREATE ACCESS INHERITANCE in a query.
abbrev found_or : Found → Option Found → Found
found_or d none = d
found_or d (some m) = m

abbrev two_columns : Found
two_columns =
    found_or (record { prefix = []; whole = []; groups = []; suffix = [] })
      (find create_access_inheritance (codes "CREATE ACCESS INHERITANCE FROM a (b, c) TO d(e,f)"))

inheritance-pairs_example :
    inheritance two_columns
    ≡ some (
        if length (words (str 2 two_columns)) == length (words (str 5 two_columns))
        then inheritance_sql two_columns
            (condition (pairs (words (str 2 two_columns)) (words (str 5 two_columns))), false)
        else fails dimension_mismatch)
inheritance-pairs_example = inheritance-pairs two_columns

abbrev uneven_session : Session
uneven_session = record films_session {
  context = record new_context { initiated = true; request = set_query uneven_inheritance };
}

untranslatable-died_example : act quiet apply_pre_request_plugins uneven_session ≡ died
unfolding is_query_message set_query query_text translated is_error c_str
untranslatable-died_example = untranslatable-died quiet uneven_session refl refl

inheritance_of_two :
    translate (codes "create  access inheritance from a (b, c) to d(e,f)")
    ≡ some (
      codes "INSERT INTO __access_inheritances__ (_src, _dst, _src_query)"
          ++ codes " VALUES ('a', 'd', 'SELECT id FROM a WHERE b = $1.e AND c = $1.f')",
      no_error,
    )
unfolding translate
inheritance_of_two = refl

list_roles_all :
    translate (codes "list  Access ROLE with all (A, bc)")
    ≡ some (codes "SELECT * FROM __access_roles__ WHERE _permissions @> ARRAY['a', 'bc']", no_error)
unfolding translate
list_roles_all = refl

-- The marks of a comment are taken out of a literal, and the words of a command are translated in it.
literal_cut : translate (codes "SELECT '--' AS x") ≡ some (codes "SELECT '", no_error)
unfolding translate
literal_cut = refl

literal_translated :
    translate (codes "SELECT 'List access role'")
    ≡ some (codes "SELECT 'SELECT * FROM __access_roles__'", no_error)
unfolding translate
literal_translated = refl

-- The end of a longer word begins a command.
unbound :
    translate (codes "UNBIND ACCESS ROLE r TO me ON t (1)")
    ≡ some (
      codes "UNWITH r AS   (INSERT INTO __access_binding_refs__ (_origin, _origin_id)"
          ++ codes "       VALUES ('t', (1))       RETURNING *)"
          ++ codes "INSERT INTO t__access_bindings__ (_role, _principal, _id, _ref)"
          ++ codes "   SELECT 'r', 'me', _origin_id, _id   FROM r",
      no_error,
    )
unfolding translate
unbound = refl
