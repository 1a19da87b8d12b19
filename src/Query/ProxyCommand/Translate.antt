-- ===== src/Query/ProxyCommand/Translate.antt =====
-- `ProxyCommand::Translate`: the passes in their order.
use mathlib.Core.Option
use pg_fort.Base.{◌∷◌, [], List, Option, none, some, Text}
use pg_fort.Common.{Error, no_error}
use pg_fort.Query.ProxyCommand.Rewriting.{Output, text, fails}
use pg_fort.Query.ProxyCommand.Replacing.{
  remove_comments, translate_enable_access_control, translate_create_access_permission,
  translate_bind_access_role, translate_list_access_role_binding,
}
use pg_fort.Query.ProxyCommand.Searching.{
  translate_create_access_role, translate_create_access_inheritance,
  translate_list_access_permission, translate_list_access_role, translate_list_access_inheritance,
  translate_unbind_access_role,
}

abbrev pub CommandPass : Type 0
CommandPass = Text → Option Output

abbrev pub then_pass : Option Output → (Text → Option Output) → Option Output
then_pass none next = none
then_pass (some (fails e)) next = some (fails e)
then_pass (some (text t)) next = next t

-- Each pass translates what the pass before it has made, and the first error ends the chain.
unfoldable pub run_passes : List CommandPass → Text → Option Output
run_passes [] t = some (text t)
run_passes (p ∷ ps) t = then_pass (p t) (λ t'. run_passes ps t')

-- The passes behind the first.
unfoldable pub commands : List CommandPass
unfolding translate_enable_access_control translate_create_access_permission
    translate_create_access_role translate_create_access_inheritance
    translate_list_access_permission translate_list_access_role_binding translate_list_access_role
    translate_list_access_inheritance translate_bind_access_role translate_unbind_access_role
commands =
    translate_enable_access_control ∷ translate_create_access_permission
    ∷ translate_create_access_role ∷ translate_create_access_inheritance
    ∷ translate_list_access_permission ∷ translate_list_access_role_binding
    ∷ translate_list_access_role ∷ translate_list_access_inheritance ∷ translate_bind_access_role
    ∷ translate_unbind_access_role ∷ []

unfoldable pub passes : List CommandPass
unfolding remove_comments commands
passes = remove_comments ∷ commands

-- An error leaves the query as it was.
abbrev pub answer : Text → Output → Text × Error
answer query (text t) = (t, no_error)
answer query (fails e) = (query, e)

unfoldable pub translate : Text → Option (Text × Error)
unfolding passes run_passes
translate query = Option.map (answer query) (run_passes passes query)

-- The fuel is enough, so the default is never taken.
abbrev pub or_default : Text × Error → Option (Text × Error) → Text × Error
or_default d none = d
or_default d (some a) = a

unfoldable pub translated : Text → Text × Error
unfolding translate
translated query = or_default (query, no_error) (translate query)
