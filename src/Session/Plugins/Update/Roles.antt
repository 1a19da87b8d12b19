-- ===== src/Session/Plugins/Update/Roles.antt =====
-- `UpdateParametersPlugIn`: the user and the role attribute that a SET ROLE leaves.
use pg_fort.Base.{◌≡◌, refl, true, some, Text, codes, text_eq, Result, ok, throw, ◌==◌, [], ◌∷◌}
use pg_fort.Base.Dict.{lookup-insert_self, lookup-insert, insert}
use pg_fort.Common.{no_error}
use pg_fort.Query.Json.{is_string, get_string, at_key, put_key, Json, string, find_node}
use pg_fort.Session.Plugins.Nodes.{Holds, At}
use pg_fort.Session.Plugins.Tree.{at_index}
use pg_fort.Query.Statement.{Query}
use pg_fort.Session.{rolsuper_query, Session, World, done, thrown, Ran, parameter, with_query}
use pg_fort.Session.Plugins.Rewrite.{first_byte}
use pg_fort.Session.Plugins.Update.{
  update_parameters, on_set_name, refresh_rolsuper, on_rolsuper, role_of,
}

-- The node of a statement that sets the role by a string: what `args` begins with is the constant.
abbrev pub SetsRole : Text → Json → Type 0
SetsRole role n =
    (args : Json) × (first : Json) × Holds (codes "name") (string (codes "role")) n
    × (at_key (codes "args") n ≡ ok args)
    × (at_index 0 args ≡ ok first)
    × At (codes "A_Const" ∷ codes "val" ∷ codes "String" ∷ codes "str" ∷ []) (string role) first

role_of-role : (role : Text) (n : Json) → SetsRole role n → role_of n ≡ ok role
unfolding role_of get_string
role_of-role role n (args, first, _, a, i, (c, p, (v, q, (s, r, (t, e, is_role))))) =
    rw (a, i, p, q, r, e, is_role) refl

-- How the plugin is to end for a role: the user is the role, and the attribute is that of the
-- role. Where the attribute cannot be read, the one of the user before is kept.
abbrev pub RoleSet : Text → Session → Result Text → Ran → Type 0
RoleSet role s (ok v) r =
    (t : Session) × (r ≡ done t no_error)
    × (parameter (codes "user") t ≡ role)
    × (parameter (codes "rolsuper") t ≡ v)
RoleSet role s (throw e) r =
    (t : Session) × (r ≡ thrown t e)
    × (parameter (codes "user") t ≡ role)
    × (parameter (codes "rolsuper") t ≡ parameter (codes "rolsuper") s)

on_rolsuper-RoleSet :
    (role : Text) (s : Session) (q : Query) (r : Result Text)
    → RoleSet role s r (
        on_rolsuper
          (record (with_query s q) { parameters = insert (codes "user") role s.parameters })
          r)
unfolding on_rolsuper parameter text_eq
on_rolsuper-RoleSet role s q (ok v) =
    let ps = insert (codes "user") role s.parameters in
    (
      record (with_query s q) { parameters = insert (codes "rolsuper") v ps },
      refl,
      rw
          (
            lookup-insert (codes "rolsuper") (codes "user") v ps,
            lookup-insert_self (codes "user") role s.parameters,
          )
          refl,
      rw (lookup-insert_self (codes "rolsuper") v ps) refl,
    )
on_rolsuper-RoleSet role s q (throw e) = (
  record (with_query s q) { parameters = insert (codes "user") role s.parameters },
  refl,
  rw (lookup-insert_self (codes "user") role s.parameters) refl,
  rw (lookup-insert (codes "user") (codes "rolsuper") role s.parameters) refl,
)

on_set_name-role :
    (w : World) (s : Session) (role : Text) (n : Json) (put : Json → Json)
    → SetsRole role n
    → (first_byte s.context.response == b'C') ≡ true
    → on_set_name w s n put (ok (string (codes "role")))
      ≡ refresh_rolsuper w (with_query s (record { valid = true; json = put n })) (ok role)
unfolding on_set_name text_eq is_string
on_set_name-role w s role n put sets c =
    let same : put_key (codes "name") (string (codes "role")) n ≡ n = sets.2.1 in
    rw (c, same, role_of-role role n sets) refl

-- A completed SET ROLE by a string, with a connection to spare: the session's user becomes the role,
-- and its superuser attribute what the database answers to the statement that asks for that of the
-- role. If it cannot answer, the plugin throws with the new user and the old attribute in place.
pub update_parameters_lem :
    (w : World) (s : Session) (role : Text) (n : Json) (put : Json → Json)
    → s.context.query.valid ≡ true
    → find_node (codes "VariableSetStmt") s.context.query.json ≡ some (n, put)
    → SetsRole role n
    → (first_byte s.context.response == b'C') ≡ true
    → w.acquired ≡ true
    → RoleSet role s (w.exec_rolsuper (rolsuper_query role)) (update_parameters w s)
unfolding update_parameters refresh_rolsuper
update_parameters_lem w s role n put valid found sets complete free =
    let named : at_key (codes "name") n ≡ ok (string (codes "role")) = sets.2.0 in
    rw (valid, found, named, on_set_name-role w s role n put sets complete, free)
      (on_rolsuper-RoleSet role _ _ (w.exec_rolsuper (rolsuper_query role)))
