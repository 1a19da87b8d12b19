-- ===== src/Session/Startup.antt =====
-- The StartupMessage in `Session::Initiate` (lib/session/session.cpp): pairs of C strings behind
-- the length and the protocol version, up to an empty name.
pub mod Message
pub mod Database
use pg_fort.Base.{
  ℕ, zero, suc, ◌≡◌, Bool, true, false, not, ◌&&◌, List, [], ◌∷◌, Option, none, some, Text, codes,
  text_eq, c_str, length, drop, get_or, ◌==◌, if◌then◌else◌,
}
use pg_fort.Base.Dict.{Dict, insert, contains}

-- The body of the loop: the parameter, and the user's name for a database that is not named yet.
unfoldable pub add_parameter : Text → Text → Dict Text → Dict Text
add_parameter pname pval d =
    let d' = insert pname pval d in
    if text_eq pname (codes "user") && not (contains (codes "database") d')
    then insert (codes "database") pval d'
    else d'

abbrev pub past : Text → Text
past t = drop (suc (length (c_str t))) t

-- `while (data[pos])`: `none` means that the fuel ran out.
unfoldable pub read_parameters : ℕ → Text → Dict Text → Option (Dict Text)
unfolding add_parameter
read_parameters zero t d = none
read_parameters (suc f) t d =
    let more = read_parameters f (past (past t)) (add_parameter (c_str t) (c_str (past t)) d) in
    if get_or t 0 0 == 0 then some d else more
