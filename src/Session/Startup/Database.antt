-- ===== src/Session/Startup/Database.antt =====
-- Which database a session uses.
use pg_fort.Base.{
  ◌++◌, length, suc, text_eq_refl, ◌≡◌, refl, false, List, [], ◌∷◌, Option, none, some, Text, codes,
  text_eq, text_eq_iff, if◌then◌else◌, arith,
}
use pg_fort.Base.Dict.{
  Dict, lookup, insert, lookup-insert, contains-insert, contains-lookup, lookup-contains,
}
use pg_fort.Query.Json.{or_else}
use pg_fort.Session.Startup.{add_parameter, read_parameters}
use pg_fort.Session.Startup.Message.{add_parameters, pair_bytes, ArePairs, read_parameters_lem}

abbrev pub last_value : Text → List (Text × Text) → Option Text
last_value k [] = none
last_value k ((n, v) ∷ ps) = or_else (last_value k ps) (if text_eq n k then some v else none)

abbrev pub first_value : Text → List (Text × Text) → Option Text
first_value k [] = none
first_value k ((n, v) ∷ ps) = if text_eq n k then some v else first_value k ps

abbrev pub user : Text
user = codes "user"

abbrev pub database : Text
database = codes "database"

user_ne_database : text_eq user database ≡ false
unfolding text_eq
user_ne_database = refl

lookup-add_parameter :
    (n v : Text) (d : Dict Text)
    → lookup database (add_parameter n v d) ≡ (
        if text_eq n database
        then some v
        else or_else (lookup database d) (if text_eq n user then some v else none))
unfolding add_parameter
lookup-add_parameter n v d = ground (
  arith,
  text_eq_iff n database,
  text_eq_iff n user,
  user_ne_database,
  lookup-insert database database v (insert n v d),
  lookup-insert n database v d,
  contains-insert n database v d,
  contains-lookup database d,
  lookup-contains database d,
  text_eq_refl database,
)

lookup-add_parameters :
    (ps : List (Text × Text)) (d : Dict Text)
    → lookup database (add_parameters ps d)
      ≡ or_else (last_value database ps) (or_else (lookup database d) (first_value user ps))
lookup-add_parameters [] d = ground arith
lookup-add_parameters ((n, v) ∷ ps) d =
    ground (arith, lookup-add_parameters ps (add_parameter n v d), lookup-add_parameter n v d)

-- The session's database is the last that the StartupMessage names, and the first user name where it
-- names none. The message is read to its end, and nothing behind the end counts.
pub read_parameters-database :
    (ps : List (Text × Text)) (rest : Text)
    → ArePairs ps
    → (d : Dict Text) × (read_parameters
          (suc (length (pair_bytes ps ++ 0 ∷ rest)))
          (pair_bytes ps ++ 0 ∷ rest)
          []
        ≡ some d)
      × (lookup database d ≡ or_else (last_value database ps) (first_value user ps))
unfolding lookup
read_parameters-database ps rest h =
    (add_parameters ps [], read_parameters_lem ps rest h, lookup-add_parameters ps [])
