-- ===== src/Tests/Startup.antt =====
-- Runs of the StartupMessage's loop at concrete inputs.
use pg_fort.Base.{◌≡◌, suc, List, [], ◌∷◌, ◌++◌, some, Text, codes, length, arith}
use pg_fort.Base.Dict.{Dict, lookup}
use pg_fort.Query.Json.{or_else}
use pg_fort.Session.Startup.{read_parameters}
use pg_fort.Session.Startup.Message.{pair_bytes, ArePairs, read_parameters-total}
use pg_fort.Session.Startup.Database.{
  read_parameters-database, database, user, last_value, first_value,
}

abbrev pairs : List (Text × Text)
pairs = (codes "user", codes "ann") ∷ (codes "client_encoding", codes "UTF8") ∷ []

pairs-ArePairs : ArePairs pairs
pairs-ArePairs = (λ h. cc, ground arith, ground arith, (λ h. cc, ground arith, ground arith, tt))

read_parameters-total_example : (e : Dict Text) × (read_parameters 3 (codes "u") [] ≡ some e)
read_parameters-total_example = read_parameters-total 3 (codes "u") [] (omega arith)

read_parameters-database_example :
    (d : Dict Text) × (read_parameters
        (suc (length (pair_bytes pairs ++ 0 ∷ [])))
        (pair_bytes pairs ++ 0 ∷ [])
        []
      ≡ some d)
    × (lookup database d ≡ or_else (last_value database pairs) (first_value user pairs))
read_parameters-database_example = read_parameters-database pairs [] pairs-ArePairs
