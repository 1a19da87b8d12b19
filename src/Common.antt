-- ===== src/Common.antt =====
-- lib/common/include/common/error.h: an error is a map of protocol fields, and the empty map means
-- that there is none.
use mathlib.Core.List.{[], ◌∷◌, ◌++◌}
use mathlib.Core.Bool.{Bool, true, false}
use pg_fort.Base.{Text, codes}
use pg_fort.Base.Dict.{Dict}

abbrev pub Error : Type 0
Error = Dict Text

-- `__FILE__` in the build that the Dockerfile describes, for a file of lib.
abbrev pub source_file : Text → Text
source_file t = codes "/src/src/lib/" ++ t

abbrev pub no_error : Error
no_error = []

-- `explicit operator bool`: an error is present when the map is not empty.
unfoldable pub is_error : Error → Bool
is_error [] = false
is_error (f ∷ fs) = true
