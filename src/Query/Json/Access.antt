-- ===== src/Query/Json/Access.antt =====
-- Reading back what was written under a key.
use pg_fort.Base.{◌≡◌, refl, some, Text, text_eq, text_eq_iff, arith, if◌then◌else◌, ok}
use pg_fort.Query.Json.{Json, object, Fields, end, field, get_field, set_field, at_key, put_key}

pub get_field-set_field :
    (k j : Text) (x : Json) (fs : Fields)
    → get_field j (set_field k x fs) ≡ (if text_eq k j then some x else get_field j fs)
unfolding get_field set_field
get_field-set_field k j x end = refl
get_field-set_field k j x (field i w fs) =
    ground (arith, text_eq_iff k j, text_eq_iff i k, text_eq_iff i j, get_field-set_field k j x fs)

-- `j[k] = x` is read back under `k`, and leaves the values under all other keys as they were.
pub at_key-put_key :
    (k i : Text) (x : Json) (fs : Fields)
    → at_key i (put_key k x (object fs)) ≡ (if text_eq k i then ok x else at_key i (object fs))
unfolding at_key put_key
at_key-put_key k i x fs = ground (arith, get_field-set_field k i x fs)
