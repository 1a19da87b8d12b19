-- ===== src/Query/Json.antt =====
-- The values of `nlohmann::json` as the sources use them, and lib/query/include/query/jsonutil.h.
-- An object is a `std::map`, so its fields stand in the order of their keys and `items()` walks them
-- so; over an array `items()` gives each index in decimal as the key. A value that is primitive has
-- no items that matter: its one item has the empty key and a primitive value. Numbers are texts.
pub mod Access
pub mod Find
pub mod First
use pg_fort.Base.{
  ℕ, suc, ◌≡◌, Bool, true, false, Option, none, some, Text, codes, text_eq, text_ltb, decimal,
  if◌then◌else◌, Result, ok, throw, json_error,
}

mutual
  pub data Json : Type 0 where
    null : Json
    boolean : Bool → Json
    number : Text → Json
    string : Text → Json
    array : Items → Json
    object : Fields → Json

  pub data Items : Type 0 where
    nil : Items
    cons : Json → Items → Items

  pub data Fields : Type 0 where
    end : Fields
    field : Text → Json → Fields → Fields

unfoldable pub is_primitive : Json → Bool
is_primitive (array xs) = false
is_primitive (object fs) = false
is_primitive _ = true

-- A lookup in the map of an object.
unfoldable pub get_field : Text → Fields → Option Json
get_field key end = none
get_field key (field k v fs) = if text_eq k key then some v else get_field key fs

-- `map[key] = x`
unfoldable pub set_field : Text → Json → Fields → Fields
set_field key x end = field key x end
set_field key x (field k v fs) =
    if text_eq k key
    then field k x fs
    else if text_ltb key k
    then field key x (field k v fs)
    else field k v (set_field key x fs)

abbrev pub or_null : Option Json → Json
or_null none = null
or_null (some v) = v

-- The value of `j[key]`: null where the key is missing, an exception where `j` is neither an object
-- nor null.
unfoldable pub at_key : Text → Json → Result Json
at_key key (object fs) = ok (or_null (get_field key fs))
at_key key null = ok null
at_key key _ = throw json_error

-- What `j` is after `j[key] = x`. Where `j[key]` is only read, `x` is its value: a missing key is
-- then inserted with null.
unfoldable pub put_key : Text → Json → Json → Json
put_key key x (object fs) = object (set_field key x fs)
put_key key x null = object (field key x end)
put_key key x j = j

-- `j.contains(key)`
unfoldable pub has_key : Text → Json → Bool
has_key key (object fs) = elim (get_field key fs) [ none ↦ false | some v ↦ true ]
has_key key _ = false

-- `j.get<std::string>()` and `j.get<bool>()`
unfoldable pub get_string : Json → Result Text
get_string (string s) = ok s
get_string _ = throw json_error

unfoldable pub get_bool : Json → Result Bool
get_bool (boolean b) = ok b
get_bool _ = throw json_error

-- `j == "…"`
unfoldable pub is_string : Text → Json → Bool
is_string t (string s) = text_eq s t
is_string t _ = false

-- A node inside a value, as the pointer that `FindNode` returns: the node, and the value that
-- results from writing another one there.
abbrev pub Pointer : Type 0 → Type 0
Pointer A = Json × (Json → A)

abbrev pub inside {ℓ} :
    {A B : Type ℓ} → (A → B) → Option (Json × (Json → A)) → Option (Json × (Json → B))
inside wrap none = none
inside wrap (some (n, put)) = some (n, λ x. wrap (put x))

abbrev pub or_else {ℓ} : {A : Type ℓ} → Option A → Option A → Option A
or_else none o = o
or_else (some a) o = some a

-- `JsonUtil::FindNode`: the first node under `key`, depth first.
unfoldable mutual
  pub find_node : Text → Json → Option (Pointer Json)
  find_node key (array xs) = inside array (find_items key 0 xs)
  find_node key (object fs) = inside object (find_fields key fs)
  find_node key null = none
  find_node key (boolean b) = none
  find_node key (number n) = none
  find_node key (string s) = none

  pub find_items : Text → ℕ → Items → Option (Pointer Items)
  find_items key i nil = none
  find_items key i (cons v xs) =
      let below = inside (λ x. cons x xs) (find_node key v) in
      let later = inside (cons v) (find_items key (suc i) xs) in
      if text_eq (decimal i) key then some (v, λ x. cons x xs) else or_else below later

  pub find_fields : Text → Fields → Option (Pointer Fields)
  find_fields key end = none
  find_fields key (field k v fs) =
      let below = inside (λ x. field k x fs) (find_node key v) in
      let later = inside (field k v) (find_fields key fs) in
      if text_eq k key then some (v, λ x. field k x fs) else or_else below later
