-- ===== src/Base/Outcome.antt =====
-- The result of code that may throw. An exception is known by its class; the text that `what()`
-- gives for it is chosen by the library that throws it.
use mathlib.Core.Path.{◌≡◌}

pub data Exception : Type 0 where
  -- `nlohmann::json::type_error` and `parse_error`
  json_error : Exception
  -- `pqxx::sql_error`
  sql_error : Exception
  -- any other `std::exception` of the database client, such as an unexpected row count
  client_error : Exception

pub data Result {ℓ} (A : Type ℓ) : Type ℓ where
  ok : A → Result A
  throw : Exception → Result A

infixl 5 ◌>>=◌
abbrev pub ◌>>=◌ {ℓ κ} : {A : Type ℓ} {B : Type κ} → Result A → (A → Result B) → Result B
ok a >>= f = f a
throw e >>= f = throw e

-- What holds of the value, if there is one.
abbrev pub Ensures {ℓ} : {A : Type ℓ} → (A → Type 0) → Result A → Type 0
Ensures P (ok a) = P a
Ensures P (throw e) = Unit {0}

pub Ensures-bind {ℓ κ} :
    {A : Type ℓ} {B : Type κ} (P : A → Type 0) (Q : B → Type 0) (r : Result A) (f : A → Result B)
    → Ensures P r
    → ((a : A) → P a → Ensures Q (f a))
    → Ensures Q (r >>= f)
Ensures-bind P Q (ok a) f h k = k a h
Ensures-bind P Q (throw e) f h k = tt

pub Ensures-ok {ℓ} :
    {A : Type ℓ} (P : A → Type 0) (r : Result A) {a : A} → Ensures P r → r ≡ ok a → P a
Ensures-ok P r h e = rw e at h

pub Ensures-any {ℓ} : {A : Type ℓ} (r : Result A) → Ensures (λ _. Unit {0}) r
Ensures-any (ok a) = tt
Ensures-any (throw e) = tt
