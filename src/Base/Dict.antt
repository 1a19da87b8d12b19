-- ===== src/Base/Dict.antt =====
-- `std::unordered_map<std::string, V>` as an association list with one entry for each key.
use mathlib.Core.Logic.{inl, inr}
use mathlib.Core.Option.{Option, none, some}
use mathlib.Core.Bool.{Bool, true, false}
use mathlib.Core.Path.{◌≡◌, refl}
use mathlib.Core.List.{List, [], ◌∷◌}
use native.Mathlib.Omega.{arith}
use pg_fort.Base.Tests.{Bool-cases, if◌then◌else◌}
use pg_fort.Base.Texts.{Text, text_eq, text_eq_iff, text_eq_refl}

abbrev pub Dict {ℓ} : Type ℓ → Type ℓ
Dict V = List (Text × V)

module _ {ℓ} {V : Type ℓ} where
  unfoldable pub lookup : Text → Dict V → Option V
  lookup k [] = none
  lookup k ((j, v) ∷ m) = if text_eq j k then some v else lookup k m

  unfoldable pub contains : Text → Dict V → Bool
  contains k [] = false
  contains k ((j, v) ∷ m) = if text_eq j k then true else contains k m

  -- `m[k] = v`
  unfoldable pub insert : Text → V → Dict V → Dict V
  insert k v [] = (k, v) ∷ []
  insert k v ((j, w) ∷ m) = if text_eq j k then (j, v) ∷ m else (j, w) ∷ insert k v m

  pub lookup-insert :
      (k j : Text) (v : V) (m : Dict V)
      → lookup j (insert k v m) ≡ (if text_eq k j then some v else lookup j m)
  unfolding lookup insert
  lookup-insert k j v [] = refl
  lookup-insert k j v ((i, w) ∷ m) =
      ground (arith, text_eq_iff k j, text_eq_iff i k, text_eq_iff i j, lookup-insert k j v m)

  pub contains-insert :
      (k j : Text) (v : V) (m : Dict V)
      → contains j (insert k v m) ≡ (if text_eq k j then true else contains j m)
  unfolding contains insert
  contains-insert k j v [] = refl
  contains-insert k j v ((i, w) ∷ m) =
      ground (arith, text_eq_iff k j, text_eq_iff i k, text_eq_iff i j, contains-insert k j v m)

  pub lookup-insert_self : (k : Text) (v : V) (m : Dict V) → lookup k (insert k v m) ≡ some v
  lookup-insert_self k v m = simp (lookup-insert, text_eq_refl)

  pub contains-lookup : (k : Text) (m : Dict V) → contains k m ≡ false → lookup k m ≡ none
  unfolding contains lookup
  contains-lookup k [] h = refl
  contains-lookup k ((j, v) ∷ m) h = ground (arith, contains-lookup k m)

  pub lookup-contains :
      (k : Text) (m : Dict V) → contains k m ≡ true → (v : V) × (lookup k m ≡ some v)
  unfolding contains lookup
  lookup-contains k [] h = cc
  lookup-contains k ((j, v) ∷ m) h = elim (Bool-cases (text_eq j k)) [
    | inl e ↦ (v, rw e)
    | inr e ↦ let (w, p) = lookup-contains k m (ground arith) in (w, rw (e, p))
  ]
