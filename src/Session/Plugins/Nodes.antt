-- ===== src/Session/Plugins/Nodes.antt =====
-- Parts of a parse tree, as the plugins read them: what else stands in a node does not matter.
use pg_fort.Base.{◌≡◌, List, [], ◌∷◌, Text, ok}
use pg_fort.Query.Json.{Json, null, array, Items, nil, cons, at_key, put_key}

-- The node `n` has `v` under `k`, and reading it there leaves the node as it is.
abbrev pub Holds : Text → Json → Json → Type 0
Holds k v n = (at_key k n ≡ ok v) × (put_key k v n ≡ n)

-- The value at the end of a path of keys.
abbrev pub At : List Text → Json → Json → Type 0
At [] v n = n ≡ v
At (k ∷ ks) v n = (w : Json) × (at_key k n ≡ ok w) × At ks v w

-- An array of nodes that are described one by one; an empty one may be missing.
module _ {A : Type 0} (Describes : A → Json → Type 0) where
  abbrev pub AreItems : List A → Items → Type 0
  AreItems [] nil = Unit {0}
  AreItems (b ∷ bs) (cons v xs) = Describes b v × AreItems bs xs
  AreItems [] (cons v xs) = ⊥
  AreItems (b ∷ bs) nil = ⊥

  abbrev pub AreListed : List A → Json → Type 0
  AreListed bs (array xs) = AreItems bs xs
  AreListed [] null = Unit {0}
  AreListed _ _ = ⊥
