-- ===== src/Session/Plugins/Tree.antt =====
-- Access to parse trees as the plugins write it. `operator[]` of a tree inserts null under a key that
-- is missing, so a read gives the value and what the tree has become.
use pg_fort.Base.{ℕ, zero, suc, List, [], ◌∷◌, Text, Result, ok, throw, json_error, ◌>>=◌, length}
use pg_fort.Query.Json.{
  Json, null, array, object, Items, nil, cons, Fields, end, field, at_key, put_key,
}

item_list : Items → List Json
item_list nil = []
item_list (cons v xs) = v ∷ item_list xs

field_list : Fields → List Json
field_list end = []
field_list (field k v fs) = v ∷ field_list fs

-- The values that `items()` walks over.
unfoldable pub item_values : Json → List Json
unfolding item_list field_list
item_values (array xs) = item_list xs
item_values (object fs) = field_list fs
item_values null = []
item_values j = j ∷ []

unfoldable pub size_of : Json → ℕ
unfolding item_values
size_of j = length (item_values j)

nth_item : ℕ → Items → Json
nth_item i nil = null
nth_item zero (cons v xs) = v
nth_item (suc i) (cons v xs) = nth_item i xs

-- `j[i]`: null past the end, an exception where `j` is neither an array nor null.
unfoldable pub at_index : ℕ → Json → Result Json
unfolding nth_item
at_index i (array xs) = ok (nth_item i xs)
at_index i null = ok null
at_index i _ = throw json_error

-- `j[k][l]`, with what `j` has become.
unfoldable pub at_path : Text → Text → Json → Result (Json × Json)
unfolding at_key put_key
at_path k l j = do a ← at_key k j; v ← at_key l a; ok (v, put_key k (put_key l v a) j)

module _ {S : Type 0} (visit : Json → S → Result (S × Json)) where
  unfoldable pub for_all_items : Items → S → Result (S × Items)
  for_all_items nil s = ok (s, nil)
  for_all_items (cons v xs) s = do
    (s', v') ← visit v s
    (s'', xs') ← for_all_items xs s'
    ok (s'', cons v' xs')

  unfoldable pub for_all_fields : Fields → S → Result (S × Fields)
  for_all_fields end s = ok (s, end)
  for_all_fields (field k v fs) s = do
    (s', v') ← visit v s
    (s'', fs') ← for_all_fields fs s'
    ok (s'', field k v' fs')

  -- `for (auto& [_, v] : j.items())`
  unfoldable pub for_items : Json → S → Result (S × Json)
  unfolding for_all_items for_all_fields
  for_items (array xs) s = do (s', xs') ← for_all_items xs s; ok (s', array xs')
  for_items (object fs) s = do (s', fs') ← for_all_fields fs s; ok (s', object fs')
  for_items null s = ok (s, null)
  for_items j s = visit j s
