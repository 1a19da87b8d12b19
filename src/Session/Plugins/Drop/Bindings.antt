-- ===== src/Session/Plugins/Drop/Bindings.antt =====
-- `DropTablePlugIn`: the binding tables that a DROP TABLE takes with it.
use pg_fort.Base.{
  ◌≡◌, refl, sym, ap, ◌∙◌, true, List, [], ◌∷◌, ◌++◌, some, Text, codes, text_eq, if◌then◌else◌, ok,
  Bool-cases, inl, inr,
}
use pg_fort.Schema.Tracker.{SchemaTracker, exist}
use pg_fort.Query.Json.{Json, string, array, Items, nil, cons, find_node, is_string}
use pg_fort.Query.Json.Find.{find_node-IsPlace, IsPlace}
use pg_fort.Session.{Session, World, with_query}
use pg_fort.Session.Plugins.Nodes.{Holds, AreItems}
use pg_fort.Session.Plugins.Tree.{item_values}
use pg_fort.Session.Plugins.Drop.{
  object_list, drop_name, drop_names, push_objects, add_item, test_drop, on_drop, drop_table,
  on_names, on_tracker, on_objects, on_remove_type,
}

abbrev pub object_items : List Text → Items
object_items [] = nil
object_items (t ∷ ts) = cons (object_list t) (object_items ts)

-- The objects of a statement that drops tables: each is named by a list, of which the plugin reads
-- the first part.
abbrev pub AreObjects : List Text → Items → Type 0
AreObjects names xs = AreItems (λ t v. drop_name v ≡ ok t) names xs

-- The node of a statement that drops tables.
abbrev pub DropsTables : List Text → Items → Json → Type 0
DropsTables names xs n =
    Holds (codes "removeType") (string (codes "OBJECT_TABLE")) n
    × Holds (codes "objects") (array xs) n
    × AreObjects names xs

abbrev pub append_items : Items → Items → Items
append_items nil ys = ys
append_items (cons v xs) ys = cons v (append_items xs ys)

-- The binding tables of the tables under access control.
abbrev pub bindings : SchemaTracker → List Text → List Text
bindings st [] = []
bindings st (t ∷ ts) =
    if exist t st then (t ++ codes "__access_bindings__") ∷ bindings st ts else bindings st ts

drop_names-objects :
    (st : SchemaTracker) (ts : List Text) (xs : Items)
    → AreObjects ts xs
    → drop_names st (item_values (array xs)) ≡ ok (bindings st ts)
unfolding drop_names item_values
drop_names-objects st [] nil h = refl
drop_names-objects st [] (cons v xs) h = absurd h
drop_names-objects st (t ∷ ts) nil h = absurd h
drop_names-objects st (t ∷ ts) (cons v xs) h = elim (Bool-cases (exist t st)) [
  | inl e ↦ rw (h.0, drop_names-objects st ts xs h.1, e) refl
  | inr e ↦ rw (h.0, drop_names-objects st ts xs h.1, e) refl
]

add_item-append :
    (v : Json) (xs ys : Items) → append_items (add_item v xs) ys ≡ append_items xs (cons v ys)
unfolding add_item
add_item-append v nil ys = refl
add_item-append v (cons w xs) ys = ap (cons w) (add_item-append v xs ys)

append_items-nil : (xs : Items) → append_items xs nil ≡ xs
append_items-nil nil = refl
append_items-nil (cons v xs) = ap (cons v) (append_items-nil xs)

pub push_objects-append :
    (new : List Text) (xs : Items)
    → push_objects new (array xs) ≡ ok (array (append_items xs (object_items new)))
unfolding push_objects
push_objects-append [] xs = rw (append_items-nil xs) refl
push_objects-append (t ∷ new) xs =
    rw
      (
        push_objects-append new (add_item (object_list t) xs),
        add_item-append (object_list t) xs (object_items new),
      )
      refl

on_tracker-some :
    (w : World) (s : Session) (n : Json) (put : Json → Json) (objs : List Json) (st : SchemaTracker)
    → on_tracker w s n put objs (some st) ≡ on_names w s n put (drop_names st objs)
unfolding on_tracker
on_tracker-some w s n put [] st = refl
on_tracker-some w s n put (obj ∷ objs) st = refl

same_query :
    (s : Session) (j : Json)
    → s.context.query.valid ≡ true
    → j ≡ s.context.query.json
    → with_query s (record { valid = true; json = j }) ≡ s
same_query s j v e =
    ap (λ b. with_query s (record { valid = b; json = j })) (sym v)
    ∙ ap (λ x. with_query s (record { valid = s.context.query.valid; json = x })) e

on_drop-tracker :
    (w : World) (s : Session) (names : List Text) (xs : Items) (n : Json) (put : Json → Json)
    → DropsTables names xs n
    → on_drop w s (some (n, put))
      ≡ on_tracker w
          (with_query s (record { valid = true; json = put n }))
          n
          put
          (item_values (array xs))
          s.st
unfolding on_drop on_remove_type on_objects is_string text_eq
on_drop-tracker w s names xs n put ((typed, same), (listed, same'), h) =
    rw (typed, same, listed, same') refl

put-found :
    (key : Text) (j n : Json) (put : Json → Json) → find_node key j ≡ some (n, put) → put n ≡ j
put-found key j n put found =
    let place : IsPlace (find_node key) j (some (n, put)) = rw found at (find_node-IsPlace key j) in
    place.0

-- The plugin comes down to the test for the binding tables.
pub drop_table-test :
    (w : World) (s : Session) (st : SchemaTracker) (names : List Text) (xs : Items) (n : Json)
    (put : Json → Json)
    → s.context.query.valid ≡ true
    → s.st ≡ some st
    → find_node (codes "DropStmt") s.context.query.json ≡ some (n, put)
    → DropsTables names xs n
    → drop_table w s ≡ test_drop w s n put (bindings st names)
unfolding drop_table on_names
drop_table-test w s st names xs n put v tracked found drops =
    let same =
      same_query s (put n) v (put-found (codes "DropStmt") s.context.query.json n put found) in
    let start : drop_table w s ≡ on_drop w s (some (n, put)) = rw (v, found) refl in
    let (_, _, objects) = drops in
    start
    ∙ on_drop-tracker w s names xs n put drops
    ∙ ap (λ x. on_tracker w x n put (item_values (array xs)) s.st) same
    ∙ ap (on_tracker w s n put (item_values (array xs))) tracked
    ∙ on_tracker-some w s n put (item_values (array xs)) st
    ∙ ap (on_names w s n put) (drop_names-objects st names xs objects)

-- The statement with the binding tables added, as it is tested.
abbrev pub test_tree : (Json → Json) → SchemaTracker → List Text → Items → Json
test_tree put st names xs = put (array (append_items xs (object_items (bindings st names))))
