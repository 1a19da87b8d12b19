-- ===== src/Session/Plugins/Drop.antt =====
-- `DropTablePlugIn`.
pub mod Bindings
pub mod Outcome
use pg_fort.Base.{
  true, List, [], ◌∷◌, ◌++◌, Option, none, some, Text, codes, if◌then◌else◌, Result, ok, throw,
  Exception, json_error, sql_error, ◌>>=◌,
}
use pg_fort.Common.{no_error}
use pg_fort.Conn.Message.{set_query}
use pg_fort.Schema.Tracker.{SchemaTracker, exist}
use pg_fort.Query.Json.{
  Json, null, string, array, Items, nil, cons, at_key, put_key, get_string, is_string, find_node,
  Pointer,
}
use pg_fort.Query.Acler.{one_field, str, list_of}
use pg_fort.Query.Statement.{Query, to_string}
use pg_fort.Session.{Session, World, Ran, done, thrown, crashed, with_query, with_request}
use pg_fort.Session.Plugins.Tree.{item_values, at_index}

-- `obj["List"]["items"][0]["String"]["str"].get<std::string>()`
unfoldable pub drop_name : Json → Result Text
unfolding at_index
drop_name obj = do
  l ← at_key (codes "List") obj
  items ← at_key (codes "items") l
  first ← at_index 0 items
  s ← at_key (codes "String") first
  t ← at_key (codes "str") s
  get_string t

-- The binding tables of the tables that are dropped.
unfoldable pub drop_names : SchemaTracker → List Json → Result (List Text)
unfolding drop_name
drop_names st [] = ok []
drop_names st (obj ∷ objs) = do
  tn ← drop_name obj
  names ← drop_names st objs
  ok (if exist tn st then (tn ++ codes "__access_bindings__") ∷ names else names)

unfoldable pub add_item : Json → Items → Items
add_item j nil = cons j nil
add_item j (cons v xs) = cons v (add_item j xs)

-- The JSON value that names a table in a DROP statement.
abbrev pub object_list : Text → Json
object_list tn =
    one_field (codes "List") (one_field (codes "items") (array (list_of (str tn ∷ []))))

-- `objs->push_back(…)`
unfoldable pub add_object : Text → Json → Result Json
unfolding add_item
add_object tn (array xs) = ok (array (add_item (object_list tn) xs))
add_object tn null = ok (array (cons (object_list tn) nil))
add_object tn _ = throw json_error

unfoldable pub push_objects : List Text → Json → Result Json
unfolding add_object
push_objects [] j = ok j
push_objects (tn ∷ names) j = do j' ← add_object tn j; push_objects names j'

-- The node of the test query that the names are added to; a null pointer ends the process.
unfoldable pub test_objects : List Text → Option (Pointer Json) → Option (Result Json)
test_objects names none = none
test_objects names (some (objs, put)) = some (do objs' ← push_objects names objs; ok (put objs'))

-- `(*n)["behavior"] = "DROP_CASCADE"`, and the request becomes the new text.
unfoldable pub cascade : World → Session → Json → (Json → Json) → Ran
cascade w s n put =
    let q : Query = record {
      valid = true;
      json = put (put_key (codes "behavior") (string (codes "DROP_CASCADE")) n);
    } in
    elim (to_string w.deparse q) [
      | none ↦ crashed
      | some t ↦ done (with_request (with_query s q) (set_query t)) no_error
    ]

-- The answer of the database to the test query. A `pqxx::sql_error` is caught.
unfoldable pub on_test : World → Session → Json → (Json → Json) → Option Exception → Ran
unfolding cascade
on_test w s n put none = cascade w s n put
on_test w s n put (some sql_error) = done s no_error
on_test w s n put (some e) = thrown s e

unfoldable pub run_test : World → Session → Json → (Json → Json) → Option Text → Ran
run_test w s n put none = crashed
run_test w s n put (some t) = if w.acquired then on_test w s n put (w.exec_test t) else crashed

unfoldable pub on_test_tree : World → Session → Json → (Json → Json) → Option (Result Json) → Ran
on_test_tree w s n put none = crashed
on_test_tree w s n put (some (throw e)) = thrown s e
on_test_tree w s n put (some (ok j)) = run_test w s n put (w.deparse j)

-- The test: the statement with the binding tables added must not fail.
unfoldable pub test_drop : World → Session → Json → (Json → Json) → List Text → Ran
unfolding on_test_tree run_test on_test test_objects push_objects
test_drop w s n put [] = done s no_error
test_drop w s n put (tn ∷ names) =
    on_test_tree w s n put
      (test_objects (tn ∷ names) (find_node (codes "objects") s.context.query.json))

unfoldable pub on_names : World → Session → Json → (Json → Json) → Result (List Text) → Ran
on_names w s n put (throw e) = thrown s e
on_names w s n put (ok names) = test_drop w s n put names

-- Without a tracker the first table name that is looked up ends the process.
unfoldable pub on_no_tracker : Session → Result Text → Ran
on_no_tracker s (throw e) = thrown s e
on_no_tracker s (ok tn) = crashed

unfoldable pub on_tracker :
    World → Session → Json → (Json → Json) → List Json → Option SchemaTracker → Ran
on_tracker w s n put [] none = on_names w s n put (ok [])
on_tracker w s n put (obj ∷ objs) none = on_no_tracker s (drop_name obj)
on_tracker w s n put objs (some st) = on_names w s n put (drop_names st objs)

unfoldable pub on_objects : World → Session → Json → (Json → Json) → Result Json → Ran
on_objects w s n put (throw e) = thrown s e
on_objects w s n put (ok objs) =
    let n' = put_key (codes "objects") objs n in
    on_tracker w (with_query s (record { valid = true; json = put n' })) n' put (item_values objs)
      s.st

unfoldable pub on_remove_type : World → Session → Json → (Json → Json) → Result Json → Ran
on_remove_type w s n put (throw e) = thrown s e
on_remove_type w s n put (ok v) =
    let n' = put_key (codes "removeType") v n in
    if is_string (codes "OBJECT_TABLE") v
    then on_objects w s n' put (at_key (codes "objects") n')
    else done (with_query s (record { valid = true; json = put n' })) no_error

-- The statement's `DropStmt`, if it has one.
unfoldable pub on_drop : World → Session → Option (Pointer Json) → Ran
unfolding on_remove_type on_objects on_tracker on_no_tracker on_names test_drop drop_names
    item_values
on_drop w s none = done s no_error
on_drop w s (some (n, put)) = on_remove_type w s n put (at_key (codes "removeType") n)

unfoldable pub drop_table : World → Session → Ran
unfolding on_drop
drop_table w s =
    if s.context.query.valid
    then on_drop w s (find_node (codes "DropStmt") s.context.query.json)
    else done s no_error
