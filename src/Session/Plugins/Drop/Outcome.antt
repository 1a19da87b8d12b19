-- ===== src/Session/Plugins/Drop/Outcome.antt =====
-- `DropTablePlugIn`: what becomes of a DROP TABLE statement.
use pg_fort.Base.{
  ◌≡◌, refl, ap, true, List, ◌∷◌, Option, none, some, Text, codes, if◌then◌else◌, ok, sql_error,
  json_error, client_error, Exception,
}
use pg_fort.Common.{no_error}
use pg_fort.Conn.Message.{set_query}
use pg_fort.Schema.Tracker.{SchemaTracker}
use pg_fort.Query.Json.{Items, string, Json, array, find_node, put_key}
use pg_fort.Query.Statement.{to_string}
use pg_fort.Session.{crashed, thrown, thrown, Session, World, Ran, done, with_query, with_request}
use pg_fort.Session.Plugins.Drop.{
  to_string, test_drop, drop_table, test_objects, on_test_tree, run_test, on_test, cascade,
}
use pg_fort.Session.Plugins.Drop.Bindings.{
  object_items, append_items, bindings, push_objects-append, DropsTables, drop_table-test,
  test_tree,
}

-- The tree becomes the session's, and its text the request; without a text the process ends.
abbrev pub Forwards : Session → Json → Option Text → Ran → Type 0
Forwards s j none r = r ≡ crashed
Forwards s j (some q) r =
    r
    ≡ done (with_request (with_query s (record { valid = true; json = j })) (set_query q)) no_error

-- How the plugin is to end when the test query answers: with the statement with CASCADE, or with the
-- session as it was.
abbrev pub Cascaded : World → Session → Json → (Json → Json) → Option Exception → Ran → Type 0
Cascaded w s n put none r =
    let j = put (put_key (codes "behavior") (string (codes "DROP_CASCADE")) n) in
    Forwards s j (w.deparse j) r
Cascaded w s n put (some sql_error) r = r ≡ done s no_error
Cascaded w s n put (some e) r = r ≡ thrown s e

test_drop-cons :
    (w : World) (s : Session) (n : Json) (put : Json → Json) (ts bs : List Text) (b : Text)
    → ts ≡ b ∷ bs
    → test_drop w s n put ts
      ≡ on_test_tree w s n put (test_objects ts (find_node (codes "objects") s.context.query.json))
unfolding test_drop
test_drop-cons w s n put ts bs b h = rw h refl

test_objects-append :
    (new : List Text) (xs : Items) (put : Json → Json)
    → test_objects new (some (array xs, put))
      ≡ some (ok (put (array (append_items xs (object_items new)))))
unfolding test_objects
test_objects-append new xs put = rw (push_objects-append new xs) refl

run_test-free :
    (w : World) (s : Session) (n : Json) (put : Json → Json) (t : Text)
    → w.acquired ≡ true
    → run_test w s n put (some t) ≡ on_test w s n put (w.exec_test t)
unfolding run_test
run_test-free w s n put t h = ap (λ b. if b then on_test w s n put (w.exec_test t) else crashed) h

on_test-Cascaded :
    (w : World) (s : Session) (n : Json) (put : Json → Json) (o : Option Exception)
    → Cascaded w s n put o (on_test w s n put o)
unfolding on_test cascade to_string
on_test-Cascaded w s n put none = go (w.deparse tree)
  where
    tree : Json
    tree = put (put_key (codes "behavior") (string (codes "DROP_CASCADE")) n)

    go :
        (o : Option Text)
        → Forwards s tree o (elim o [
          | none ↦ crashed
          | some t ↦
              done
                (with_request (with_query s (record { valid = true; json = tree })) (set_query t))
                no_error
        ])
    go none = refl
    go (some t) = refl
on_test-Cascaded w s n put (some json_error) = refl
on_test-Cascaded w s n put (some sql_error) = refl
on_test-Cascaded w s n put (some client_error) = refl

-- A DROP TABLE statement of some table under access control, with a connection to spare: the
-- statement is tested with the binding tables of all such tables added. If the database accepts the
-- test, what is forwarded is the statement itself with CASCADE, whatever it had, unless that cannot be
-- deparsed, which ends the process; if it refuses by an SQL error, the request stays as it was. The `names` are what the plugin takes for the tables'
-- names: the first part of each.
pub drop_table-cascade :
    (w : World) (s : Session) (st : SchemaTracker) (names : List Text) (xs : Items) (n : Json)
    (put put' : Json → Json) (b : Text) (bs : List Text) (test : Text)
    → s.context.query.valid ≡ true
    → s.st ≡ some st
    → find_node (codes "DropStmt") s.context.query.json ≡ some (n, put)
    → DropsTables names xs n
    → find_node (codes "objects") s.context.query.json ≡ some (array xs, put')
    → bindings st names ≡ b ∷ bs
    → w.acquired ≡ true
    → w.deparse (test_tree put' st names xs) ≡ some test
    → Cascaded w s n put (w.exec_test test) (drop_table w s)
unfolding on_test_tree
drop_table-cascade w s st names xs n put put' b bs test v tracked found drops objs some_bound free
      text =
    rw
      (
        drop_table-test w s st names xs n put v tracked found drops,
        test_drop-cons w s n put (bindings st names) bs b some_bound,
        objs,
        test_objects-append (bindings st names) xs put',
        text,
        run_test-free w s n put test free,
      )
      (on_test-Cascaded w s n put (w.exec_test test))
