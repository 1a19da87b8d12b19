-- ===== src/PersistentDeque/Outcomes/Counting.antt =====
-- What `Size` does, on every branch, when no row is locked.
use pg_fort.Base.{
  ◌≡◌, refl, sym, subst, ℕ, Bool, true, false, ◌&&◌, List, Option, none, some, length, Exception,
  json_error, sql_error, client_error,
}
use pg_fort.Common.{Error, is_error}
use pg_fort.PersistentDeque.{Row, Database, Answers, PersistentDeque}
use pg_fort.PersistentDeque.Operations.{size_of_deque, size_error, on_counted, on_counting}
use pg_fort.PersistentDeque.Rows.{AllFree, map-unlock_free}
use pg_fort.PersistentDeque.Outcomes.{
  fine, Settled, Faults, finish-Settled, started, start_fails, start_works,
}

-- Of a count: an error, or the number of rows.
abbrev pub CountedOk : Bool → ℕ → List Row → ℕ → Database × ℕ × Error → Type 0
CountedOk true c rows n t = Settled c rows n t.0 × (t.1 ≡ length rows) × (is_error t.2 ≡ false)
CountedOk false c rows n t = Settled c rows n t.0 × (is_error t.2 ≡ true)

size_error-is_error : (dq : PersistentDeque) (a : Answers) → Faults (size_error dq a)
unfolding is_error
size_error-is_error dq a sql_error = refl
size_error-is_error dq a json_error = refl
size_error-is_error dq a client_error = refl

counted-CountedOk :
    (c : ℕ) (fail : Exception → Error) (db : Database) (o : Option Exception)
    → Faults fail
    → AllFree db.rows
    → CountedOk (fine o) c db.rows db.next_seq (on_counted c fail db o)
unfolding is_error
counted-CountedOk c fail db (some e) faults free =
    (finish-Settled c db.rows db (map-unlock_free c db.rows free), faults e)
counted-CountedOk c fail db none faults free =
    (finish-Settled c db.rows db (map-unlock_free c db.rows free), refl, refl)

size_of_deque-started :
    (dq : PersistentDeque) (a : Answers) (db : Database) (o : Option Exception)
    → AllFree db.rows
    → db.busy dq.conn ≡ false
    → a.at_start ≡ o
    → CountedOk (fine o && fine a.at_statement) dq.conn db.rows db.next_seq (size_of_deque dq a db)
unfolding size_of_deque
size_of_deque-started dq a db (some e) free idle h =
    subst
      (λ r.
        CountedOk false dq.conn db.rows db.next_seq (on_counting dq.conn (size_error dq a) a db r))
      (sym (start_fails dq.conn a db e idle h)) ((refl, refl, idle), size_error-is_error dq a e)
size_of_deque-started dq a db none free idle h =
    subst
      (λ r.
        CountedOk (fine a.at_statement) dq.conn db.rows db.next_seq
          (on_counting dq.conn (size_error dq a) a db r))
      (sym (start_works dq.conn a db idle h))
      (counted-CountedOk dq.conn (size_error dq a) (started dq.conn db) a.at_statement
        (size_error-is_error dq a) free)

pub size_of_deque-CountedOk :
    (dq : PersistentDeque) (a : Answers) (db : Database)
    → AllFree db.rows
    → db.busy dq.conn ≡ false
    → CountedOk
        (fine a.at_start && fine a.at_statement)
        dq.conn
        db.rows
        db.next_seq
        (size_of_deque dq a db)
size_of_deque-CountedOk dq a db free idle = size_of_deque-started dq a db a.at_start free idle refl
