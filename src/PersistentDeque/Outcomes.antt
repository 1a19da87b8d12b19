-- ===== src/PersistentDeque/Outcomes.antt =====
-- What the operations of a deque share: the start and the end of a transaction when no row is locked.
pub mod Taking
pub mod Pushing
pub mod Counting
use pg_fort.Base.{
  codes, ◌≡◌, refl, sym, ap, ◌∙◌, subst, ℕ, suc, ◌+◌, Bool, true, false, ◌&&◌, List, [], ◌∷◌,
  Option, none, some, Text, if◌then◌else◌, map, ==_iff, length, Exception, json_error, sql_error,
  client_error, ok, throw,
}
use pg_fort.Common.{Error, is_error}
use pg_fort.PersistentDeque.{
  ℤ, Direction, Row, position, Database, Answers, PersistentDeque, Commit, commits, rejected,
  doubtful, finish, start, or_throw, caught, read_literal, unlock, set_busy,
}
use pg_fort.PersistentDeque.Operations.{
  Taken, delete_row, select_row, insert_row, exec_insert, on_stored, on_literal, on_inserted,
  on_started, push_text, pop_element, pop_error, on_deleted, on_pop, on_parsed, on_row, on_selected,
  on_selecting, take_from, locked, element_of, size_of_deque, size_error, on_counted, on_counting,
  lock_row,
}
use pg_fort.PersistentDeque.Rows.{AllFree, map-unlock_free, map-unlock-lock_row, rows_deleted}

abbrev pub fine : Option Exception → Bool
fine none = true
fine (some e) = false

-- What becomes of an operation: it is done, it is not, or it is done although it fails.
pub data Fate : Type 0 where
  succeeds fails in_doubt : Fate

abbrev pub fate_of : Commit → Fate
fate_of commits = succeeds
fate_of (rejected e) = fails
fate_of (doubtful e) = in_doubt

-- The fate behind a point where an exception may be thrown.
abbrev pub unless : Option Exception → Fate → Fate
unless none f = f
unless (some e) f = fails

-- The database after an operation: its rows, its sequence, and no transaction on the connection.
abbrev pub Settled : ℕ → List Row → ℕ → Database → Type 0
Settled c rows n db = (db.rows ≡ rows) × (db.next_seq ≡ n) × (db.busy c ≡ false)

finish-Settled :
    (c : ℕ) (rows : List Row) (db : Database)
    → map (unlock c) db.rows ≡ rows
    → Settled c rows db.next_seq (finish c db)
unfolding finish
finish-Settled c rows db h =
    (h, refl, ap (λ b. if b then false else db.busy c) ((==_iff c c).1 refl))

unlocked_twice :
    (c : ℕ) (r : Row) (rows : List Row)
    → AllFree rows
    → map (unlock c) (map (unlock c) (map (lock_row c (position r)) rows)) ≡ rows
unlocked_twice c r rows free =
    ap (map (unlock c)) (map-unlock-lock_row c (position r) rows free) ∙ map-unlock_free c rows free

pub caught-is_error :
    (func : Text) (lines : Text × Text) (more : List (Text × Text)) (a : Answers) (e : Exception)
    → is_error (caught func lines more a e) ≡ true
unfolding is_error
caught-is_error func lines more a sql_error = refl
caught-is_error func lines more a json_error = refl
caught-is_error func lines more a client_error = refl

-- Every error that a handler makes is one.
abbrev pub Faults : (Exception → Error) → Type 0
Faults fail = (e : Exception) → is_error (fail e) ≡ true

abbrev pub started : ℕ → Database → Database
started c db = record db { busy = set_busy c true db.busy }

start_fails :
    (c : ℕ) (a : Answers) (db : Database) (e : Exception)
    → db.busy c ≡ false
    → a.at_start ≡ some e
    → start c a db ≡ throw e
unfolding start
start_fails c a db e idle h =
    ap (λ b. if b then throw client_error else or_throw a.at_start (ok (started c db))) idle
    ∙ ap (λ o. or_throw o (ok (started c db))) h

start_works :
    (c : ℕ) (a : Answers) (db : Database)
    → db.busy c ≡ false
    → a.at_start ≡ none
    → start c a db ≡ ok (started c db)
unfolding start
start_works c a db idle h =
    ap (λ b. if b then throw client_error else or_throw a.at_start (ok (started c db))) idle
    ∙ ap (λ o. or_throw o (ok (started c db))) h
