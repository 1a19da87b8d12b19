-- ===== src/PersistentDeque.antt =====
-- lib/persistent-deque/persistent-deque.cpp: a double-ended queue in a table of the database.
pub mod Operations
pub mod Ends
pub mod Rows
pub mod Selection
pub mod Outcomes
pub mod Runs
pub mod Refinement
pub mod Exclusion
pub mod Consuming
use mathlib.Core.Option
use pg_fort.Base.{
  ℕ, zero, suc, ◌+◌, Bool, true, false, not, List, [], ◌∷◌, ◌++◌, Option, none, some, Text, codes,
  ltb, ◌==◌, if◌then◌else◌, map, Result, ok, throw, Exception, json_error, sql_error, client_error,
  length, decimal,
}
use pg_fort.Common.{source_file, Error, no_error, is_error}

-- The integers of the column `_pos`.
pub data ℤ : Type 0 where
  pos : ℕ → ℤ
  negsuc : ℕ → ℤ

abbrev pub ltb_int : ℤ → ℤ → Bool
ltb_int (pos m) (pos n) = ltb m n
ltb_int (pos m) (negsuc n) = false
ltb_int (negsuc m) (pos n) = true
ltb_int (negsuc m) (negsuc n) = ltb n m

abbrev pub eq_int : ℤ → ℤ → Bool
eq_int (pos m) (pos n) = m == n
eq_int (pos m) (negsuc n) = false
eq_int (negsuc m) (pos n) = false
eq_int (negsuc m) (negsuc n) = m == n

abbrev pub negate : ℕ → ℤ
negate zero = pos zero
negate (suc n) = negsuc n

abbrev pub to_text : ℤ → Text
to_text (pos n) = decimal n
to_text (negsuc n) = b'-' ∷ decimal (suc n)

-- `_dir`: 1 and -1.
pub data Direction : Type 0 where
  forward backward : Direction

-- A row, with the connection whose transaction has locked it.
pub record Row : Type 0 where
  pub seq : ℕ
  pub dir : Direction
  pub data_ : Text
  pub holder : Option ℕ

-- `_pos BIGINT GENERATED ALWAYS AS (_seq * _dir)`
abbrev pub times_dir : ℕ → Direction → ℤ
times_dir n forward = pos n
times_dir n backward = negate n

abbrev pub position : Row → ℤ
position r = times_dir r.seq r.dir

-- The table, the latest row first, with the next value of `_seq`; and the connections on which a
-- transaction is open.
pub record Database : Type 0 where
  pub rows : List Row
  pub next_seq : ℕ
  pub busy : ℕ → Bool

-- How a commit ends: with success, or by an exception, after which it has not taken effect, or has all
-- the same (`pqxx::in_doubt_error`).
pub data Commit : Type 0 where
  commits : Commit
  rejected : Exception → Commit
  doubtful : Exception → Commit

-- What the database and its client answer during one operation: what they throw at the start of a
-- transaction, at the statement, at a DELETE and at the end, and at the parse of the data; how many
-- values of `_seq` have been used up; what `jsonb` stores of a text, and what becomes of a statement
-- that the data has broken out of.
pub record Answers : Type 0 where
  pub at_start : Option Exception
  pub at_statement : Option Exception
  pub at_delete : Option Exception
  pub at_commit : Commit
  pub at_parse : Option Exception
  pub skipped : ℕ
  pub stored : Text → Option Text
  pub other : Text → Database → Database
  pub what : Exception → Text

-- The deque: its connection and its table.
pub record PersistentDeque : Type 0 where
  pub conn : ℕ
  pub table : Text

-- The constructor: the name of the table, and the table that CREATE TABLE makes.
abbrev pub open_deque : ℕ → Text → PersistentDeque
open_deque c name = record { conn = c; table = codes "__deque_" ++ name ++ codes "__" }

abbrev pub new_table : Database
new_table = record { rows = []; next_seq = 1; busy = λ c. false }

abbrev pub set_busy : ℕ → Bool → (ℕ → Bool) → ℕ → Bool
set_busy c b busy d = if c == d then b else busy d

abbrev pub holds : ℕ → Option ℕ → Bool
holds c none = false
holds c (some d) = c == d

abbrev pub unlock : ℕ → Row → Row
unlock c r = record r { holder = if holds c r.holder then none else r.holder }

-- The end of a transaction, which gives up its locks.
unfoldable pub finish : ℕ → Database → Database
finish c db = record db { rows = map (unlock c) db.rows; busy = set_busy c false db.busy }

abbrev pub or_throw {ℓ} : {A : Type ℓ} → Option Exception → Result A → Result A
or_throw none r = r
or_throw (some e) r = throw e

-- `pqxx::work w(conn_)`: a connection has one transaction at a time.
unfoldable pub start : ℕ → Answers → Database → Result Database
start c a db =
    if db.busy c
    then throw client_error
    else or_throw a.at_start (ok (record db { busy = set_busy c true db.busy }))

-- The error that the two handlers of an operation make of an exception, with their lines.
abbrev pub caught : Text → Text × Text → List (Text × Text) → Answers → Exception → Error
caught func (sql_line, line) more a sql_error =
    (codes "file", source_file (codes "persistent-deque/persistent-deque.cpp"))
    ∷ (codes "line", sql_line)
    ∷ (codes "func", func)
    ∷ (more
        ++ (codes "message", codes "failed with a sql_error")
          ∷ (codes "sql_error", a.what sql_error)
          ∷ [])
caught func (sql_line, line) more a e =
    (codes "file", source_file (codes "persistent-deque/persistent-deque.cpp"))
    ∷ (codes "line", line)
    ∷ (codes "func", func)
    ∷ (more
        ++ (codes "message", codes "failed with an exception") ∷ (codes "exception", a.what e) ∷ [])

-- The data stands between quotes in the statement. A quote ends the literal, unless another follows.
unfoldable pub read_literal : Text → Option Text
read_literal [] = some []
read_literal (c ∷ []) = if c == b'\'' then none else some (c ∷ [])
read_literal (c ∷ d ∷ t) =
    let rest = read_literal t in
    let next = read_literal (d ∷ t) in
    if c == b'\''
    then (if d == b'\'' then Option.map (λ u. c ∷ u) rest else none)
    else Option.map (λ u. c ∷ u) next
