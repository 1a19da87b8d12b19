-- ===== src/PersistentDeque/Operations.antt =====
-- The operations of lib/persistent-deque/persistent-deque.cpp, each with the database behind it.
use pg_fort.Base.{
  ℕ, suc, ◌+◌, Bool, true, false, List, [], ◌∷◌, Option, none, some, Text, codes, if◌then◌else◌,
  map, Result, ok, throw, Exception, sql_error, client_error, length,
}
use pg_fort.Common.{source_file, Error, no_error, is_error}
use pg_fort.PersistentDeque.{
  ℤ, ltb_int, eq_int, to_text, Direction, forward, backward, Row, position, Database, Answers,
  Commit, commits, rejected, doubtful, PersistentDeque, finish, or_throw, start, caught,
  read_literal,
}

-- INSERT, whose `_seq` is the next value of the sequence.
unfoldable pub insert_row : Answers → Direction → Text → Database → Database
insert_row a d x db =
    let n = db.next_seq + a.skipped in
    record db {
      rows = record { seq = n; dir = d; data_ = x; holder = none } ∷ db.rows;
      next_seq = suc n;
    }

-- What is not stored as `jsonb` is an error of the statement.
abbrev pub on_stored : Answers → Direction → Database → Option Text → Result Database
on_stored a d db none = throw sql_error
on_stored a d db (some z) = or_throw a.at_statement (ok (insert_row a d z db))

abbrev pub on_literal : Answers → Direction → Text → Database → Option Text → Result Database
on_literal a d x db none = or_throw a.at_statement (ok (a.other x db))
on_literal a d x db (some y) = on_stored a d db (a.stored y)

unfoldable pub exec_insert : Answers → Direction → Text → Database → Result Database
unfolding insert_row read_literal
exec_insert a d x db = on_literal a d x db (read_literal x)

-- The handlers of an exception, or what the body of `try` gives, when the commit has ended.
abbrev pub on_inserted :
    ℕ → (Exception → Error) → Commit → Database → Result Database → Database × Error
on_inserted c fail o db (throw e) = (finish c db, fail e)
on_inserted c fail commits db (ok db') = (finish c db', no_error)
on_inserted c fail (rejected e) db (ok db') = (finish c db, fail e)
on_inserted c fail (doubtful e) db (ok db') = (finish c db', fail e)

abbrev pub on_started :
    ℕ
    → (Exception → Error)
    → Answers
    → Direction
    → Text
    → Database
    → Result Database
    → Database × Error
on_started c fail a d x db (throw e) = (db, fail e)
on_started c fail a d x db (ok db') = on_inserted c fail a.at_commit db' (exec_insert a d x db')

-- The statement with the text of the data.
unfoldable pub push_text :
    Direction → Text → Text × Text → PersistentDeque → Answers → Text → Database → Database × Error
unfolding start exec_insert finish
push_text d func lines dq a x db =
    on_started dq.conn (caught func lines ((codes "table", dq.table) ∷ []) a) a d x db
      (start dq.conn a db)

-- `data.dump()` stands outside of the `try`: an exception that it throws goes to the caller.
unfoldable pub push_in :
    Direction
    → Text
    → Text × Text
    → PersistentDeque
    → Answers
    → Result Text
    → Database
    → Database × Result Error
unfolding push_text
push_in d func lines dq a (throw e) db = (db, throw e)
push_in d func lines dq a (ok x) db =
    let (db', err) = push_text d func lines dq a x db in (db', ok err)

unfoldable pub push_back :
    PersistentDeque → Answers → Result Text → Database → Database × Result Error
unfolding push_in
push_back = push_in forward (codes "PushBack") (codes "48", codes "59")

unfoldable pub push_front :
    PersistentDeque → Answers → Result Text → Database → Database × Result Error
unfolding push_in
push_front = push_in backward (codes "PushFront") (codes "88", codes "99")

-- The `w_` of an element: none, a transaction that is open on a connection, or one that is committed.
pub data Work : Type 0 where
  no_work : Work
  open_work : ℕ → Work
  closed_work : Work

pub record Element : Type 0 where
  pub w_ : Work
  pub table_ : Text
  pub pos_ : ℤ
  pub content : Text

-- `Element()`, whose `pos_` is not set.
abbrev pub blank : ℤ → Element
blank junk = record { w_ = no_work; table_ = []; pos_ = junk; content = [] }

unfoldable pub delete_row : ℤ → List Row → List Row
delete_row p [] = []
delete_row p (r ∷ rs) =
    let rest = delete_row p rs in if eq_int (position r) p then rest else r ∷ rest

-- What `Pop` leaves in `w_` and gives back; the commit stands outside of its `try`.
abbrev pub Popping : Type 0
Popping = Database × Work × Result Error

abbrev pub on_deleted :
    (Exception → Error) → ℕ → Element → Database → Option Exception → Commit → Popping
on_deleted fail c el db (some e) o = (db, open_work c, ok (fail e))
on_deleted fail c el db none commits =
    (finish c (record db { rows = delete_row el.pos_ db.rows }), closed_work, ok no_error)
on_deleted fail c el db none (rejected e) = (finish c db, closed_work, throw e)
on_deleted fail c el db none (doubtful e) =
    (finish c (record db { rows = delete_row el.pos_ db.rows }), closed_work, throw e)

abbrev pub transaction_missing : Element → Error
transaction_missing el =
    (codes "file", source_file (codes "persistent-deque/persistent-deque.cpp"))
    ∷ (codes "line", codes "296")
    ∷ (codes "func", codes "Pop")
    ∷ (codes "table", el.table_)
    ∷ (codes "pos", to_text el.pos_)
    ∷ (codes "message", codes "transaction missing")
    ∷ []

abbrev pub pop_error : Answers → Element → Exception → Error
pop_error a el =
    caught (codes "Pop") (codes "313", codes "325")
      ((codes "table", el.table_) ∷ (codes "pos", to_text el.pos_) ∷ []) a

abbrev pub pop_work : Answers → Element → Work → Database → Popping
pop_work a el no_work db = (db, no_work, ok (transaction_missing el))
pop_work a el closed_work db = (db, closed_work, ok (pop_error a el client_error))
pop_work a el (open_work c) db = on_deleted (pop_error a el) c el db a.at_delete a.at_commit

-- `Element::Pop`
unfoldable pub pop_element : Answers → Element → Database → Popping
unfolding delete_row finish
pop_element a el db = pop_work a el el.w_ db

-- The end of `w_`, which rolls an open transaction back: `Element::Release`, and the destructor.
unfoldable pub release : Element → Database → Database × Element
unfolding finish
release el db = elim el.w_ [
  | no_work ↦ (db, el)
  | closed_work ↦ (db, record el { w_ = no_work })
  | open_work c ↦ (finish c db, record el { w_ = no_work })
]

-- `operator=`, which ends the transaction of the element that is overwritten; the last result is the
-- `w_` of the element that is moved from.
unfoldable pub assign : Element → Element → Database → Database × Element × Work
unfolding release
assign el other db = ((release el db).0, other, no_work)

-- Of two rows the one that comes first in the order of the search.
abbrev pub first_in : Direction → Row → Option Row → Option Row
first_in d r none = some r
first_in forward r (some s) = some (if ltb_int (position r) (position s) then s else r)
first_in backward r (some s) = some (if ltb_int (position s) (position r) then s else r)

abbrev pub is_locked : Option ℕ → Bool
is_locked none = false
is_locked (some c) = true

-- `ORDER BY _pos DESC` (forward) or `ASC` (backward), `LIMIT 1 FOR UPDATE SKIP LOCKED`
unfoldable pub select_row : Direction → List Row → Option Row
select_row d [] = none
select_row d (r ∷ rs) =
    let rest = select_row d rs in if is_locked r.holder then rest else first_in d r rest

abbrev pub lock_row : ℕ → ℤ → Row → Row
lock_row c p r = record r { holder = if eq_int (position r) p then some c else r.holder }

-- What an operation that reads gives: the element is blank with an error.
abbrev pub Taken : Type 0
Taken = Database × Element × Error

abbrev pub on_pop : ℕ → ℤ → (Exception → Error) → Element → Popping → Taken
on_pop c junk fail el (db, w, throw e) = (finish c db, blank junk, fail e)
on_pop c junk fail el (db, w, ok err) =
    if is_error err then (finish c db, blank junk, err) else (db, record el { w_ = w }, no_error)

abbrev pub locked : ℕ → Row → Database → Database
locked c r db = record db { rows = map (lock_row c (position r)) db.rows }

abbrev pub element_of : ℕ → Text → Row → Element
element_of c table r = record {
  w_ = open_work c;
  table_ = table;
  pos_ = position r;
  content = r.data_;
}

abbrev pub on_parsed :
    ℕ → ℤ → (Exception → Error) → Answers → Bool → Element → Database → Option Exception → Taken
on_parsed c junk fail a pop el db (some e) = (finish c db, blank junk, fail e)
on_parsed c junk fail a false el db none = (db, el, no_error)
on_parsed c junk fail a true el db none = on_pop c junk fail el (pop_element a el db)

-- `exec1` throws when there is no row.
abbrev pub on_row :
    ℕ → ℤ → (Exception → Error) → Text → Answers → Bool → Database → Option Row → Taken
on_row c junk fail table a pop db none = (finish c db, blank junk, fail client_error)
on_row c junk fail table a pop db (some r) =
    on_parsed c junk fail a pop (element_of c table r) (locked c r db) a.at_parse

abbrev pub on_selected :
    ℕ
    → ℤ
    → (Exception → Error)
    → Text
    → Answers
    → Bool
    → Database
    → Option Row
    → Option Exception
    → Taken
on_selected c junk fail table a pop db o (some e) = (finish c db, blank junk, fail e)
on_selected c junk fail table a pop db o none = on_row c junk fail table a pop db o

abbrev pub on_selecting :
    ℕ
    → ℤ
    → (Exception → Error)
    → Text
    → Answers
    → Direction
    → Bool
    → Database
    → Result Database
    → Taken
on_selecting c junk fail table a d pop db (throw e) = (db, blank junk, fail e)
on_selecting c junk fail table a d pop db (ok db') =
    on_selected c junk fail table a pop db' (select_row d db'.rows) a.at_statement

unfoldable pub take_from :
    Direction → Text → Text × Text → PersistentDeque → Answers → ℤ → Bool → Database → Taken
unfolding start select_row pop_element finish
take_from d func lines dq a junk pop db =
    on_selecting dq.conn junk (caught func lines ((codes "table", dq.table) ∷ []) a) dq.table a d
      pop db (start dq.conn a db)

-- `Back` and `Front`
unfoldable pub back : PersistentDeque → Answers → ℤ → Bool → Database → Taken
unfolding take_from
back = take_from forward (codes "Back") (codes "142", codes "154")

unfoldable pub front : PersistentDeque → Answers → ℤ → Bool → Database → Taken
unfolding take_from
front = take_from backward (codes "Front") (codes "198", codes "210")

-- The transaction of `Size` is rolled back. The second handler gives the field of the first.
abbrev pub size_error : PersistentDeque → Answers → Exception → Error
size_error dq a sql_error =
    caught (codes "Size") (codes "237", codes "249") ((codes "table", dq.table) ∷ []) a sql_error
size_error dq a e =
    (codes "file", source_file (codes "persistent-deque/persistent-deque.cpp"))
    ∷ (codes "line", codes "249")
    ∷ (codes "func", codes "Size")
    ∷ (codes "table", dq.table)
    ∷ (codes "message", codes "failed with an exception")
    ∷ (codes "sql_error", a.what e)
    ∷ []

abbrev pub on_counted : ℕ → (Exception → Error) → Database → Option Exception → Database × ℕ × Error
on_counted c fail db (some e) = (finish c db, 0, fail e)
on_counted c fail db none = (finish c db, length db.rows, no_error)

abbrev pub on_counting :
    ℕ → (Exception → Error) → Answers → Database → Result Database → Database × ℕ × Error
on_counting c fail a db (throw e) = (db, 0, fail e)
on_counting c fail a db (ok db') = on_counted c fail db' a.at_statement

unfoldable pub size_of_deque : PersistentDeque → Answers → Database → Database × ℕ × Error
unfolding start finish
size_of_deque dq a db = on_counting dq.conn (size_error dq a) a db (start dq.conn a db)
