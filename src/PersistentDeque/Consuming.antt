-- ===== src/PersistentDeque/Consuming.antt =====
-- The two ways to consume a deque: to hold an element and to pop it, or to take it at once.
use mathlib.Core.Path.{ap₂, fun_ext}
use pg_fort.Base.{
  ◌≡◌, refl, ℕ, Bool, true, false, Bool-cases, inl, inr, List, [], ◌∷◌, Option, none, some, Text,
  codes, if◌then◌else◌, map, Exception, json_error, sql_error, client_error, Result, ok, throw,
  ◌==◌,
}
use pg_fort.Common.{Error, is_error}
use pg_fort.PersistentDeque.{
  doubtful, rejected, commits, Commit, ℤ, Direction, forward, backward, Row, Database, Answers,
  PersistentDeque, finish, start, caught, unlock, holds,
}
use pg_fort.PersistentDeque.Operations.{
  delete_row, Taken, Element, Popping, release, pop_element, pop_error, on_deleted, on_pop,
  on_parsed, on_selected, on_selecting, take_from, back, front, select_row, locked, element_of,
}
use pg_fort.PersistentDeque.Outcomes.{Faults, caught-is_error}
use pg_fort.PersistentDeque.Exclusion.{take_at_end}
use pg_fort.PersistentDeque.Runs.{Reply, taken, failed, take_reply}

-- A client that holds an element pops it, and lets go of it.
abbrev pub pop_reply : Element → Popping → Database × Reply
pop_reply el (db, w, throw e) = ((release (record el { w_ = w }) db).0, failed)
pop_reply el (db, w, ok err) =
    ((release (record el { w_ = w }) db).0, if is_error err then failed else taken el.content)

-- `Back(false)` or `Front(false)`, and then `Pop`, by what they give.
abbrev pub hold_reply : Answers → Taken → Database × Reply
hold_reply a (db, el, err) =
    if is_error err then (db, failed) else pop_reply el (pop_element a el db)

-- The end of a transaction that has ended changes nothing.
unlock_twice :
    (c : ℕ) (rows : List Row) → map (unlock c) (map (unlock c) rows) ≡ map (unlock c) rows
unlock_twice c [] = refl
unlock_twice c (r ∷ rs) =
    ap₂ (λ h l. record r { holder = h } ∷ l) (given_up r.holder) (unlock_twice c rs)
  where
    given_up :
        (h : Option ℕ)
        → (if holds c (if holds c h then none else h)
            then none
            else (if holds c h then none else h))
          ≡ (if holds c h then none else h)
    given_up h = elim (Bool-cases (holds c h)) [ inl e ↦ rw e refl | inr e ↦ rw (e, e) refl ]

finish-finish : (c : ℕ) (db : Database) → finish c (finish c db) ≡ finish c db
unfolding finish
finish-finish c db =
    ap₂ (λ rows b. record db { rows = rows; busy = b }) (unlock_twice c db.rows)
      (fun_ext (λ d. idle (c == d) (db.busy d)))
  where
    idle :
        (b : Bool) (was : Bool)
        → (if b then false else (if b then false else was)) ≡ (if b then false else was)
    idle true was = refl
    idle false was = refl

module _ (c : ℕ) (junk : ℤ) (fail : Exception → Error) (faults : Faults fail) (table : Text)
    (a : Answers) where
  popped-same :
      (el : Element) (db : Database) (o : Option Exception) (o' : Commit)
      → take_reply (on_pop c junk fail el (on_deleted (pop_error a el) c el db o o'))
        ≡ pop_reply el (on_deleted (pop_error a el) c el db o o')
  unfolding is_error release
  popped-same el db (some sql_error) o' = refl
  popped-same el db (some json_error) o' = refl
  popped-same el db (some client_error) o' = refl
  popped-same el db none (rejected e) = rw (faults e, finish-finish c db) refl
  popped-same el db none (doubtful e) =
      rw (faults e, finish-finish c (record db { rows = delete_row el.pos_ db.rows })) refl
  popped-same el db none commits = refl

  parsed-same :
      (r : Row) (db : Database) (o : Option Exception)
      → take_reply (on_parsed c junk fail a true (element_of c table r) db o)
        ≡ hold_reply a (on_parsed c junk fail a false (element_of c table r) db o)
  unfolding pop_element is_error
  parsed-same r db (some e) = rw (faults e) refl
  parsed-same r db none = popped-same (element_of c table r) db a.at_delete a.at_commit

  selected-same :
      (db : Database) (o : Option Row) (e : Option Exception)
      → take_reply (on_selected c junk fail table a true db o e)
        ≡ hold_reply a (on_selected c junk fail table a false db o e)
  selected-same db o (some e) = rw (faults e) refl
  selected-same db none none = rw (faults client_error) refl
  selected-same db (some r) none = parsed-same r (locked c r db) a.at_parse

  selecting-same :
      (d : Direction) (db : Database) (r : Result Database)
      → take_reply (on_selecting c junk fail table a d true db r)
        ≡ hold_reply a (on_selecting c junk fail table a d false db r)
  selecting-same d db (throw e) = rw (faults e) refl
  selecting-same d db (ok db') = selected-same db' (select_row d db'.rows) a.at_statement

take_from-same :
    (d : Direction) (func : Text) (lines : Text × Text) (dq : PersistentDeque) (a : Answers)
    (junk : ℤ) (db : Database)
    → take_reply (take_from d func lines dq a junk true db)
      ≡ hold_reply a (take_from d func lines dq a junk false db)
unfolding take_from
take_from-same d func lines dq a junk db =
    selecting-same dq.conn junk (caught func lines ((codes "table", dq.table) ∷ []) a)
      (caught-is_error func lines ((codes "table", dq.table) ∷ []) a) dq.table a d db
      (start dq.conn a db)

-- The two ways to consume a deque are one, where nothing comes between: to hold the element at an end
-- and to pop it gives the same data as to take it at once, or fails when that fails, and leaves the
-- same database when the element is let go, whatever the database and its client answer.
pub take_reply-hold_reply :
    (d : Direction) (dq : PersistentDeque) (a : Answers) (junk : ℤ) (db : Database)
    → take_reply (take_at_end d dq a junk true db) ≡ hold_reply a (take_at_end d dq a junk false db)
unfolding back front
take_reply-hold_reply forward dq a junk db =
    take_from-same forward (codes "Back") (codes "142", codes "154") dq a junk db
take_reply-hold_reply backward dq a junk db =
    take_from-same backward (codes "Front") (codes "198", codes "210") dq a junk db
