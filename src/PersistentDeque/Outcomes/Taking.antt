-- ===== src/PersistentDeque/Outcomes/Taking.antt =====
-- What `Back` and `Front` with the deletion do, on every branch, when no row is locked.
use pg_fort.Base.{
  codes, ◌≡◌, refl, sym, ap, ◌∙◌, subst, ℕ, true, false, List, [], ◌∷◌, Option, none, some, Text,
  map, Exception, json_error, sql_error, client_error,
}
use pg_fort.Common.{Error, is_error}
use pg_fort.PersistentDeque.{
  ℤ, Direction, Row, position, Database, Answers, Commit, commits, rejected, doubtful, unlock,
  PersistentDeque, finish, caught,
}
use pg_fort.PersistentDeque.Operations.{
  Taken, delete_row, select_row, pop_element, pop_error, on_deleted, on_pop, on_parsed, on_row,
  on_selected, on_selecting, take_from, locked, element_of, lock_row,
}
use pg_fort.PersistentDeque.Rows.{
  AllFree, delete_row-AllFree, map-unlock_free, map-unlock-lock_row, rows_deleted,
}
use pg_fort.PersistentDeque.Outcomes.{
  Fate, succeeds, fails, in_doubt, fate_of, unless, Settled, Faults, finish-Settled,
  caught-is_error, started, start_fails, start_works, unlocked_twice,
}

-- Of an operation that takes a row: an error with the rows as they were, or the row and the others,
-- or an error and the other rows if the commit is in doubt.
abbrev pub TakenOk : Fate → ℕ → List Row → ℕ → Option Row → Taken → Type 0
TakenOk succeeds c rows n (some r) t =
    Settled c (delete_row (position r) rows) n t.0
    × (t.1.content ≡ r.data_)
    × (is_error t.2 ≡ false)
TakenOk in_doubt c rows n (some r) t =
    Settled c (delete_row (position r) rows) n t.0 × (is_error t.2 ≡ true)
TakenOk succeeds c rows n none t = Settled c rows n t.0 × (is_error t.2 ≡ true)
TakenOk in_doubt c rows n none t = Settled c rows n t.0 × (is_error t.2 ≡ true)
TakenOk fails c rows n o t = Settled c rows n t.0 × (is_error t.2 ≡ true)

module _ (c : ℕ) (junk : ℤ) (fail : Exception → Error) (faults : Faults fail) (table : Text)
    (a : Answers) (db : Database) (free : AllFree db.rows) where
  popped-TakenOk :
      (r : Row) (o : Option Exception) (o' : Commit)
      → TakenOk (unless o (fate_of o')) c db.rows db.next_seq (some r) (
          on_pop c junk fail (element_of c table r) (
            on_deleted
              (pop_error a (element_of c table r))
              c
              (element_of c table r)
              (locked c r db)
              o
              o'))
  unfolding is_error finish
  popped-TakenOk r (some sql_error) o' = (
    finish-Settled c db.rows (locked c r db) (map-unlock-lock_row c (position r) db.rows free),
    refl,
  )
  popped-TakenOk r (some json_error) o' = (
    finish-Settled c db.rows (locked c r db) (map-unlock-lock_row c (position r) db.rows free),
    refl,
  )
  popped-TakenOk r (some client_error) o' = (
    finish-Settled c db.rows (locked c r db) (map-unlock-lock_row c (position r) db.rows free),
    refl,
  )
  popped-TakenOk r none (rejected e) = (
    finish-Settled c db.rows (finish c (locked c r db)) (unlocked_twice c r db.rows free),
    faults e,
  )
  popped-TakenOk r none (doubtful e) = (
    finish-Settled c (delete_row (position r) db.rows)
        (finish c
          (record db { rows = delete_row (position r) (map (lock_row c (position r)) db.rows) }))
        (ap (map (unlock c)) (rows_deleted c (position r) db.rows free)
          ∙ map-unlock_free c (delete_row (position r) db.rows)
              (delete_row-AllFree (position r) db.rows free)),
    faults e,
  )
  popped-TakenOk r none commits = (
    finish-Settled c (delete_row (position r) db.rows)
        (record db { rows = delete_row (position r) (map (lock_row c (position r)) db.rows) })
        (rows_deleted c (position r) db.rows free),
    refl,
    refl,
  )

  row-TakenOk :
      (o : Option Row) (parse : Option Exception)
      → a.at_parse ≡ parse
      → TakenOk
          (unless parse (unless a.at_delete (fate_of a.at_commit)))
          c
          db.rows
          db.next_seq
          o
          (on_row c junk fail table a true db o)
  unfolding pop_element
  row-TakenOk none none h = not_found (unless a.at_delete (fate_of a.at_commit))
    where
      not_found :
          (f : Fate)
          → TakenOk f c db.rows db.next_seq none (on_row c junk fail table a true db none)
      not_found succeeds =
          (finish-Settled c db.rows db (map-unlock_free c db.rows free), faults client_error)
      not_found in_doubt =
          (finish-Settled c db.rows db (map-unlock_free c db.rows free), faults client_error)
      not_found fails =
          (finish-Settled c db.rows db (map-unlock_free c db.rows free), faults client_error)
  row-TakenOk none (some e) h =
      (finish-Settled c db.rows db (map-unlock_free c db.rows free), faults client_error)
  row-TakenOk (some r) (some e) h =
      subst
        (λ o.
          TakenOk fails c db.rows db.next_seq (some r)
            (on_parsed c junk fail a true (element_of c table r) (locked c r db) o))
        (sym h)
        (
          finish-Settled c db.rows (locked c r db)
              (map-unlock-lock_row c (position r) db.rows free),
          faults e,
        )
  row-TakenOk (some r) none h =
      subst
        (λ o.
          TakenOk (unless a.at_delete (fate_of a.at_commit)) c db.rows db.next_seq (some r)
            (on_parsed c junk fail a true (element_of c table r) (locked c r db) o))
        (sym h) (popped-TakenOk r a.at_delete a.at_commit)

  selected-TakenOk :
      (o : Option Row) (e : Option Exception)
      → TakenOk
          (unless e (unless a.at_parse (unless a.at_delete (fate_of a.at_commit))))
          c
          db.rows
          db.next_seq
          o
          (on_selected c junk fail table a true db o e)
  selected-TakenOk o (some e) =
      (finish-Settled c db.rows db (map-unlock_free c db.rows free), faults e)
  selected-TakenOk o none = row-TakenOk o a.at_parse refl

abbrev pub take_fate : Answers → Fate
take_fate a =
    unless a.at_start
      (unless a.at_statement (unless a.at_parse (unless a.at_delete (fate_of a.at_commit))))

take_from-started :
    (d : Direction) (func : Text) (lines : Text × Text) (dq : PersistentDeque) (a : Answers)
    (junk : ℤ) (db : Database) (o : Option Exception)
    → AllFree db.rows
    → db.busy dq.conn ≡ false
    → a.at_start ≡ o
    → TakenOk
        (unless o
          (unless a.at_statement (unless a.at_parse (unless a.at_delete (fate_of a.at_commit)))))
        dq.conn
        db.rows
        db.next_seq
        (select_row d db.rows)
        (take_from d func lines dq a junk true db)
unfolding take_from
take_from-started d func lines dq a junk db (some e) free idle h =
    let fail : Exception → Error = caught func lines ((codes "table", dq.table) ∷ []) a in
    subst
      (λ r.
        TakenOk fails dq.conn db.rows db.next_seq (select_row d db.rows)
          (on_selecting dq.conn junk fail dq.table a d true db r))
      (sym (start_fails dq.conn a db e idle h))
      ((refl, refl, idle), caught-is_error func lines ((codes "table", dq.table) ∷ []) a e)
take_from-started d func lines dq a junk db none free idle h =
    let fail : Exception → Error = caught func lines ((codes "table", dq.table) ∷ []) a in
    subst
      (λ r.
        TakenOk
          (unless a.at_statement (unless a.at_parse (unless a.at_delete (fate_of a.at_commit))))
          dq.conn db.rows db.next_seq (select_row d db.rows)
          (on_selecting dq.conn junk fail dq.table a d true db r))
      (sym (start_works dq.conn a db idle h))
      (selected-TakenOk dq.conn junk fail
        (caught-is_error func lines ((codes "table", dq.table) ∷ []) a) dq.table a
        (started dq.conn db) free (select_row d db.rows) a.at_statement)

pub take_from-TakenOk :
    (d : Direction) (func : Text) (lines : Text × Text) (dq : PersistentDeque) (a : Answers)
    (junk : ℤ) (db : Database)
    → AllFree db.rows
    → db.busy dq.conn ≡ false
    → TakenOk
        (take_fate a)
        dq.conn
        db.rows
        db.next_seq
        (select_row d db.rows)
        (take_from d func lines dq a junk true db)
take_from-TakenOk d func lines dq a junk db free idle =
    take_from-started d func lines dq a junk db a.at_start free idle refl
