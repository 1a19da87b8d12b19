-- ===== src/PersistentDeque/Outcomes/Pushing.antt =====
-- What `PushBack` and `PushFront` do, on every branch, when no row is locked.
use pg_fort.Base.{
  codes, ◌≡◌, refl, sym, subst, ℕ, suc, ◌+◌, true, false, List, [], ◌∷◌, Option, none, some, Text,
  Exception, sql_error, ok,
}
use pg_fort.Common.{Error, is_error}
use pg_fort.PersistentDeque.{
  Direction, Row, Database, Answers, Commit, commits, rejected, doubtful, PersistentDeque, finish,
  or_throw, caught, read_literal,
}
use pg_fort.PersistentDeque.Operations.{
  insert_row, exec_insert, on_stored, on_literal, on_inserted, on_started, push_text,
}
use pg_fort.PersistentDeque.Rows.{AllFree, map-unlock_free}
use pg_fort.PersistentDeque.Outcomes.{
  Fate, succeeds, fails, in_doubt, fate_of, unless, Settled, Faults, finish-Settled,
  caught-is_error, started, start_fails, start_works,
}

abbrev pub push_fate : Answers → Fate
push_fate a = unless a.at_start (unless a.at_statement (fate_of a.at_commit))

-- The rows with one more.
abbrev pub Grown : ℕ → ℕ → Direction → Text → List Row → ℕ → Database → Type 0
Grown c skipped d z rows n db =
    Settled c (record { seq = n + skipped; dir = d; data_ = z; holder = none } ∷ rows)
      (suc (n + skipped)) db

-- Of a push of what is stored as `o`: an error with the rows as they were, or one row more, with an
-- error if the commit is in doubt.
abbrev pub PushedOk :
    Fate → Option Text → ℕ → ℕ → Direction → List Row → ℕ → Database × Error → Type 0
PushedOk succeeds (some z) c skipped d rows n t =
    Grown c skipped d z rows n t.0 × (is_error t.1 ≡ false)
PushedOk in_doubt (some z) c skipped d rows n t =
    Grown c skipped d z rows n t.0 × (is_error t.1 ≡ true)
PushedOk fails (some z) c skipped d rows n t = Settled c rows n t.0 × (is_error t.1 ≡ true)
PushedOk succeeds none c skipped d rows n t = Settled c rows n t.0 × (is_error t.1 ≡ true)
PushedOk in_doubt none c skipped d rows n t = Settled c rows n t.0 × (is_error t.1 ≡ true)
PushedOk fails none c skipped d rows n t = Settled c rows n t.0 × (is_error t.1 ≡ true)

-- A push that fails, or of what is not stored, leaves the rows.
unpushed :
    (f : Fate) (c skipped : ℕ) (d : Direction) (rows : List Row) (n : ℕ) (t : Database × Error)
    → Settled c rows n t.0
    → is_error t.1 ≡ true
    → PushedOk f none c skipped d rows n t
unpushed succeeds c skipped d rows n t s e = (s, e)
unpushed fails c skipped d rows n t s e = (s, e)
unpushed in_doubt c skipped d rows n t s e = (s, e)

failed_push :
    (o : Option Text) (c skipped : ℕ) (d : Direction) (rows : List Row) (n : ℕ)
    (t : Database × Error)
    → Settled c rows n t.0
    → is_error t.1 ≡ true
    → PushedOk fails o c skipped d rows n t
failed_push none c skipped d rows n t s e = (s, e)
failed_push (some z) c skipped d rows n t s e = (s, e)

module _ (c : ℕ) (fail : Exception → Error) (faults : Faults fail) (a : Answers) (d : Direction)
    (db : Database) (free : AllFree db.rows) where
  inserted-PushedOk :
      (z : Text) (o : Option Exception) (o' : Commit)
      → PushedOk
          (unless o (fate_of o'))
          (some z)
          c
          a.skipped
          d
          db.rows
          db.next_seq
          (on_inserted c fail o' db (or_throw o (ok (insert_row a d z db))))
  unfolding insert_row is_error
  inserted-PushedOk z (some e) o' =
      (finish-Settled c db.rows db (map-unlock_free c db.rows free), faults e)
  inserted-PushedOk z none (rejected e) =
      (finish-Settled c db.rows db (map-unlock_free c db.rows free), faults e)
  inserted-PushedOk z none commits =
      let rows : List Row =
        record { seq = db.next_seq + a.skipped; dir = d; data_ = z; holder = none } ∷ db.rows in
      (finish-Settled c rows (insert_row a d z db) (map-unlock_free c rows (refl, free)), refl)
  inserted-PushedOk z none (doubtful e) =
      let rows : List Row =
        record { seq = db.next_seq + a.skipped; dir = d; data_ = z; holder = none } ∷ db.rows in
      (finish-Settled c rows (insert_row a d z db) (map-unlock_free c rows (refl, free)), faults e)

  stored-PushedOk :
      (z : Option Text) (o : Option Exception) (o' : Commit)
      → a.at_statement ≡ o
      → PushedOk
          (unless o (fate_of o'))
          z
          c
          a.skipped
          d
          db.rows
          db.next_seq
          (on_inserted c fail o' db (on_stored a d db z))
  stored-PushedOk none o o' h =
      unpushed (unless o (fate_of o')) c a.skipped d db.rows db.next_seq
        (finish c db, fail sql_error) (finish-Settled c db.rows db (map-unlock_free c db.rows free))
        (faults sql_error)
  stored-PushedOk (some z) o o' h =
      subst
        (λ e.
          PushedOk (unless o (fate_of o')) (some z) c a.skipped d db.rows db.next_seq
            (on_inserted c fail o' db (or_throw e (ok (insert_row a d z db)))))
        (sym h) (inserted-PushedOk z o o')

push_text-started :
    (d : Direction) (func : Text) (lines : Text × Text) (dq : PersistentDeque) (a : Answers)
    (x y : Text) (db : Database) (o : Option Exception)
    → AllFree db.rows
    → db.busy dq.conn ≡ false
    → read_literal x ≡ some y
    → a.at_start ≡ o
    → PushedOk
        (unless o (unless a.at_statement (fate_of a.at_commit)))
        (a.stored y)
        dq.conn
        a.skipped
        d
        db.rows
        db.next_seq
        (push_text d func lines dq a x db)
unfolding push_text exec_insert
push_text-started d func lines dq a x y db (some e) free idle reads h =
    let fail : Exception → Error = caught func lines ((codes "table", dq.table) ∷ []) a in
    subst
      (λ r.
        PushedOk fails (a.stored y) dq.conn a.skipped d db.rows db.next_seq
          (on_started dq.conn fail a d x db r))
      (sym (start_fails dq.conn a db e idle h))
      (failed_push (a.stored y) dq.conn a.skipped d db.rows db.next_seq (db, fail e)
        (refl, refl, idle) (caught-is_error func lines ((codes "table", dq.table) ∷ []) a e))
push_text-started d func lines dq a x y db none free idle reads h =
    let fail : Exception → Error = caught func lines ((codes "table", dq.table) ∷ []) a in
    let fate : Fate = unless a.at_statement (fate_of a.at_commit) in
    subst
      (λ r.
        PushedOk fate (a.stored y) dq.conn a.skipped d db.rows db.next_seq
          (on_started dq.conn fail a d x db r))
      (sym (start_works dq.conn a db idle h))
      (subst
        (λ l. PushedOk fate (a.stored y) dq.conn a.skipped d db.rows db.next_seq (
          on_inserted dq.conn fail a.at_commit (started dq.conn db)
            (on_literal a d x (started dq.conn db) l)))
        (sym reads)
        (stored-PushedOk dq.conn fail
          (caught-is_error func lines ((codes "table", dq.table) ∷ []) a) a d (started dq.conn db)
          free (a.stored y) a.at_statement a.at_commit refl))

pub push_text-PushedOk :
    (d : Direction) (func : Text) (lines : Text × Text) (dq : PersistentDeque) (a : Answers)
    (x y : Text) (db : Database)
    → AllFree db.rows
    → db.busy dq.conn ≡ false
    → read_literal x ≡ some y
    → PushedOk
        (push_fate a)
        (a.stored y)
        dq.conn
        a.skipped
        d
        db.rows
        db.next_seq
        (push_text d func lines dq a x db)
push_text-PushedOk d func lines dq a x y db free idle reads =
    push_text-started d func lines dq a x y db a.at_start free idle reads refl
