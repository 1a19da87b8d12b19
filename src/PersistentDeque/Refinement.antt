-- ===== src/PersistentDeque/Refinement.antt =====
-- A deque of one client answers as a double-ended list.
use pg_fort.Base.{
  codes, ◌≡◌, refl, sym, ap, ◌∙◌, subst, ℕ, suc, ◌+◌, ◌<◌, Bool, true, false, ◌&&◌, List, [], ◌∷◌,
  Option, none, some, Text, if◌then◌else◌, length, arith, ok, throw,
}
use pg_fort.Common.{Error}
use pg_fort.PersistentDeque.{
  ℤ, Direction, forward, backward, Row, position, Database, Answers, PersistentDeque,
}
use pg_fort.PersistentDeque.Operations.{
  push_in, Taken, push_text, push_back, push_front, back, front, size_of_deque, select_row,
  delete_row,
}
use pg_fort.PersistentDeque.Ends.{put_at, Descends}
use pg_fort.PersistentDeque.Rows.{AllFree, Descends-le, delete_row-Descends, delete_row-AllFree}
use pg_fort.PersistentDeque.Selection.{
  contents_of, contents_of-delete_row, contents_of-cons, length-contents_of, none_selected,
}
use pg_fort.PersistentDeque.Outcomes.{Fate, succeeds, fails, in_doubt, fine, Settled}
use pg_fort.PersistentDeque.Outcomes.Taking.{TakenOk, take_fate, take_from-TakenOk}
use pg_fort.PersistentDeque.Outcomes.Pushing.{push_fate, Grown, PushedOk, push_text-PushedOk}
use pg_fort.PersistentDeque.Outcomes.Counting.{CountedOk, size_of_deque-CountedOk}
use pg_fort.PersistentDeque.Runs.{
  Op, push_at, take_at, count_all, Reply, taken, counted, failed, push_reply, take_reply,
  count_reply, step_deque, run_deque, take_end, stores, list_push, list_take, step_list, run_list,
  Readable, AllReadable, Ready, Represents,
}

take_end-put_at :
    {A : Type 0} → (d : Direction) (x : A) (q : List A) → take_end d (put_at d x q) ≡ some (x, q)
take_end-put_at backward x q = refl
take_end-put_at forward x [] = refl
take_end-put_at forward x (y ∷ q) = rw (take_end-put_at forward x q) refl

Settled-Ready :
    (dq : PersistentDeque) (rows : List Row) (n : ℕ) (db : Database)
    → Settled dq.conn rows n db
    → AllFree rows
    → Descends n rows
    → 0 < n
    → Ready dq db
Settled-Ready dq rows n db (r, s, idle) f d h = (
  subst AllFree (sym r) f,
  subst (λ m. Descends m db.rows) (sym s) (subst (Descends n) (sym r) d),
  subst (λ m. 0 < m) (sym s) h,
  idle,
)

Settled-Represents :
    (dq : PersistentDeque) (rows : List Row) (n : ℕ) (db : Database) (q : List Text)
    → Settled dq.conn rows n db
    → AllFree rows
    → Descends n rows
    → 0 < n
    → contents_of rows ≡ q
    → Represents dq db q
Settled-Represents dq rows n db q s f d h e =
    (Settled-Ready dq rows n db s f d h, ap contents_of s.0 ∙ e)

-- The two sides answer alike and stay alike.
abbrev Agree : PersistentDeque → Database × Reply → List Text × Reply → Type 0
Agree dq (db, r) (q, r') = (r ≡ r') × Represents dq db q

-- The rows with one more represent the list with one more.
Grown-Represents :
    (dq : PersistentDeque) (d : Direction) (skipped : ℕ) (z : Text) (db db' : Database)
    (q : List Text)
    → Represents dq db q
    → Grown dq.conn skipped d z db.rows db.next_seq db'
    → Represents dq db' (put_at d z q)
Grown-Represents dq d skipped z db db' q ((f, desc, h, _), e) s =
    let row : Row = record { seq = db.next_seq + skipped; dir = d; data_ = z; holder = none } in
    Settled-Represents dq (row ∷ db.rows) (suc (db.next_seq + skipped)) db' (put_at d z q) s
      (refl, f)
      (
        omega arith,
        omega arith,
        Descends-le db.next_seq (db.next_seq + skipped) db.rows (omega arith) desc,
      )
      (omega arith) (contents_of-cons row db.rows ∙ ap (put_at d z) e)

same-Represents :
    (dq : PersistentDeque) (db db' : Database) (q : List Text)
    → Represents dq db q
    → Settled dq.conn db.rows db.next_seq db'
    → Represents dq db' q
same-Represents dq db db' q ((f, desc, h, _), e) s =
    Settled-Represents dq db.rows db.next_seq db' q s f desc h e

push_reply-Agree :
    (dq : PersistentDeque) (d : Direction) (skipped : ℕ) (fate : Fate) (o : Option Text)
    (db : Database) (q : List Text) (t : Database × Error)
    → Represents dq db q
    → PushedOk fate o dq.conn skipped d db.rows db.next_seq t
    → Agree dq (push_reply (t.0, ok t.1)) (list_push d fate o q)
push_reply-Agree dq d skipped succeeds (some z) db q (db', err) h (s, good) =
    rw good (refl, Grown-Represents dq d skipped z db db' q h s)
push_reply-Agree dq d skipped in_doubt (some z) db q (db', err) h (s, fault) =
    rw fault (refl, Grown-Represents dq d skipped z db db' q h s)
push_reply-Agree dq d skipped fails (some z) db q (db', err) h (s, fault) =
    rw fault (refl, same-Represents dq db db' q h s)
push_reply-Agree dq d skipped succeeds none db q (db', err) h (s, fault) =
    rw fault (refl, same-Represents dq db db' q h s)
push_reply-Agree dq d skipped in_doubt none db q (db', err) h (s, fault) =
    rw fault (refl, same-Represents dq db db' q h s)
push_reply-Agree dq d skipped fails none db q (db', err) h (s, fault) =
    rw fault (refl, same-Represents dq db db' q h s)

-- The row that a search finds is the end of the list, and the others represent the rest.
found-end :
    (dq : PersistentDeque) (d : Direction) (r : Row) (db : Database) (q : List Text)
    → Represents dq db q
    → select_row d db.rows ≡ some r
    → take_end d q ≡ some (r.data_, contents_of (delete_row (position r) db.rows))
found-end dq d r db q ((f, desc, _, _), e) selects =
    let left : List Row = delete_row (position r) db.rows in
    let ends : q ≡ put_at d r.data_ (contents_of left) =
      sym e ∙ contents_of-delete_row d db.next_seq db.rows r f desc selects in
    ap (take_end d) ends ∙ take_end-put_at d r.data_ (contents_of left)

left-Represents :
    (dq : PersistentDeque) (r : Row) (db db' : Database) (q : List Text)
    → Represents dq db q
    → Settled dq.conn (delete_row (position r) db.rows) db.next_seq db'
    → Represents dq db' (contents_of (delete_row (position r) db.rows))
left-Represents dq r db db' q ((f, desc, h, _), e) s =
    Settled-Represents dq (delete_row (position r) db.rows) db.next_seq db' _ s
      (delete_row-AllFree (position r) db.rows f)
      (delete_row-Descends (position r) db.next_seq db.rows desc) h refl

-- Where a search finds no row, the list is empty.
found-none :
    (dq : PersistentDeque) (d : Direction) (db : Database) (q : List Text)
    → Represents dq db q
    → select_row d db.rows ≡ none
    → take_end d q ≡ none
found-none dq d db q ((f, desc, _, _), e) selects =
    let no_rows : db.rows ≡ [] = none_selected d db.next_seq db.rows f desc selects in
    let nothing : q ≡ [] = sym e ∙ ap contents_of no_rows in
    ap (take_end d) nothing ∙ take_end_nil d
  where
    take_end_nil : (d : Direction) → take_end {A = Text} d [] ≡ none
    take_end_nil forward = refl
    take_end_nil backward = refl

take_reply-Agree :
    (dq : PersistentDeque) (d : Direction) (fate : Fate) (o : Option Row) (db : Database)
    (q : List Text) (t : Taken)
    → Represents dq db q
    → select_row d db.rows ≡ o
    → TakenOk fate dq.conn db.rows db.next_seq o t
    → Agree dq (take_reply t) (list_take fate q (take_end d q))
take_reply-Agree dq d succeeds none db q (db', el, err) h selects (s, fault) =
    rw (fault, found-none dq d db q h selects) (refl, same-Represents dq db db' q h s)
take_reply-Agree dq d in_doubt none db q (db', el, err) h selects (s, fault) =
    rw (fault, found-none dq d db q h selects) (refl, same-Represents dq db db' q h s)
take_reply-Agree dq d fails none db q (db', el, err) h selects (s, fault) =
    rw (fault, found-none dq d db q h selects) (refl, same-Represents dq db db' q h s)
take_reply-Agree dq d fails (some r) db q (db', el, err) h selects (s, fault) =
    rw (fault, found-end dq d r db q h selects) (refl, same-Represents dq db db' q h s)
take_reply-Agree dq d in_doubt (some r) db q (db', el, err) h selects (s, fault) =
    rw (fault, found-end dq d r db q h selects) (refl, left-Represents dq r db db' q h s)
take_reply-Agree dq d succeeds (some r) db q (db', el, err) h selects (s, same, good) =
    rw (good, found-end dq d r db q h selects) (ap taken same, left-Represents dq r db db' q h s)

count_reply-Agree :
    (dq : PersistentDeque) (b : Bool) (db : Database) (q : List Text) (t : Database × ℕ × Error)
    → Represents dq db q
    → CountedOk b dq.conn db.rows db.next_seq t
    → Agree dq (count_reply t) (if b then (q, counted (length q)) else (q, failed))
count_reply-Agree dq false db q (db', n, err) ((f, desc, h, _), e) (s, fault) =
    rw fault (refl, Settled-Represents dq db.rows db.next_seq db' q s f desc h e)
count_reply-Agree dq true db q (db', n, err) ((f, desc, h, _), e) (s, same, good) = rw good (
  ap counted (same ∙ sym (length-contents_of db.rows) ∙ ap length e),
  Settled-Represents dq db.rows db.next_seq db' q s f desc h e,
)

step_deque-Agree :
    (dq : PersistentDeque) (junk : ℤ) (op : Op) (a : Answers) (db : Database) (q : List Text)
    → Readable op
    → Represents dq db q
    → Agree dq (step_deque dq junk op a db) (step_list op a q)
unfolding push_back push_front push_in back front
step_deque-Agree dq junk (push_at forward (throw e)) a db q readable h = (refl, h)
step_deque-Agree dq junk (push_at backward (throw e)) a db q readable h = (refl, h)
step_deque-Agree dq junk (push_at forward (ok x)) a db q (y, reads) h =
    subst
      (λ l.
        Agree dq (push_reply (push_back dq a (ok x) db))
          (list_push forward (push_fate a) (stores a l) q))
      (sym reads)
      (push_reply-Agree dq forward a.skipped (push_fate a) (a.stored y) db q
        (push_text forward (codes "PushBack") (codes "48", codes "59") dq a x db) h
        (push_text-PushedOk forward (codes "PushBack") (codes "48", codes "59") dq a x y db h.0.0
          h.0.3 reads))
step_deque-Agree dq junk (push_at backward (ok x)) a db q (y, reads) h =
    subst
      (λ l.
        Agree dq (push_reply (push_front dq a (ok x) db))
          (list_push backward (push_fate a) (stores a l) q))
      (sym reads)
      (push_reply-Agree dq backward a.skipped (push_fate a) (a.stored y) db q
        (push_text backward (codes "PushFront") (codes "88", codes "99") dq a x db) h
        (push_text-PushedOk backward (codes "PushFront") (codes "88", codes "99") dq a x y db h.0.0
          h.0.3 reads))
step_deque-Agree dq junk (take_at forward) a db q readable h =
    take_reply-Agree dq forward (take_fate a) (select_row forward db.rows) db q
      (back dq a junk true db) h refl
      (take_from-TakenOk forward (codes "Back") (codes "142", codes "154") dq a junk db h.0.0 h.0.3)
step_deque-Agree dq junk (take_at backward) a db q readable h =
    take_reply-Agree dq backward (take_fate a) (select_row backward db.rows) db q
      (front dq a junk true db) h refl
      (take_from-TakenOk backward (codes "Front") (codes "198", codes "210") dq a junk db h.0.0
        h.0.3)
step_deque-Agree dq junk count_all a db q readable h =
    count_reply-Agree dq (fine a.at_start && fine a.at_statement) db q (size_of_deque dq a db) h
      (size_of_deque-CountedOk dq a db h.0.0 h.0.3)

-- From a table that represents a list, with no row locked, a run of pushes, of takes at both ends
-- with the deletion, and of counts is answered by the deque of a client as by a double-ended list.
-- There what fails changes nothing: an operation in which the database or its client throws, a push
-- of what has no text or is not stored, and a take of nothing; but where a commit throws and has
-- taken effect all the same, the operation is done and fails. No text that is pushed ends its
-- literal.
pub run_deque-run_list :
    (dq : PersistentDeque) (junk : ℤ) (ops : List (Op × Answers)) (db : Database) (q : List Text)
    → AllReadable ops
    → Represents dq db q
    → run_deque dq junk ops db ≡ run_list ops q
run_deque-run_list dq junk [] db q readable h = refl
run_deque-run_list dq junk ((op, a) ∷ ops) db q readable h =
    let (same, h') = step_deque-Agree dq junk op a db q readable.0 h in
    ap (λ r. r ∷ run_deque dq junk ops (step_deque dq junk op a db).0) same
    ∙ ap (λ l. (step_list op a q).1 ∷ l)
        (run_deque-run_list dq junk ops (step_deque dq junk op a db).0 (step_list op a q).0
          readable.1 h')
