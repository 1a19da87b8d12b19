-- ===== src/PersistentDeque/Runs.antt =====
-- The deque against a double-ended list, over runs of its operations by one client.
use pg_fort.Base.{
  ◌≡◌, ℕ, ◌<◌, true, false, ◌&&◌, List, [], ◌∷◌, Option, none, some, Text, if◌then◌else◌, length,
  Result, ok, throw,
}
use pg_fort.Common.{Error, is_error}
use pg_fort.PersistentDeque.{
  ℤ, Direction, forward, backward, Database, Answers, PersistentDeque, read_literal,
}
use pg_fort.PersistentDeque.Operations.{Taken, push_back, push_front, back, front, size_of_deque}
use pg_fort.PersistentDeque.Ends.{put_at, Descends}
use pg_fort.PersistentDeque.Rows.{AllFree}
use pg_fort.PersistentDeque.Selection.{contents_of}
use pg_fort.PersistentDeque.Outcomes.{Fate, succeeds, fails, in_doubt, fine}
use pg_fort.PersistentDeque.Outcomes.Taking.{take_fate}
use pg_fort.PersistentDeque.Outcomes.Pushing.{push_fate}

-- What a client does, and what it is answered. What is pushed is the text of the data, or the
-- exception that its making throws. `take` is `Back(true)` or `Front(true)`.
pub data Op : Type 0 where
  push_at : Direction → Result Text → Op
  take_at : Direction → Op
  count_all : Op

pub data Reply : Type 0 where
  pushed : Reply
  taken : Text → Reply
  counted : ℕ → Reply
  failed : Reply

abbrev pub push_reply : Database × Result Error → Database × Reply
push_reply (db, throw e) = (db, failed)
push_reply (db, ok err) = if is_error err then (db, failed) else (db, pushed)

abbrev pub take_reply : Taken → Database × Reply
take_reply (db, el, err) = if is_error err then (db, failed) else (db, taken el.content)

abbrev pub count_reply : Database × ℕ × Error → Database × Reply
count_reply (db, n, err) = if is_error err then (db, failed) else (db, counted n)

abbrev pub step_deque : PersistentDeque → ℤ → Op → Answers → Database → Database × Reply
step_deque dq junk (push_at forward x) a db = push_reply (push_back dq a x db)
step_deque dq junk (push_at backward x) a db = push_reply (push_front dq a x db)
step_deque dq junk (take_at forward) a db = take_reply (back dq a junk true db)
step_deque dq junk (take_at backward) a db = take_reply (front dq a junk true db)
step_deque dq junk count_all a db = count_reply (size_of_deque dq a db)

abbrev pub run_deque : PersistentDeque → ℤ → List (Op × Answers) → Database → List Reply
run_deque dq junk [] db = []
run_deque dq junk ((op, a) ∷ ops) db =
    let (db', r) = step_deque dq junk op a db in r ∷ run_deque dq junk ops db'

-- The double-ended list: each operation does its work, or answers `failed` and changes nothing, or
-- does its work and answers `failed` all the same.
abbrev pub take_end {ℓ} : {A : Type ℓ} → Direction → List A → Option (A × List A)
take_end backward [] = none
take_end backward (x ∷ q) = some (x, q)
take_end forward [] = none
take_end forward (x ∷ q) = elim (take_end forward q) [
  | none ↦ some (x, [])
  | some (y, q') ↦ some (y, x ∷ q')
]

abbrev pub stores : Answers → Option Text → Option Text
stores a none = none
stores a (some y) = a.stored y

abbrev pub list_push : Direction → Fate → Option Text → List Text → List Text × Reply
list_push d f none q = (q, failed)
list_push d succeeds (some z) q = (put_at d z q, pushed)
list_push d in_doubt (some z) q = (put_at d z q, failed)
list_push d fails (some z) q = (q, failed)

abbrev pub list_take : Fate → List Text → Option (Text × List Text) → List Text × Reply
list_take f q none = (q, failed)
list_take succeeds q (some (x, q')) = (q', taken x)
list_take in_doubt q (some (x, q')) = (q', failed)
list_take fails q (some (x, q')) = (q, failed)

abbrev pub step_list : Op → Answers → List Text → List Text × Reply
step_list (push_at d (throw e)) a q = (q, failed)
step_list (push_at d (ok x)) a q = list_push d (push_fate a) (stores a (read_literal x)) q
step_list (take_at d) a q = list_take (take_fate a) q (take_end d q)
step_list count_all a q =
    if fine a.at_start && fine a.at_statement then (q, counted (length q)) else (q, failed)

abbrev pub run_list : List (Op × Answers) → List Text → List Reply
run_list [] q = []
run_list ((op, a) ∷ ops) q = let (q', r) = step_list op a q in r ∷ run_list ops q'

-- No text that is pushed breaks out of its literal.
abbrev pub Readable : Op → Type 0
Readable (push_at d (throw e)) = Unit {0}
Readable (push_at d (ok x)) = (y : Text) × (read_literal x ≡ some y)
Readable (take_at d) = Unit {0}
Readable count_all = Unit {0}

abbrev pub AllReadable : List (Op × Answers) → Type 0
AllReadable [] = Unit {0}
AllReadable ((op, a) ∷ ops) = Readable op × AllReadable ops

-- No row is locked, the rows have values that the sequence has given, and the connection is idle.
abbrev pub Ready : PersistentDeque → Database → Type 0
Ready dq db =
    AllFree db.rows × Descends db.next_seq db.rows × (0 < db.next_seq) × (db.busy dq.conn ≡ false)

abbrev pub Represents : PersistentDeque → Database → List Text → Type 0
Represents dq db q = Ready dq db × (contents_of db.rows ≡ q)
