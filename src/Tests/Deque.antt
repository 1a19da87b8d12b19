-- ===== src/Tests/Deque.antt =====
-- Runs of a persistent deque at concrete inputs.
use pg_fort.Base.{
  client_error, ok, ◌≡◌, ◌≢◌, refl, true, false, List, [], ◌∷◌, none, some, codes, sql_error, arith,
}
use pg_fort.Common.{is_error}
use pg_fort.PersistentDeque.{
  commits, doubtful, rejected, pos, forward, backward, Database, Answers, PersistentDeque,
  open_deque, new_table, read_literal,
}
use pg_fort.PersistentDeque.Operations.{
  push_back, push_front, back, front, size_of_deque, pop_element,
}
use pg_fort.PersistentDeque.Runs.{
  Op, push_at, take_at, count_all, pushed, taken, counted, failed, run_deque, run_list, take_reply,
}
use pg_fort.PersistentDeque.Refinement.{run_deque-run_list}
use pg_fort.PersistentDeque.Consuming.{hold_reply, take_reply-hold_reply}
use pg_fort.PersistentDeque.Exclusion.{take_at_end, take_at_end-exclusive}

abbrev smooth : Answers
smooth = record {
  at_start = none;
  at_statement = none;
  at_delete = none;
  at_commit = commits;
  at_parse = none;
  skipped = 0;
  stored = λ t. some t;
  other = λ t db. db;
  what = λ e. codes "error";
}

abbrev no_commit : Answers
no_commit = record smooth { at_commit = rejected sql_error; skipped = 3 }

-- The client is not told that the commit has taken effect.
abbrev doubted : Answers
doubted = record smooth { at_commit = doubtful client_error }

abbrev jobs : PersistentDeque
jobs = open_deque 7 (codes "jobs")

abbrev some_ops : List (Op × Answers)
some_ops =
    (push_at forward (ok (codes "1")), smooth)
    ∷ (push_at backward (ok (codes "2")), smooth)
    ∷ (push_at forward (ok (codes "3")), no_commit)
    ∷ (take_at forward, no_commit)
    ∷ (take_at forward, smooth)
    ∷ (push_at backward (ok (codes "4")), smooth)
    ∷ (count_all, smooth)
    ∷ (take_at forward, smooth)
    ∷ (take_at backward, doubted)
    ∷ (take_at backward, smooth)
    ∷ []

run_deque-run_list_example : run_deque jobs (pos 0) some_ops new_table ≡ run_list some_ops []
unfolding read_literal
run_deque-run_list_example =
    run_deque-run_list jobs (pos 0) some_ops new_table []
      (
        (codes "1", refl),
        (
          (codes "2", refl),
          ((codes "3", refl), (tt, (tt, ((codes "4", refl), (tt, (tt, (tt, (tt, tt)))))))),
        ),
      )
      ((tt, tt, omega arith, refl), refl)

some_replies :
    run_deque jobs (pos 0) some_ops new_table
    ≡ pushed
      ∷ pushed
      ∷ failed
      ∷ failed
      ∷ taken (codes "1")
      ∷ pushed
      ∷ counted 2
      ∷ taken (codes "2")
      ∷ failed
      ∷ failed
      ∷ []
unfolding push_back push_front back front size_of_deque is_error
some_replies = refl

-- Two elements, and two instances of the deque.
abbrev two_jobs : Database
two_jobs =
    (push_back jobs smooth (ok (codes "2")) (push_back jobs smooth (ok (codes "1")) new_table).0).0

take_at_end-exclusive_example :
    (take_at_end backward
      (open_deque 8 (codes "jobs"))
      smooth
      (pos 0)
      true
      (take_at_end backward jobs smooth (pos 0) false two_jobs).0).1.pos_
    ≢ (take_at_end backward jobs smooth (pos 0) false two_jobs).1.pos_
unfolding push_back back front is_error
take_at_end-exclusive_example =
    take_at_end-exclusive backward backward jobs (open_deque 8 (codes "jobs")) smooth smooth (pos 0)
      (pos 0) true two_jobs refl refl

-- The commit fails.
take_reply-hold_reply_example :
    take_reply (take_at_end backward jobs no_commit (pos 0) true two_jobs)
    ≡ hold_reply no_commit (take_at_end backward jobs no_commit (pos 0) false two_jobs)
take_reply-hold_reply_example = take_reply-hold_reply backward jobs no_commit (pos 0) two_jobs

held_and_popped :
    (hold_reply smooth (take_at_end backward jobs smooth (pos 0) false two_jobs)).1
    ≡ taken (codes "1")
unfolding push_back back front pop_element is_error
held_and_popped = refl

-- A string with an apostrophe ends the literal in which it is sent.
apostrophe : read_literal (codes "\"it's\"") ≡ none
unfolding read_literal
apostrophe = refl
