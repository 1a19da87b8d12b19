-- ===== src/PersistentDeque/Exclusion.antt =====
-- An element that is held is not handed out to another connection.
use pg_fort.Base.{
  ◌≢◌, ◌≡◌, refl, ap, ◌∙◌, subst, ◌⊎◌, inl, inr, ℕ, Bool, true, false, List, [], ◌∷◌, Option, none,
  some, Text, codes, if◌then◌else◌, map, Bool-cases, ==_iff, Exception, client_error, Result, ok,
  throw,
}
use pg_fort.Common.{Error, is_error}
use pg_fort.PersistentDeque.{
  ℤ, pos, negsuc, eq_int, ltb_int, Direction, forward, backward, Row, position, Database, Answers,
  PersistentDeque, start, caught, or_throw, set_busy,
}
use pg_fort.PersistentDeque.Operations.{
  back, front, Element, Taken, take_from, select_row, first_in, is_locked, lock_row, locked,
  element_of, on_selecting, on_selected, on_parsed, on_pop, pop_element, Popping,
}
use pg_fort.PersistentDeque.Outcomes.{caught-is_error}

-- Every row at the position is locked.
abbrev pub LockedAt : ℤ → List Row → Type 0
LockedAt p [] = Unit {0}
LockedAt p (r ∷ rs) = (eq_int (position r) p ≡ true → is_locked r.holder ≡ true) × LockedAt p rs

lock_row-LockedAt : (c : ℕ) (p : ℤ) (rs : List Row) → LockedAt p (map (lock_row c p) rs)
lock_row-LockedAt c p [] = tt
lock_row-LockedAt c p (r ∷ rs) =
    (λ e. ap (λ b. is_locked (if b then some c else r.holder)) e, lock_row-LockedAt c p rs)

-- A row that is not locked, at another position.
abbrev Elsewhere : ℤ → Option Row → Type 0
Elsewhere p none = Unit {0}
Elsewhere p (some s) = eq_int (position s) p ≡ false

first_in-Elsewhere :
    (d : Direction) (p : ℤ) (r : Row) (o : Option Row)
    → eq_int (position r) p ≡ false
    → Elsewhere p o
    → Elsewhere p (first_in d r o)
first_in-Elsewhere d p r none e h = e
first_in-Elsewhere forward p r (some s) e h =
    elim (Bool-cases (ltb_int (position r) (position s))) [ inl l ↦ rw l h | inr l ↦ rw l e ]
first_in-Elsewhere backward p r (some s) e h =
    elim (Bool-cases (ltb_int (position s) (position r))) [ inl l ↦ rw l h | inr l ↦ rw l e ]

unlocked-elsewhere : (b : Bool) (l : Bool) → (b ≡ true → l ≡ true) → l ≡ false → b ≡ false
unlocked-elsewhere true l h e = let i : l ≡ true = h refl in absurd cc
unlocked-elsewhere false l h e = refl

select_row-Elsewhere :
    (d : Direction) (p : ℤ) (rs : List Row) → LockedAt p rs → Elsewhere p (select_row d rs)
unfolding select_row
select_row-Elsewhere d p [] h = tt
select_row-Elsewhere d p (r ∷ rs) h = elim (Bool-cases (is_locked r.holder)) [
  | inl e ↦ rw (select_row, e) (select_row-Elsewhere d p rs h.1)
  | inr e ↦
      rw (select_row, e)
        (first_in-Elsewhere d p r (select_row d rs)
          (unlocked-elsewhere (eq_int (position r) p) (is_locked r.holder) h.0 e)
          (select_row-Elsewhere d p rs h.1))
]

-- What a take without an error tells of its element: it is that of the row that was selected, and,
-- unless it is popped, its row is locked.
abbrev Selected : Option Row → Element → Type 0
Selected o el = (r : Row) × (o ≡ some r) × (el.pos_ ≡ position r)

abbrev Gives : Option Row → Bool → Taken → Type 0
Gives o pop t =
    (is_error t.2 ≡ true) ⊎ (Selected o t.1 × (pop ≡ false → LockedAt t.1.pos_ t.0.rows))

module _ (c : ℕ) (junk : ℤ) (fail : Exception → Error)
    (faults : (e : Exception) → is_error (fail e) ≡ true) (table : Text) (a : Answers)
    (db : Database) where
  popped-Gives :
      (r : Row) (p : Popping) → Gives (some r) true (on_pop c junk fail (element_of c table r) p)
  popped-Gives r (db', w, throw e) = inl (faults e)
  popped-Gives r (db', w, ok err) = elim (Bool-cases (is_error err)) [
    | inl e ↦ rw e (inl e)
    | inr e ↦ rw e (inr ((r, refl, refl), λ h. absurd cc))
  ]

  parsed-Gives :
      (r : Row) (pop : Bool) (o : Option Exception)
      → Gives (some r) pop (on_parsed c junk fail a pop (element_of c table r) (locked c r db) o)
  parsed-Gives r pop (some e) = inl (faults e)
  parsed-Gives r false none = inr ((r, refl, refl), λ h. lock_row-LockedAt c (position r) db.rows)
  parsed-Gives r true none = popped-Gives r (pop_element a (element_of c table r) (locked c r db))

  selected-Gives :
      (pop : Bool) (o : Option Row) (e : Option Exception)
      → Gives o pop (on_selected c junk fail table a pop db o e)
  selected-Gives pop o (some e) = inl (faults e)
  selected-Gives pop none none = inl (faults client_error)
  selected-Gives pop (some r) none = parsed-Gives r pop a.at_parse

-- The start of a transaction leaves the rows.
abbrev HasRows : List Row → Result Database → Type 0
HasRows rows (throw e) = Unit {0}
HasRows rows (ok db) = db.rows ≡ rows

start-HasRows : (c : ℕ) (a : Answers) (db : Database) → HasRows db.rows (start c a db)
unfolding start
start-HasRows c a db = go (db.busy c) a.at_start
  where
    go :
        (b : Bool) (o : Option Exception)
        → HasRows db.rows (
            if b
            then throw client_error
            else or_throw o (ok (record db { busy = set_busy c true db.busy })))
    go true o = tt
    go false none = refl
    go false (some e) = tt

selecting-Gives :
    (c : ℕ) (junk : ℤ) (fail : Exception → Error) (table : Text) (a : Answers) (d : Direction)
    (pop : Bool) (db : Database) (r : Result Database)
    → ((e : Exception) → is_error (fail e) ≡ true)
    → HasRows db.rows r
    → Gives (select_row d db.rows) pop (on_selecting c junk fail table a d pop db r)
selecting-Gives c junk fail table a d pop db (throw e) faults h = inl (faults e)
selecting-Gives c junk fail table a d pop db (ok db') faults h =
    subst
      (λ rows.
        Gives (select_row d rows) pop
          (on_selected c junk fail table a pop db' (select_row d db'.rows) a.at_statement))
      h (selected-Gives c junk fail faults table a db' pop (select_row d db'.rows) a.at_statement)

take_from-Gives :
    (d : Direction) (func : Text) (lines : Text × Text) (dq : PersistentDeque) (a : Answers)
    (junk : ℤ) (pop : Bool) (db : Database)
    → Gives (select_row d db.rows) pop (take_from d func lines dq a junk pop db)
unfolding take_from
take_from-Gives d func lines dq a junk pop db =
    let fail : Exception → Error = caught func lines ((codes "table", dq.table) ∷ []) a in
    selecting-Gives dq.conn junk fail dq.table a d pop db (start dq.conn a db)
      (caught-is_error func lines ((codes "table", dq.table) ∷ []) a) (start-HasRows dq.conn a db)

eq_int_refl : (p : ℤ) → eq_int p p ≡ true
eq_int_refl (pos n) = (==_iff n n).1 refl
eq_int_refl (negsuc n) = (==_iff n n).1 refl

taken-Elsewhere :
    (p : ℤ) (o : Option Row) (pop : Bool) (t : Taken)
    → Gives o pop t
    → Elsewhere p o
    → is_error t.2 ≡ false
    → eq_int t.1.pos_ p ≡ false
taken-Elsewhere p o pop t (inl fault) h good = absurd cc
taken-Elsewhere p o pop t (inr ((r, o_is, pos_is), _)) h good =
    rw pos_is (subst (Elsewhere p) o_is h)

held-LockedAt :
    (o : Option Row) (t : Taken)
    → Gives o false t
    → is_error t.2 ≡ false
    → LockedAt t.1.pos_ t.0.rows
held-LockedAt o t (inl fault) good = absurd cc
held-LockedAt o t (inr (_, h)) good = h refl

-- `Back` and `Front`, by the end.
abbrev pub take_at_end : Direction → PersistentDeque → Answers → ℤ → Bool → Database → Taken
take_at_end forward dq a junk pop db = back dq a junk pop db
take_at_end backward dq a junk pop db = front dq a junk pop db

take_at_end-Gives :
    (d : Direction) (dq : PersistentDeque) (a : Answers) (junk : ℤ) (pop : Bool) (db : Database)
    → Gives (select_row d db.rows) pop (take_at_end d dq a junk pop db)
unfolding back front
take_at_end-Gives forward dq a junk pop db =
    take_from-Gives forward (codes "Back") (codes "142", codes "154") dq a junk pop db
take_at_end-Gives backward dq a junk pop db =
    take_from-Gives backward (codes "Front") (codes "198", codes "210") dq a junk pop db

-- After `Back(false)` or `Front(false)` has given an element, another call of either, by whatever
-- instance and at whichever end, gives an element of another position or an error.
pub take_at_end-exclusive :
    (d d' : Direction) (dq dq' : PersistentDeque) (a a' : Answers) (junk junk' : ℤ) (pop : Bool)
    (db : Database)
    → is_error (take_at_end d dq a junk false db).2 ≡ false
    → is_error (take_at_end d' dq' a' junk' pop (take_at_end d dq a junk false db).0).2 ≡ false
    → (take_at_end d' dq' a' junk' pop (take_at_end d dq a junk false db).0).1.pos_
      ≢ (take_at_end d dq a junk false db).1.pos_
take_at_end-exclusive d d' dq dq' a a' junk junk' pop db good good' same =
    let t : Taken = take_at_end d dq a junk false db in
    let t' : Taken = take_at_end d' dq' a' junk' pop t.0 in
    let other : eq_int t'.1.pos_ t.1.pos_ ≡ false =
      taken-Elsewhere t.1.pos_ (select_row d' t.0.rows) pop t'
        (take_at_end-Gives d' dq' a' junk' pop t.0)
        (select_row-Elsewhere d' t.1.pos_ t.0.rows
          (held-LockedAt (select_row d db.rows) t (take_at_end-Gives d dq a junk false db) good))
        good' in
    let equal : eq_int t'.1.pos_ t.1.pos_ ≡ true =
      ap (λ p. eq_int p t.1.pos_) same ∙ eq_int_refl t.1.pos_ in
    absurd cc
