-- ===== src/Query/Regex/Greedy.antt =====
-- `\w+` finds the runs of word characters one after another.
use mathlib.Core.Option
use pg_fort.Base.{
  ◌≡◌, refl, sym, ap, ◌∙◌, inl, inr, ℕ, zero, suc, ◌≤◌, Bool, true, false, List, [], ◌∷◌, ◌++◌,
  Option, none, some, Text, length, Bool-cases, if◌then◌else◌, arith,
}
use pg_fort.Query.Regex.{class, then_, star, Groups, Found, after, find, rounds, match_at, read}
use pg_fort.Query.Regex.Search.{find_later, find_now, read-append}

-- The run of a class at the start of a text, and the text behind it.
abbrev pub run_of : (ℕ → Bool) → Text → Text
run_of p [] = []
run_of p (c ∷ t) = if p c then c ∷ run_of p t else []

abbrev pub past_run : (ℕ → Bool) → Text → Text
past_run p [] = []
past_run p (c ∷ t) = if p c then past_run p t else c ∷ t

run_of-append-past_run : (p : ℕ → Bool) (t : Text) → run_of p t ++ past_run p t ≡ t
run_of-append-past_run p [] = refl
run_of-append-past_run p (c ∷ t) = elim (Bool-cases (p c)) [
  | inl e ↦ rw e (ap (λ u. c ∷ u) (run_of-append-past_run p t))
  | inr e ↦ rw e refl
]

-- A repetition that nothing follows takes the whole run.
rounds-past_run :
    (p : ℕ → Bool) (f : ℕ) (t : Text) (gs : Groups)
    → length t ≤ f
    → rounds (match_at (class p)) f (t, gs) (λ q. some q) ≡ some (past_run p t, gs)
unfolding rounds match_at
rounds-past_run p zero [] gs h = refl
rounds-past_run p zero (c ∷ t) gs h = absurd (omega arith)
rounds-past_run p (suc f) [] gs h = refl
rounds-past_run p (suc f) (c ∷ t) gs h = elim (Bool-cases (p c)) [
  | inl e ↦ rw (rounds, match_at, e, rounds-past_run p f t gs (omega arith)) refl
  | inr e ↦ rw (rounds, match_at, e) refl
]

abbrev pub starts_run : (ℕ → Bool) → Text → Bool
starts_run p [] = false
starts_run p (c ∷ t) = p c

abbrev pub add_to : ℕ → Bool → List Text → List Text
add_to c false ws = (c ∷ []) ∷ ws
add_to c true [] = (c ∷ []) ∷ []
add_to c true (w ∷ ws) = (c ∷ w) ∷ ws

-- The longest runs of a class in a text, in their order.
abbrev pub runs_in : (ℕ → Bool) → Text → List Text
runs_in p [] = []
runs_in p (c ∷ t) = let rest = runs_in p t in if p c then add_to c (starts_run p t) rest else rest

runs_in-run :
    (p : ℕ → Bool) (c : ℕ) (t : Text)
    → p c ≡ true
    → runs_in p (c ∷ t) ≡ (c ∷ run_of p t) ∷ runs_in p (past_run p t)
runs_in-run p c [] e = rw e refl
runs_in-run p c (d ∷ t) e = elim (Bool-cases (p d)) [
  | inl h ↦
      let ih : add_to d (starts_run p t) (runs_in p t)
          ≡ (d ∷ run_of p t) ∷ runs_in p (past_run p t) =
        sym (ap (λ b. if b then add_to d (starts_run p t) (runs_in p t) else runs_in p t) h)
        ∙ runs_in-run p d t h in
      rw (e, h, ih) refl
  | inr h ↦
      rw e (ap (λ b. add_to c b (runs_in p (d ∷ t))) h)
      ∙ sym (
          ap
            (λ b.
              (c ∷ (if b then d ∷ run_of p t else []))
              ∷ runs_in p (if b then past_run p t else d ∷ t))
            h)
]

-- One round of `\w+` and all that follow it.
plus_now :
    (p : ℕ → Bool) (c : ℕ) (t : Text)
    → p c ≡ true
    → match_at (then_ (class p) (star (class p))) (c ∷ t, []) (λ q. some q)
      ≡ some (past_run p t, [])
unfolding match_at
plus_now p c t e = rw (match_at, e) (rounds-past_run p (length t) t [] (omega arith))

plus_later :
    (p : ℕ → Bool) (c : ℕ) (t : Text)
    → p c ≡ false
    → match_at (then_ (class p) (star (class p))) (c ∷ t, []) (λ q. some q) ≡ none
unfolding match_at
plus_later p c t e = rw (match_at, e) refl

read_run : (p : ℕ → Bool) (c : ℕ) (t : Text) → read (c ∷ t) (past_run p t) ≡ c ∷ run_of p t
read_run p c t =
    ap (λ u. read u (past_run p t)) (sym (ap (λ u. c ∷ u) (run_of-append-past_run p t)))
    ∙ read-append (c ∷ run_of p t) (past_run p t)

-- What a search for a run tells of the runs of the text.
abbrev pub RunsAre : (ℕ → Bool) → Text → Option Found → Type 0
RunsAre p t none = runs_in p t ≡ []
RunsAre p t (some m) = runs_in p t ≡ m.whole ∷ runs_in p m.suffix

RunsAre-after :
    (p : ℕ → Bool) (c : ℕ) (t : Text) (o : Option Found)
    → p c ≡ false
    → RunsAre p t o
    → RunsAre p (c ∷ t) (Option.map (after c) o)
RunsAre-after p c t none e h = rw e h
RunsAre-after p c t (some m) e h = rw e h

pub find-RunsAre :
    (p : ℕ → Bool) (t : Text) → RunsAre p t (find (then_ (class p) (star (class p))) t)
unfolding find
find-RunsAre p [] = refl
find-RunsAre p (c ∷ t) = elim (Bool-cases (p c)) [
  | inl e ↦
      rw (find_now (then_ (class p) (star (class p))) c t (past_run p t, []) (plus_now p c t e))
        (runs_in-run p c t e ∙ ap (λ w. w ∷ runs_in p (past_run p t)) (sym (read_run p c t)))
  | inr e ↦
      rw (find_later (then_ (class p) (star (class p))) c t (plus_later p c t e))
        (RunsAre-after p c t (find (then_ (class p) (star (class p))) t) e (find-RunsAre p t))
]
