-- ===== src/Query/Regex/Search.antt =====
-- `std::regex_search`: what it finds is a text of the pattern, and it cuts the text in three.
use mathlib.Core.Option.{some-injective}
use mathlib.Core.Option
use pg_fort.Base.{
  ◌≡◌, refl, sym, ap, ◌∙◌, inl, inr, ℕ, ◌-◌, ◌<◌, Bool, true, false, ◌&&◌, ◌||◌, [], ◌∷◌, ◌++◌,
  Option, none, some, Text, length, take, length-append, take-append, Bool-cases, Option-cases,
  arith,
}
use pg_fort.Query.Regex.{
  Regex, class, nothing, then_, or_, star, lazy_star, group, ahead, Position, Found, found_at,
  after, find, match_at, read,
}
use pg_fort.Query.Regex.Language.{Lang, match_at-Reads}

-- The match found is a text of the pattern between what is before and what is behind it.
abbrev pub IsCutBy : Regex → Text → Found → Type 0
IsCutBy r t m = (t ≡ m.prefix ++ (m.whole ++ m.suffix)) × Lang r m.whole

pub read-append : (u v : Text) → read (u ++ v) v ≡ u
read-append u v = ap (λ n. take n (u ++ v)) (length_lem) ∙ take-append u v
  where
    length_lem : length (u ++ v) - length v ≡ length u
    length_lem = omega (arith, length-append u v)

read-cut :
    (r : Regex) (t u v w : Text)
    → t ≡ u ++ v
    → v ≡ w
    → Lang r u
    → (t ≡ read t w ++ w) × Lang r (read t w)
read-cut r t u v w cut e l = rw (cut, sym e, read-append u v) (refl, l)

found_at-IsCutBy :
    (r : Regex) (t : Text) (p : Position)
    → match_at r (t, []) (λ p'. some p') ≡ some p
    → IsCutBy r t (found_at t p)
found_at-IsCutBy r t p e =
    let (u, v, gs, cut, l, end) = match_at-Reads r (t, []) (λ p'. some p') p e in
    read-cut r t u v p.0 cut (ap (λ q. q.0) (some-injective _ _ end)) l

found-nil :
    (r : Regex) (o : Option Position) (m : Found)
    → match_at r ([], []) (λ p. some p) ≡ o
    → Option.map (found_at []) o ≡ some m
    → IsCutBy r [] m
found-nil r none m e h = absurd cc
found-nil r (some p) m e h = rw (sym (some-injective _ _ h)) (found_at-IsCutBy r [] p e)

after-IsCutBy :
    (r : Regex) (c : ℕ) (t : Text) (o : Option Found) (m : Found)
    → ((m' : Found) → o ≡ some m' → IsCutBy r t m')
    → Option.map (after c) o ≡ some m
    → IsCutBy r (c ∷ t) m
after-IsCutBy r c t none m ih h = absurd cc
after-IsCutBy r c t (some m') m ih h =
    let (cut, l) = ih m' refl in rw (sym (some-injective _ _ h)) (ap (λ u. c ∷ u) cut, l)

pub find_later :
    (r : Regex) (c : ℕ) (t : Text)
    → match_at r (c ∷ t, []) (λ p. some p) ≡ none
    → find r (c ∷ t) ≡ Option.map (after c) (find r t)
unfolding find
find_later r c t e = rw (find, e) refl

pub find_now :
    (r : Regex) (c : ℕ) (t : Text) (p : Position)
    → match_at r (c ∷ t, []) (λ p'. some p') ≡ some p
    → find r (c ∷ t) ≡ some (found_at (c ∷ t) p)
unfolding find
find_now r c t p e = rw (find, e) refl

pub find-IsCutBy : (r : Regex) (t : Text) (m : Found) → find r t ≡ some m → IsCutBy r t m
unfolding find
find-IsCutBy r [] m e = found-nil r (match_at r ([], []) (λ p. some p)) m refl e
find-IsCutBy r (c ∷ t) m e = elim (Option-cases (match_at r (c ∷ t, []) (λ p. some p))) [
  | inl h ↦
      after-IsCutBy r c t (find r t) m (λ m' h'. find-IsCutBy r t m' h')
        (sym (find_later r c t h) ∙ e)
  | inr (p, h) ↦
      rw (sym (some-injective _ _ (sym (find_now r c t p h) ∙ e))) (found_at-IsCutBy r (c ∷ t) p h)
]

-- Whether every text of the pattern has a character.
abbrev pub reads_some : Regex → Bool
reads_some (class p) = true
reads_some nothing = false
reads_some (then_ r s) = reads_some r || reads_some s
reads_some (or_ r s) = reads_some r && reads_some s
reads_some (star r) = false
reads_some (lazy_star r) = false
reads_some (group i r) = reads_some r
reads_some (ahead r) = false

reads_some_lem : (r : Regex) (u : Text) → reads_some r ≡ true → Lang r u → 0 < length u
reads_some_lem (class p) u e (c, h, _) = rw h (omega arith)
reads_some_lem nothing u e l = absurd cc
reads_some_lem (then_ r s) u e (v, w, h, l, l') = elim (Bool-cases (reads_some r)) [
  | inl h' ↦ rw h (omega (arith, length-append v w, reads_some_lem r v h' l))
  | inr h' ↦ rw h (omega (arith, length-append v w, reads_some_lem s w (ground arith) l'))
]
reads_some_lem (or_ r s) u e (inl l) = reads_some_lem r u (ground arith) l
reads_some_lem (or_ r s) u e (inr l) = reads_some_lem s u (ground arith) l
reads_some_lem (star r) u e l = absurd cc
reads_some_lem (lazy_star r) u e l = absurd cc
reads_some_lem (group i r) u e l = reads_some_lem r u e l
reads_some_lem (ahead r) u e l = absurd cc

-- What is behind a match is shorter than the text.
pub length-suffix :
    (r : Regex) (t : Text) (m : Found)
    → reads_some r ≡ true
    → find r t ≡ some m
    → length m.suffix < length t
length-suffix r t m e h =
    let (cut, l) = find-IsCutBy r t m h in
    rw cut (
      omega (
        arith,
        reads_some_lem r m.whole e l,
        length-append m.prefix (m.whole ++ m.suffix),
        length-append m.whole m.suffix,
      ))
