-- ===== src/Query/ProxyCommand/Columns.antt =====
-- The columns of CREATE ACCESS INHERITANCE: the loop over two lists of names against the pairs of
-- the names.
use mathlib.Core.Option
use pg_fort.Base.{
  ◌≡◌, refl, ap, ◌∙◌, inl, inr, ℕ, zero, suc, ◌<◌, Bool, true, false, not, List, [], ◌∷◌, ◌++◌,
  Option, none, some, Text, codes, length, Bool-cases, if◌then◌else◌, ◌==◌, arith,
}
use pg_fort.Query.Regex.{Found, find}
use pg_fort.Query.Regex.Characters.{is_word}
use pg_fort.Query.Regex.Greedy.{runs_in, RunsAre, find-RunsAre}
use pg_fort.Query.ProxyCommand.Patterns.{word}
use pg_fort.Query.ProxyCommand.Rewriting.{fails, str}
use pg_fort.Query.ProxyCommand.Searching.{columns, inheritance, inheritance_sql, dimension_mismatch}
use pg_fort.Query.ProxyCommand.Fuel.{left, left-find}

-- The words of a text, and the pairs of two lists, as long as both last.
abbrev pub words : Text → List Text
words t = runs_in is_word t

abbrev pub pairs : List Text → List Text → List (Text × Text)
pairs [] ys = []
pairs (x ∷ xs) [] = []
pairs (x ∷ xs) (y ∷ ys) = (x, y) ∷ pairs xs ys

abbrev pub comparison : Text × Text → Text
comparison (f, t) = f ++ codes " = $1." ++ t

abbrev pub ands : List (Text × Text) → Text
ands [] = []
ands (p ∷ ps) = codes " AND " ++ comparison p ++ ands ps

abbrev pub condition : List (Text × Text) → Text
condition [] = []
condition (p ∷ ps) = codes " WHERE " ++ comparison p ++ ands ps

abbrev pub condition_from : Bool → List (Text × Text) → Text
condition_from true ps = condition ps
condition_from false ps = ands ps

-- Whether one list is longer than the other.
abbrev uneven : List Text → List Text → Bool
uneven [] [] = false
uneven [] (y ∷ ys) = true
uneven (x ∷ xs) [] = true
uneven (x ∷ xs) (y ∷ ys) = uneven xs ys

uneven-length : (xs ys : List Text) → uneven xs ys ≡ not (length xs == length ys)
uneven-length [] [] = refl
uneven-length [] (y ∷ ys) = ground arith
uneven-length (x ∷ xs) [] = ground arith
uneven-length (x ∷ xs) (y ∷ ys) = ground (arith, uneven-length xs ys)

columns-pairs :
    (n : ℕ) (first : Bool) (f t : Option Found) (fs ts : Text)
    → left f < n
    → RunsAre is_word fs f
    → RunsAre is_word ts t
    → columns n first f t
      ≡ some (condition_from first (pairs (words fs) (words ts)), uneven (words fs) (words ts))
unfolding columns
columns-pairs zero first f t fs ts h r s = absurd (omega arith)
columns-pairs (suc n) true none none fs ts h r s = rw (r, s) refl
columns-pairs (suc n) false none none fs ts h r s = rw (r, s) refl
columns-pairs (suc n) true (some f) none fs ts h r s = rw (r, s) refl
columns-pairs (suc n) false (some f) none fs ts h r s = rw (r, s) refl
columns-pairs (suc n) true none (some t) fs ts h r s = rw (r, s) refl
columns-pairs (suc n) false none (some t) fs ts h r s = rw (r, s) refl
columns-pairs (suc n) true (some f) (some t) fs ts h r s =
    rw
      (
        r,
        s,
        columns-pairs n false (find word f.suffix) (find word t.suffix) f.suffix t.suffix
            (omega (arith, left-find f.suffix)) (find-RunsAre is_word f.suffix)
            (find-RunsAre is_word t.suffix),
      )
      refl
columns-pairs (suc n) false (some f) (some t) fs ts h r s =
    rw
      (
        r,
        s,
        columns-pairs n false (find word f.suffix) (find word t.suffix) f.suffix t.suffix
            (omega (arith, left-find f.suffix)) (find-RunsAre is_word f.suffix)
            (find-RunsAre is_word t.suffix),
      )
      refl

uneven-sql :
    (m : Found) (from to : List Text)
    → inheritance_sql m (condition (pairs from to), uneven from to) ≡ (
        if length from == length to
        then inheritance_sql m (condition (pairs from to), false)
        else fails dimension_mismatch)
uneven-sql m from to =
    rw (uneven-length from to)
      (elim (Bool-cases (length from == length to)) [ inl e ↦ rw e refl | inr e ↦ rw e refl ])

-- The columns are compared pair by pair, and lists of different lengths are an error.
pub inheritance-pairs :
    (m : Found)
    → let from = words (str 2 m) in
      let to = words (str 5 m) in
      inheritance m
      ≡ some (
          if length from == length to
          then inheritance_sql m (condition (pairs from to), false)
          else fails dimension_mismatch)
unfolding inheritance
inheritance-pairs m =
    ap (Option.map (inheritance_sql m)) (
      columns-pairs (suc (length (str 2 m))) true (find word (str 2 m)) (find word (str 5 m))
        (str 2 m) (str 5 m) (omega (arith, left-find (str 2 m))) (find-RunsAre is_word (str 2 m))
        (find-RunsAre is_word (str 5 m)))
    ∙ ap some (uneven-sql m (words (str 2 m)) (words (str 5 m)))
