-- ===== src/Query/Regex.antt =====
-- What lib/query/proxy-command.cpp uses of `std::regex`, in its ECMAScript grammar: a pattern is
-- matched by backtracking, the first alternative and the longest repetition being tried first, and
-- what a group has matched is kept. No group whose text is used stands in a repetition.
pub mod Characters
pub mod Language
pub mod Search
pub mod Greedy
use mathlib.Core.Option
use pg_fort.Base.{
  ℕ, zero, suc, ◌-◌, Bool, true, false, List, [], ◌∷◌, ◌++◌, Option, none, some, Text, length, take,
  if◌then◌else◌, ◌==◌,
}

pub data Regex : Type 0 where
  class : (ℕ → Bool) → Regex
  nothing : Regex
  then_ : Regex → Regex → Regex
  or_ : Regex → Regex → Regex
  star : Regex → Regex
  lazy_star : Regex → Regex
  group : ℕ → Regex → Regex
  ahead : Regex → Regex

-- The groups that have matched, the latest first.
abbrev pub Groups : Type 0
Groups = List (ℕ × Text)

-- What is left of the text, and the groups.
abbrev pub Position : Type 0
Position = Text × Groups

abbrev pub Continue : Type 0
Continue = Position → Option Position

abbrev pub first_of : Option Position → Option Position → Option Position
first_of none o = o
first_of (some p) o = some p

-- What a step has read: the text at its start without the text that is left.
abbrev pub read : Text → Text → Text
read t rest = take (length t - length rest) t

-- The rounds of a repetition. A round that reads nothing is not repeated, which bounds the rounds by
-- the length of the text.
unfoldable pub rounds :
    (Position → Continue → Option Position) → ℕ → Position → Continue → Option Position
rounds body zero p k = k p
rounds body (suc f) p k = first_of (body p (λ p'. rounds body f p' k)) (k p)

unfoldable pub lazy_rounds :
    (Position → Continue → Option Position) → ℕ → Position → Continue → Option Position
lazy_rounds body zero p k = k p
lazy_rounds body (suc f) p k = first_of (k p) (body p (λ p'. lazy_rounds body f p' k))

abbrev pub on_ahead : Option Position → Option Position → Option Position
on_ahead none o = none
on_ahead (some p) o = o

abbrev pub read_class : (ℕ → Bool) → Text → Groups → Continue → Option Position
read_class p [] gs k = none
read_class p (c ∷ t) gs k = if p c then k (t, gs) else none

-- The rest of the pattern is the continuation.
unfoldable pub match_at : Regex → Position → Continue → Option Position
unfolding rounds lazy_rounds
match_at (class p) (t, gs) k = read_class p t gs k
match_at nothing p k = k p
match_at (then_ r s) p k = match_at r p (λ p'. match_at s p' k)
match_at (or_ r s) p k = first_of (match_at r p k) (match_at s p k)
match_at (star r) p k = rounds (match_at r) (length p.0) p k
match_at (lazy_star r) p k = lazy_rounds (match_at r) (length p.0) p k
match_at (group i r) p k = match_at r p (λ p'. k (p'.0, (i, read p.0 p'.0) ∷ p'.1))
match_at (ahead r) p k = on_ahead (match_at r p (λ p'. some p')) (k p)

-- `std::smatch`
pub record Found : Type 0 where
  pub prefix : Text
  pub whole : Text
  pub groups : Groups
  pub suffix : Text

abbrev pub found_at : Text → Position → Found
found_at t p = record { prefix = []; whole = read t p.0; groups = p.1; suffix = p.0 }

abbrev pub after : ℕ → Found → Found
after c m = record m { prefix = c ∷ m.prefix }

-- `std::regex_search`: the first place where the pattern matches.
unfoldable pub find : Regex → Text → Option Found
unfolding match_at
find r [] = Option.map (found_at []) (match_at r ([], []) (λ p. some p))
find r (c ∷ t) = elim (match_at r (c ∷ t, []) (λ p. some p)) [
  | some p ↦ some (found_at (c ∷ t) p)
  | none ↦ Option.map (after c) (find r t)
]

-- `m[i]`
unfoldable pub group_of : ℕ → Groups → Option Text
group_of i [] = none
group_of i ((j, t) ∷ gs) = if i == j then some t else group_of i gs
