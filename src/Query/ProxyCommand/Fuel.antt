-- ===== src/Query/ProxyCommand/Fuel.antt =====
-- The loops of lib/query/proxy-command.cpp end: the fuel is enough.
use mathlib.Core.Option
use mathlib.Core.Option.{some-injective}
use pg_fort.Base.{
  subst, text_eq, codes, if◌then◌else◌, ◌≡◌, refl, sym, ap, ◌∙◌, inl, inr, ℕ, zero, suc, ◌<◌, ◌≤◌,
  Bool, true, false, [], ◌++◌, Option, none, some, Text, length, Option-cases, arith,
}
use pg_fort.Base.Dict.{contains}
use pg_fort.Common.{Error, is_error}
use pg_fort.Query.Regex.{Regex, Found, find}
use pg_fort.Query.Regex.Search.{reads_some, length-suffix}
use pg_fort.Query.ProxyCommand.Patterns.{word}
use pg_fort.Query.ProxyCommand.Rewriting.{
  Output, text, fails, on_output, prepend, rewrite, rewrite_all, str,
}
use pg_fort.Query.ProxyCommand.Searching.{columns, inheritance, inheritance_sql}

-- There is a result, and it has the property.
abbrev pub Returns : {A : Type 0} → (A → Type 0) → Option A → Type 0
Returns {A = A} P o = (a : A) × (o ≡ some a) × P a

-- An error of this file lacks the code that `SetError` wants of an error.
abbrev pub IsUncoded : Error → Type 0
IsUncoded e = (is_error e ≡ true) × (contains (codes "C") e ≡ false)

abbrev pub FailsUncoded : Output → Type 0
FailsUncoded (text t) = Unit {0}
FailsUncoded (fails e) = IsUncoded e

Returns-on_output :
    (o : Option Output) (prefix : Text) (rest : Option Output)
    → Returns FailsUncoded o
    → Returns FailsUncoded rest
    → Returns FailsUncoded (on_output o prefix rest)
Returns-on_output none prefix rest (a, e, _) r = absurd cc
Returns-on_output (some (fails x)) prefix rest (a, e, h) r =
    (fails x, refl, subst FailsUncoded (sym (some-injective _ _ e)) h)
Returns-on_output (some (text u)) prefix rest q (text v, e, h) =
    (text (prefix ++ u ++ v), ap (Option.map (prepend (prefix ++ u))) e, tt)
Returns-on_output (some (text u)) prefix rest q (fails x, e, h) =
    (fails x, ap (Option.map (prepend (prefix ++ u))) e, h)

rewrite-none :
    (re : Regex) (out : Found → Option Output) (f : ℕ) (t : Text)
    → find re t ≡ none
    → rewrite re out (suc f) t ≡ some (text t)
unfolding rewrite
rewrite-none re out f t e = rw (rewrite, e) refl

pub rewrite_all-none :
    (re : Regex) (out : Found → Option Output) (t : Text)
    → find re t ≡ none
    → rewrite_all re out t ≡ some (text t)
unfolding rewrite_all
rewrite_all-none re out t e = rewrite-none re out (length t) t e

rewrite-some :
    (re : Regex) (out : Found → Option Output) (f : ℕ) (t : Text) (m : Found)
    → find re t ≡ some m
    → rewrite re out (suc f) t ≡ on_output (out m) m.prefix (rewrite re out f m.suffix)
unfolding rewrite
rewrite-some re out f t m e = rw (rewrite, e) refl

pub Returns-rewrite :
    (re : Regex) (out : Found → Option Output) (f : ℕ) (t : Text)
    → reads_some re ≡ true
    → ((m : Found) → Returns FailsUncoded (out m))
    → length t < f
    → Returns FailsUncoded (rewrite re out f t)
Returns-rewrite re out zero t some_read q h = absurd (omega arith)
Returns-rewrite re out (suc f) t some_read q h = elim (Option-cases (find re t)) [
  | inl e ↦ (text t, rewrite-none re out f t e, tt)
  | inr (m, e) ↦
      let shorter : length m.suffix < length t = length-suffix re t m some_read e in
      let (o, e', fine) =
        Returns-on_output (out m) m.prefix (rewrite re out f m.suffix) (q m)
          (Returns-rewrite re out f m.suffix some_read q (omega arith)) in
      (o, rewrite-some re out f t m e ∙ e', fine)
]

pub Returns-rewrite_all :
    (re : Regex) (out : Found → Option Output) (t : Text)
    → reads_some re ≡ true
    → ((m : Found) → Returns FailsUncoded (out m))
    → Returns FailsUncoded (rewrite_all re out t)
unfolding rewrite_all
Returns-rewrite_all re out t some_read q =
    Returns-rewrite re out (suc (length t)) t some_read q (omega arith)

-- How much text is left with the match, and the text behind it.
abbrev pub left : Option Found → ℕ
left none = 0
left (some m) = suc (length m.suffix)

pub left-find : (t : Text) → left (find word t) ≤ length t
left-find t = elim (Option-cases (find word t)) [
  | inl e ↦ rw e (omega arith)
  | inr (m, e) ↦ rw e (length-suffix word t m refl e)
]

columns_end :
    (n : ℕ) (first : Bool) (f t : Option Found)
    → left f < n
    → (r : Text × Bool) × (columns n first f t ≡ some r)
unfolding columns
columns_end zero first f t h = absurd (omega arith)
columns_end (suc n) first none none h = (([], false), refl)
columns_end (suc n) first (some f) none h = (([], true), refl)
columns_end (suc n) first none (some t) h = (([], true), refl)
columns_end (suc n) first (some f) (some t) h =
    let ((sql, rest), e) =
      columns_end n false (find word f.suffix) (find word t.suffix)
        (omega (arith, left-find f.suffix)) in
    (
      (
        (if first then codes " WHERE " else codes " AND ")
            ++ f.whole
            ++ codes " = $1."
            ++ t.whole
            ++ sql,
        rest,
      ),
      rw e refl,
    )

inheritance_sql-FailsUncoded : (m : Found) (r : Text × Bool) → FailsUncoded (inheritance_sql m r)
unfolding is_error contains text_eq
inheritance_sql-FailsUncoded m (sql, true) = (refl, refl)
inheritance_sql-FailsUncoded m (sql, false) = tt

pub Returns-inheritance : (m : Found) → Returns FailsUncoded (inheritance m)
unfolding inheritance
Returns-inheritance m =
    let (r, e) =
      columns_end (suc (length (str 2 m))) true (find word (str 2 m)) (find word (str 5 m))
        (omega (arith, left-find (str 2 m))) in
    (inheritance_sql m r, ap (Option.map (inheritance_sql m)) e, inheritance_sql-FailsUncoded m r)
