-- ===== src/Query/ProxyCommand/Rewriting.antt =====
-- The loops of lib/query/proxy-command.cpp over the matches of a pattern, `std::regex_replace` among
-- them.
use mathlib.Core.Option
use pg_fort.Base.{
  ℕ, zero, suc, ◌-◌, Bool, [], ◌∷◌, ◌++◌, Option, none, some, Text, codes, length, if◌then◌else◌,
  ◌==◌,
}
use pg_fort.Common.{Error}
use pg_fort.Query.Regex.{Regex, Found, find, group_of}
use pg_fort.Query.Regex.Characters.{is_digit, is_word}

-- What a command, or a whole text, is translated to.
pub data Output : Type 0 where
  text : Text → Output
  fails : Error → Output

abbrev pub prepend : Text → Output → Output
prepend p (text t) = text (p ++ t)
prepend p (fails e) = fails e

-- A match's output between the text before it and what becomes of the text behind it.
abbrev pub on_output : Option Output → Text → Option Output → Option Output
on_output none prefix rest = none
on_output (some (fails e)) prefix rest = some (fails e)
on_output (some (text t)) prefix rest = Option.map (prepend (prefix ++ t)) rest

-- `while (std::regex_search(command, m, re))`, with fuel: `none` means that it ran out.
unfoldable pub rewrite : Regex → (Found → Option Output) → ℕ → Text → Option Output
rewrite re out zero t = none
rewrite re out (suc f) t = elim (find re t) [
  | none ↦ some (text t)
  | some m ↦ on_output (out m) m.prefix (rewrite re out f m.suffix)
]

-- Each match reads a character or more.
unfoldable pub rewrite_all : Regex → (Found → Option Output) → Text → Option Output
unfolding rewrite
rewrite_all re out t = rewrite re out (suc (length t)) t

-- `m[i].str()`, which is empty for a group that has not matched.
abbrev pub text_or_empty : Option Text → Text
text_or_empty none = []
text_or_empty (some t) = t

unfoldable pub str : ℕ → Found → Text
unfolding group_of
str i m = text_or_empty (group_of i m.groups)

abbrev pub matched : Option Text → Bool
matched none = Bool.false
matched (some t) = Bool.true

-- `m[i].matched`
unfoldable pub has_matched : ℕ → Found → Bool
unfolding group_of
has_matched i m = matched (group_of i m.groups)

-- The format of `std::regex_replace`: `$` and a digit stand for a group. In the templates no second
-- digit and no other escape follows a `$`.
unfoldable pub format : Text → Found → Text
unfolding str
format [] m = []
format (c ∷ []) m = c ∷ []
format (c ∷ d ∷ t) m =
    let rest = format t m in
    let whole = format (d ∷ t) m in
    if c == b'$' then (if is_digit d then str (d - 48) m ++ rest else c ∷ whole) else c ∷ whole

-- `std::regex_replace(p, std::regex("(\\w+)"), "'$1'")`: each run of word characters is quoted. The
-- second argument tells whether the character before was one.
unfoldable pub quote_words : Bool → Text → Text
quote_words Bool.false [] = []
quote_words Bool.true [] = codes "'"
quote_words Bool.false (c ∷ t) =
    if is_word c then b'\'' ∷ c ∷ quote_words Bool.true t else c ∷ quote_words Bool.false t
quote_words Bool.true (c ∷ t) =
    if is_word c then c ∷ quote_words Bool.true t else b'\'' ∷ c ∷ quote_words Bool.false t

-- `std::regex_replace(command, re, tpl)`
unfoldable pub replace_all : Regex → Text → Text → Option Output
unfolding rewrite_all format
replace_all re tpl t = rewrite_all re (λ m. some (text (format tpl m))) t
