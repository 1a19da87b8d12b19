-- ===== src/Query/Regex/Characters.antt =====
-- The classes of characters, in the C locale, and the case of letters.
use pg_fort.Base.{ℕ, ◌+◌, ◌-◌, Bool, ◌&&◌, ◌||◌, leb, ◌==◌, if◌then◌else◌, Text, map}

abbrev pub between : ℕ → ℕ → ℕ → Bool
between a b c = leb a c && leb c b

abbrev pub is_upper : ℕ → Bool
is_upper c = between b'A' b'Z' c

abbrev pub is_lower : ℕ → Bool
is_lower c = between b'a' b'z' c

-- `\d`, `\w` and `\s`
abbrev pub is_digit : ℕ → Bool
is_digit c = between b'0' b'9' c

abbrev pub is_word : ℕ → Bool
is_word c = is_upper c || is_lower c || is_digit c || (c == b'_')

abbrev pub is_space : ℕ → Bool
is_space c = between 9 13 c || (c == 32)

-- `::tolower` and `::toupper`
abbrev pub lower : ℕ → ℕ
lower c = if is_upper c then c + 32 else c

abbrev pub upper : ℕ → ℕ
upper c = if is_lower c then c - 32 else c

abbrev pub to_lower : Text → Text
to_lower t = map lower t

abbrev pub to_upper : Text → Text
to_upper t = map upper t

-- A character of a pattern under `icase`.
abbrev pub same_nocase : ℕ → ℕ → Bool
same_nocase c d = lower c == lower d
