-- ===== src/Query/ProxyCommand/Patterns.antt =====
-- The patterns of lib/query/proxy-command.cpp. All but that of the comments ignore case.
use pg_fort.Base.{ℕ, true, not, ◌&&◌, ◌||◌, List, [], ◌∷◌, ◌++◌, Text, codes, ◌==◌}
use pg_fort.Query.Regex.{Regex, class, nothing, then_, or_, star, lazy_star, group, ahead}
use pg_fort.Query.Regex.Characters.{is_word, is_space, is_digit, same_nocase}

abbrev pub sequence : List Regex → Regex
sequence [] = nothing
sequence (r ∷ rs) = then_ r (sequence rs)

abbrev pub plus : Regex → Regex
plus r = then_ r (star r)

-- `r?`
abbrev pub maybe : Regex → Regex
maybe r = or_ r nothing

-- A text, in any case.
abbrev pub literal : Text → Regex
literal [] = nothing
literal (c ∷ t) = then_ (class (same_nocase c)) (literal t)

-- `\s+`, `\s*` and `\w+`
abbrev pub gap : Regex
gap = plus (class is_space)

abbrev pub spaces : Regex
spaces = star (class is_space)

abbrev pub word : Regex
word = plus (class is_word)

-- Keywords, each with space behind it, and what follows.
abbrev pub keywords : List Text → List Regex → List Regex
keywords [] rs = rs
keywords (w ∷ ws) rs = literal w ∷ gap ∷ keywords ws rs

-- Keywords with space between them, and what follows.
abbrev pub command : List Text → List Regex → List Regex
command [] rs = rs
command (w ∷ []) rs = literal w ∷ rs
command (w ∷ v ∷ ws) rs = literal w ∷ gap ∷ command (v ∷ ws) rs

-- `(\w+(,\s*\w+)*)`, of the groups `i` and `j`
abbrev pub word_list : ℕ → ℕ → Regex
word_list i j =
    group i (then_ word (star (group j (sequence (literal (codes ",") ∷ spaces ∷ word ∷ [])))))

abbrev pub in_parens : Regex → List Regex
in_parens r = spaces ∷ literal (codes "(") ∷ r ∷ literal (codes ")") ∷ []

-- `([^;]+)`
abbrev pub no_semicolon : Regex
no_semicolon = plus (class (λ c. not (c == b';')))

-- `(--[^\r\n]*)|(/\*[\w\W]*?(?=\*/)\*/)`
unfoldable pub comment : Regex
comment =
    or_
      (group 1
        (sequence (literal (codes "--") ∷ star (class (λ c. not (c == 13) && not (c == 10))) ∷ [])))
      (group 2 (
        sequence (
          literal (codes "/*")
          ∷ lazy_star (class (λ c. true))
          ∷ ahead (literal (codes "*/"))
          ∷ literal (codes "*/")
          ∷ [])))

unfoldable pub enable_access_control : Regex
enable_access_control =
    sequence (keywords (codes "ENABLE" ∷ codes "ACCESS" ∷ codes "CONTROL" ∷ []) (group 1 word ∷ []))

unfoldable pub create_access_permission : Regex
create_access_permission = sequence (
    keywords (codes "CREATE" ∷ codes "ACCESS" ∷ codes "PERMISSION" ∷ []) (
      group 1 word
      ∷ gap
      ∷ keywords (codes "ON" ∷ [])
          (group 2 word ∷ gap ∷ keywords (codes "FOR" ∷ []) (group 3 word ∷ []))))

unfoldable pub create_access_role : Regex
create_access_role = sequence (
    keywords (codes "CREATE" ∷ codes "ACCESS" ∷ codes "ROLE" ∷ [])
      (group 1 word ∷ gap ∷ keywords (codes "WITH" ∷ []) (word_list 2 3 ∷ [])))

unfoldable pub create_access_inheritance : Regex
create_access_inheritance = sequence (
    keywords (codes "CREATE" ∷ codes "ACCESS" ∷ codes "INHERITANCE" ∷ codes "FROM" ∷ []) (
      group 1 word
      ∷ (in_parens (word_list 2 3)
          ++ gap ∷ keywords (codes "TO" ∷ []) (group 4 word ∷ in_parens (word_list 5 6)))))

unfoldable pub list_access_permission : Regex
list_access_permission = sequence (
    command (codes "LIST" ∷ codes "ACCESS" ∷ codes "PERMISSION" ∷ [])
      (maybe (group 1 (sequence (gap ∷ keywords (codes "ON" ∷ []) (group 2 word ∷ [])))) ∷ []))

-- `WITH ALL(…)`, `WITH ANY(…)` and `WITH …`
abbrev pub role_condition : Regex
role_condition =
    or_ (sequence (group 3 (literal (codes "ALL")) ∷ in_parens (word_list 4 5)))
      (or_ (sequence (group 6 (literal (codes "ANY")) ∷ in_parens (word_list 7 8))) (group 9 word))

unfoldable pub list_access_role : Regex
list_access_role = sequence (
    command (codes "LIST" ∷ codes "ACCESS" ∷ codes "ROLE" ∷ []) (
      maybe (group 1 (sequence (gap ∷ keywords (codes "WITH" ∷ []) (group 2 role_condition ∷ []))))
      ∷ []))

unfoldable pub list_access_inheritance : Regex
list_access_inheritance = sequence (
    command (codes "LIST" ∷ codes "ACCESS" ∷ codes "INHERITANCE" ∷ []) (
      maybe (
        group 1 (
          sequence (
            gap
            ∷ group 2 (or_ (literal (codes "FROM")) (literal (codes "TO")))
            ∷ gap
            ∷ group 3 word
            ∷ [])))
      ∷ []))

unfoldable pub bind_access_role : Regex
bind_access_role = sequence (
    keywords (codes "BIND" ∷ codes "ACCESS" ∷ codes "ROLE" ∷ []) (
      group 1 word
      ∷ gap
      ∷ keywords (codes "TO" ∷ []) (
          group 2 (plus (class (λ c. is_word c || (c == b'@'))))
          ∷ gap
          ∷ keywords (codes "ON" ∷ []) (group 3 word ∷ in_parens (group 4 no_semicolon)))))

-- `\$\d+`
abbrev pub variable : Regex
variable = then_ (literal (codes "$")) (plus (class is_digit))

unfoldable pub unbind_access_role : Regex
unbind_access_role = sequence (
    keywords (codes "UNBIND" ∷ codes "ACCESS" ∷ codes "ROLE" ∷ []) (
      group 1 (or_ (group 2 word) (group 3 variable))
      ∷ gap
      ∷ keywords (codes "FROM" ∷ []) (
          group 4 (or_ (group 5 (plus (class (λ c. is_word c || (c == b'@'))))) (group 6 variable))
          ∷ gap
          ∷ keywords (codes "ON" ∷ []) (
              group 7 (or_ (group 8 word) (group 9 variable))
              ∷ in_parens (group 10 no_semicolon)))))

unfoldable pub list_access_role_binding : Regex
list_access_role_binding = sequence (
    keywords (codes "LIST" ∷ codes "ACCESS" ∷ codes "ROLE" ∷ codes "BINDING" ∷ codes "ON" ∷ [])
      (group 1 word ∷ in_parens (group 2 no_semicolon)))
