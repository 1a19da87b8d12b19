-- ===== src/Query/ProxyCommand/Searching.antt =====
-- The passes of lib/query/proxy-command.cpp that loop over `std::regex_search`.
use mathlib.Core.Option
use pg_fort.Base.{
  ℕ, zero, suc, ◌∷◌, ◌++◌, [], Bool, true, false, Option, none, some, Text, codes, length, text_eq,
  if◌then◌else◌,
}
use pg_fort.Common.{source_file, Error}
use pg_fort.Query.Regex.{Found, find}
use pg_fort.Query.Regex.Characters.{to_lower, to_upper}
use pg_fort.Query.ProxyCommand.Patterns.{
  word, create_access_role, create_access_inheritance, list_access_permission, list_access_role,
  list_access_inheritance, unbind_access_role,
}
use pg_fort.Query.ProxyCommand.Rewriting.{
  Output, text, fails, rewrite_all, str, has_matched, quote_words,
}

abbrev pub always : (Found → Text) → Found → Option Output
always out m = some (text (out m))

-- A list of names, in lower case and quoted.
abbrev pub names : Text → Text
names t = quote_words false (to_lower t)

unfoldable pub role_sql : Found → Text
unfolding str quote_words
role_sql m =
    let r = to_lower (str 1 m) in
    let p = names (str 2 m) in
    codes "INSERT INTO __access_roles__ (_name, _permissions) VALUES ('"
    ++ r
    ++ codes "', ARRAY["
    ++ p
    ++ codes "]);"
    ++ codes "INSERT INTO __access_roles_denorm__ (_name, _permission)"
    ++ codes " SELECT _name, unnest(_permissions)"
    ++ codes " FROM __access_roles__"
    ++ codes " WHERE _name = '"
    ++ r
    ++ codes "'"

unfoldable pub translate_create_access_role : Text → Option Output
unfolding rewrite_all create_access_role role_sql
translate_create_access_role command = rewrite_all create_access_role (always role_sql) command

-- An error of this file, raised by the function on the line.
abbrev pub raised : Text → Text → Text → Error
raised message function line =
    (codes "S", codes "ERROR")
    ∷ (codes "M", message)
    ∷ (codes "R", function)
    ∷ (codes "F", source_file (codes "query/proxy-command.cpp"))
    ∷ (codes "L", line)
    ∷ []

abbrev pub dimension_mismatch : Error
dimension_mismatch =
    raised (codes "dimension mismatch between source and destination columns")
      (codes "TranslateCreateAccessInheritance") (codes "204")

-- The loop's state is `f_cols_m` and `t_cols_m`, the next words of the two lists; what it returns is
-- the condition and whether one list has a word more.
unfoldable pub columns : ℕ → Bool → Option Found → Option Found → Option (Text × Bool)
unfolding find
columns zero first f_next t_next = none
columns (suc n) first none none = some ([], false)
columns (suc n) first (some f) none = some ([], true)
columns (suc n) first none (some t) = some ([], true)
columns (suc n) first (some f) (some t) =
    Option.map
      (λ (sql, rest). (
        (if first then codes " WHERE " else codes " AND ")
            ++ f.whole
            ++ codes " = $1."
            ++ t.whole
            ++ sql,
        rest,
      ))
      (columns n false (find word f.suffix) (find word t.suffix))

abbrev pub inheritance_sql : Found → Text × Bool → Output
inheritance_sql m (sql, mismatch) =
    if mismatch
    then fails dimension_mismatch
    else text (
        codes "INSERT INTO __access_inheritances__ (_src, _dst, _src_query)"
        ++ codes " VALUES ('"
        ++ str 1 m
        ++ codes "', '"
        ++ str 4 m
        ++ codes "', 'SELECT id FROM "
        ++ str 1 m
        ++ sql
        ++ codes "')")

unfoldable pub inheritance : Found → Option Output
unfolding columns str
inheritance m =
    Option.map (inheritance_sql m)
      (columns (suc (length (str 2 m))) true (find word (str 2 m)) (find word (str 5 m)))

unfoldable pub translate_create_access_inheritance : Text → Option Output
unfolding rewrite_all create_access_inheritance inheritance
translate_create_access_inheritance command =
    rewrite_all create_access_inheritance inheritance command

unfoldable pub permissions_sql : Found → Text
unfolding str has_matched
permissions_sql m =
    codes "SELECT * FROM __access_permissions__"
    ++ (if has_matched 2 m
        then codes " WHERE _relation = '" ++ str 2 m ++ codes "'::REGCLASS"
        else [])

unfoldable pub translate_list_access_permission : Text → Option Output
unfolding rewrite_all list_access_permission permissions_sql
translate_list_access_permission command =
    rewrite_all list_access_permission (always permissions_sql) command

unfoldable pub roles_sql : Found → Text
unfolding str has_matched quote_words
roles_sql m =
    codes "SELECT * FROM __access_roles__"
    ++ (if has_matched 3 m
        then codes " WHERE _permissions @> ARRAY[" ++ names (str 4 m) ++ codes "]"
        else (if has_matched 6 m
            then codes " WHERE _permissions && ARRAY[" ++ names (str 7 m) ++ codes "]"
            else (if has_matched 2 m
                then codes " WHERE _permissions @> ARRAY['" ++ to_lower (str 2 m) ++ codes "']"
                else [])))

unfoldable pub translate_list_access_role : Text → Option Output
unfolding rewrite_all list_access_role roles_sql
translate_list_access_role command = rewrite_all list_access_role (always roles_sql) command

abbrev pub syntax_error : Text → Error
syntax_error d =
    raised (codes "syntax error at or near \"" ++ d ++ codes "\"")
      (codes "TranslateListAccessInheritance") (codes "325")

-- The direction in capitals, and the table.
unfoldable pub inheritances_where : Text → Text → Output
unfolding text_eq
inheritances_where d t =
    if text_eq d (codes "FROM")
    then text (
        codes "SELECT * FROM __access_inheritances__"
        ++ codes " WHERE _src = '"
        ++ t
        ++ codes "'::REGCLASS")
    else (if text_eq d (codes "TO")
        then text (
            codes "SELECT * FROM __access_inheritances__"
            ++ codes " WHERE _dst = '"
            ++ t
            ++ codes "'::REGCLASS")
        else fails (syntax_error d))

unfoldable pub inheritances : Found → Option Output
unfolding inheritances_where has_matched str
inheritances m =
    if has_matched 2 m
    then some (inheritances_where (to_upper (str 2 m)) (str 3 m))
    else some (text (codes "SELECT * FROM __access_inheritances__"))

unfoldable pub translate_list_access_inheritance : Text → Option Output
unfolding rewrite_all list_access_inheritance inheritances
translate_list_access_inheritance command = rewrite_all list_access_inheritance inheritances command

-- A name is quoted, a parameter is not.
abbrev pub name_or_parameter : Text → ℕ → ℕ → Found → Text
name_or_parameter column i j m =
    if has_matched i m
    then codes " AND b." ++ column ++ codes " = '" ++ str i m ++ codes "'"
    else (if has_matched j m then codes " AND b." ++ column ++ codes " = " ++ str j m else [])

unfoldable pub unbind_sql : Found → Text
unfolding str has_matched
unbind_sql m =
    codes "DELETE FROM __access_binding_refs__ r"
    ++ codes " USING "
    ++ str 7 m
    ++ codes "__access_bindings__ b"
    ++ codes " WHERE b._id = ("
    ++ str 10 m
    ++ codes ")"
    ++ name_or_parameter (codes "_role") 2 3 m
    ++ name_or_parameter (codes "_principal") 5 6 m
    ++ codes " AND b._inheritance = 0"
    ++ codes " AND b._ref = r._id"

unfoldable pub translate_unbind_access_role : Text → Option Output
unfolding rewrite_all unbind_access_role unbind_sql
translate_unbind_access_role command = rewrite_all unbind_access_role (always unbind_sql) command
