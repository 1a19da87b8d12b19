-- ===== src/Query/ProxyCommand/Ordinary.antt =====
-- What becomes of a query in which no proxy command stands.
use mathlib.Core.Option
use mathlib.Core.List.{append_assoc}
use pg_fort.Base.{
  ◌≡◌, refl, ap, ◌∙◌, ◌⊎◌, inl, inr, Bool, true, false, ◌&&◌, ◌||◌, List, [], ◌∷◌, ◌++◌, Option,
  none, some, Text, codes, Option-cases,
}
use pg_fort.Common.{no_error}
use pg_fort.Query.Regex.{Regex, Found, find, then_, nothing}
use pg_fort.Query.Regex.Characters.{same_nocase}
use pg_fort.Query.Regex.Language.{Lang}
use pg_fort.Query.Regex.Search.{find-IsCutBy}
use pg_fort.Query.ProxyCommand.Patterns.{
  literal, comment, enable_access_control, create_access_permission, bind_access_role,
  list_access_role_binding, create_access_role, create_access_inheritance, list_access_permission,
  list_access_role, list_access_inheritance, unbind_access_role,
}
use pg_fort.Query.ProxyCommand.Rewriting.{Output, format, text, rewrite_all, replace_all}
use pg_fort.Query.ProxyCommand.Replacing.{
  remove_comments, access_control_template, permission_template, bind_template, binding_template,
}
use pg_fort.Query.ProxyCommand.Searching.{
  always, role_sql, permissions_sql, roles_sql, unbind_sql, inheritance, inheritances,
}
use pg_fort.Query.ProxyCommand.Translate.{
  CommandPass, then_pass, commands, run_passes, translate, answer,
}
use pg_fort.Query.ProxyCommand.Fuel.{rewrite_all-none}

-- Whether the text starts with the word, and whether the word stands in it, in any case.
abbrev pub starts_nocase : Text → Text → Bool
starts_nocase [] t = true
starts_nocase (c ∷ w) [] = false
starts_nocase (c ∷ w) (d ∷ t) = same_nocase c d && starts_nocase w t

abbrev pub mentions : Text → Text → Bool
mentions w [] = starts_nocase w []
mentions w (d ∷ t) = starts_nocase w (d ∷ t) || mentions w t

mentions_start : (w t : Text) → starts_nocase w t ≡ true → mentions w t ≡ true
mentions_start w [] e = e
mentions_start w (d ∷ t) e = rw e refl

mentions-append : (w a b : Text) → mentions w b ≡ true → mentions w (a ++ b) ≡ true
mentions-append w [] b e = e
mentions-append w (d ∷ a) b e =
    rw (mentions-append w a b e) (true_right (starts_nocase w (d ∷ (a ++ b))))
  where
    true_right : (x : Bool) → (x || true) ≡ true
    true_right true = refl
    true_right false = refl

literal-starts_nocase : (w u v : Text) → Lang (literal w) u → starts_nocase w (u ++ v) ≡ true
literal-starts_nocase [] u v l = refl
literal-starts_nocase (c ∷ w) u v (x, y, cut, (d, x_is, same), l) =
    rw (cut, x_is, same) (literal-starts_nocase w y v l)

-- A text of the pattern "a word, any text, a word and more" mentions the second word.
second_mentions :
    (w : Text) (r s rest : Regex) (u v : Text)
    → Lang (then_ r (then_ s (then_ (literal w) rest))) u
    → mentions w (u ++ v) ≡ true
second_mentions w r s rest u v (a, b, cut, _, (c, d, cut', _, (e, f, cut'', l, _))) =
    rw
      (
        cut,
        cut',
        cut'',
        append_assoc a (c ++ (e ++ f)) v,
        append_assoc c (e ++ f) v,
        append_assoc e f v,
      )
      (mentions-append w a (c ++ (e ++ (f ++ v))) (
        mentions-append w c (e ++ (f ++ v))
          (mentions_start w (e ++ (f ++ v)) (literal-starts_nocase w e (f ++ v) l))))

absent :
    (r : Regex) (t : Text)
    → ((m : Found) → t ≡ m.prefix ++ (m.whole ++ m.suffix) → Lang r m.whole → ⊥)
    → find r t ≡ none
absent r t h = elim (Option-cases (find r t)) [
  | inl e ↦ e
  | inr (m, e) ↦ let (cut, l) = find-IsCutBy r t m e in absurd (h m cut l)
]

command-absent :
    (w : Text) (r s rest : Regex) (t : Text)
    → mentions w t ≡ false
    → find (then_ r (then_ s (then_ (literal w) rest))) t ≡ none
command-absent w r s rest t silent =
    absent (then_ r (then_ s (then_ (literal w) rest))) t (λ m cut l.
      let here : mentions w t ≡ true = rw cut (
        mentions-append w m.prefix (m.whole ++ m.suffix)
          (second_mentions w r s rest m.whole m.suffix l)) in
      absurd cc)

comment_starts :
    (u v : Text)
    → Lang comment u
    → (starts_nocase (codes "--") (u ++ v) ≡ true) ⊎ (starts_nocase (codes "/*") (u ++ v) ≡ true)
unfolding comment
comment_starts u v (inl (a, b, cut, l, _)) =
    inl (rw (cut, append_assoc a b v) (literal-starts_nocase (codes "--") a (b ++ v) l))
comment_starts u v (inr (a, b, cut, l, _)) =
    inr (rw (cut, append_assoc a b v) (literal-starts_nocase (codes "/*") a (b ++ v) l))

comment-absent :
    (t : Text)
    → mentions (codes "--") t ≡ false
    → mentions (codes "/*") t ≡ false
    → find comment t ≡ none
unfolding comment
comment-absent t line block = absent comment t (λ m cut l.
    let starts : (starts_nocase (codes "--") (m.whole ++ m.suffix) ≡ true)
        ⊎ (starts_nocase (codes "/*") (m.whole ++ m.suffix) ≡ true) =
      comment_starts m.whole m.suffix l in
    elim starts [
      | inl e ↦
          let here : mentions (codes "--") t ≡ true = rw cut (
            mentions-append (codes "--") m.prefix (m.whole ++ m.suffix)
              (mentions_start (codes "--") (m.whole ++ m.suffix) e)) in
          absurd cc
      | inr e ↦
          let here : mentions (codes "/*") t ≡ true = rw cut (
            mentions-append (codes "/*") m.prefix (m.whole ++ m.suffix)
              (mentions_start (codes "/*") (m.whole ++ m.suffix) e)) in
          absurd cc
    ])

-- A pass leaves the text as it is.
abbrev Keeps : Text → CommandPass → Type 0
Keeps t p = p t ≡ some (text t)

abbrev AllKeep : Text → List CommandPass → Type 0
AllKeep t [] = Unit {0}
AllKeep t (p ∷ ps) = Keeps t p × AllKeep t ps

run_passes-Keeps : (ps : List CommandPass) (t : Text) → AllKeep t ps → Keeps t (run_passes ps)
unfolding run_passes
run_passes-Keeps [] t h = refl
run_passes-Keeps (p ∷ ps) t h = rw (run_passes, h.0) (run_passes-Keeps ps t h.1)

abbrev head_of : Regex → Regex
head_of (then_ r s) = r
head_of _ = nothing

abbrev tail_of : Regex → Regex
tail_of (then_ r s) = s
tail_of _ = nothing

-- The pattern is a word, space, the word `w`, and more.
abbrev HasSecond : Text → Regex → Type 0
HasSecond w re =
    re
    ≡ then_ (head_of re)
        (then_ (head_of (tail_of re)) (then_ (literal w) (tail_of (tail_of (tail_of re)))))

command-Keeps :
    (w : Text) (re : Regex) (out : Found → Option Output) (t : Text)
    → HasSecond w re
    → mentions w t ≡ false
    → Keeps t (rewrite_all re out)
command-Keeps w re out t shape silent = rewrite_all-none re out t (
    ap (λ r. find r t) shape
    ∙ command-absent w (head_of re) (head_of (tail_of re)) (tail_of (tail_of (tail_of re))) t
        silent)

-- The passes behind `remove_comments`.
commands-Keep : (t : Text) → mentions (codes "ACCESS") t ≡ false → AllKeep t commands
unfolding commands replace_all
commands-Keep t silent =
    let replacing : (re : Regex) (tpl : Text)
        → HasSecond (codes "ACCESS") re
        → Keeps t (replace_all re tpl) =
      λ re tpl shape.
        command-Keeps (codes "ACCESS") re (λ m. some (text (format tpl m))) t shape silent in
    let searching : (re : Regex) (out : Found → Option Output)
        → HasSecond (codes "ACCESS") re
        → Keeps t (rewrite_all re out) =
      λ re out shape. command-Keeps (codes "ACCESS") re out t shape silent in
    (
      replacing enable_access_control access_control_template refl,
      (
        replacing create_access_permission permission_template refl,
        (
          searching create_access_role (always role_sql) refl,
          (
            searching create_access_inheritance inheritance refl,
            (
              searching list_access_permission (always permissions_sql) refl,
              (
                replacing list_access_role_binding binding_template refl,
                (
                  searching list_access_role (always roles_sql) refl,
                  (
                    searching list_access_inheritance inheritances refl,
                    (
                      replacing bind_access_role bind_template refl,
                      (searching unbind_access_role (always unbind_sql) refl, tt),
                    ),
                  ),
                ),
              ),
            ),
          ),
        ),
      ),
    )

-- A query that does not mention ACCESS once its comments are removed is translated to what is left.
pub translate-uncommented :
    (query t : Text)
    → remove_comments query ≡ some (text t)
    → mentions (codes "ACCESS") t ≡ false
    → translate query ≡ some (t, no_error)
unfolding translate
translate-uncommented query t uncommented silent = ap (Option.map (answer query)) (
    ap (λ o. then_pass o (run_passes commands)) uncommented
    ∙ run_passes-Keeps commands t (commands-Keep t silent))

uncommented :
    (query : Text)
    → mentions (codes "--") query ≡ false
    → mentions (codes "/*") query ≡ false
    → remove_comments query ≡ some (text query)
unfolding remove_comments replace_all
uncommented query line block =
    rewrite_all-none comment (λ m. some (text (format [] m))) query
      (comment-absent query line block)

-- A query in which neither `--` nor `/*` nor, in any case, the word ACCESS stands is translated to
-- itself, without an error.
pub translate-ordinary :
    (query : Text)
    → mentions (codes "--") query ≡ false
    → mentions (codes "/*") query ≡ false
    → mentions (codes "ACCESS") query ≡ false
    → translate query ≡ some (query, no_error)
translate-ordinary query line block silent =
    translate-uncommented query query (uncommented query line block) silent
