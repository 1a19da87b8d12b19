-- ===== src/Query/ProxyCommand/Total.antt =====
-- Every query has a translation or an error.
use mathlib.Core.Option
use mathlib.Core.Option.{some-injective}
use pg_fort.Base.{
  subst, sym, ◌⊎◌, text_eq, codes, Bool-cases, inl, inr, ◌≡◌, refl, ap, ◌∙◌, true, List, [], ◌∷◌,
  Option, none, some, Text,
}
use pg_fort.Common.{Error, no_error, is_error}
use pg_fort.Base.Dict.{contains}
use pg_fort.Query.Regex.Characters.{to_upper}
use pg_fort.Query.Regex.{Regex, Found}
use pg_fort.Query.Regex.Search.{reads_some}
use pg_fort.Query.ProxyCommand.Rewriting.{
  Output, has_matched, str, text, fails, replace_all, rewrite_all, format,
}
use pg_fort.Query.ProxyCommand.Patterns.{
  comment, enable_access_control, create_access_permission, bind_access_role,
  list_access_role_binding, create_access_role, create_access_inheritance, list_access_permission,
  list_access_role, list_access_inheritance, unbind_access_role,
}
use pg_fort.Query.ProxyCommand.Replacing.{
  access_control_template, permission_template, bind_template, binding_template,
}
use pg_fort.Query.ProxyCommand.Searching.{
  inheritances_where, always, role_sql, permissions_sql, roles_sql, unbind_sql, inheritance,
  inheritances, inheritances_where,
}
use pg_fort.Query.ProxyCommand.Translate.{
  CommandPass, passes, run_passes, then_pass, answer, translate, translated, or_default,
}
use pg_fort.Query.ProxyCommand.Fuel.{
  Returns, FailsUncoded, IsUncoded, Returns-rewrite_all, Returns-inheritance,
}

abbrev IsTotal : CommandPass → Type 0
IsTotal p = (t : Text) → Returns FailsUncoded (p t)

abbrev AreTotal : List CommandPass → Type 0
AreTotal [] = Unit {0}
AreTotal (p ∷ ps) = IsTotal p × AreTotal ps

Returns-then_pass :
    (o : Option Output) (next : Text → Option Output)
    → Returns FailsUncoded o
    → IsTotal next
    → Returns FailsUncoded (then_pass o next)
Returns-then_pass none next (o, e, _) h = absurd cc
Returns-then_pass (some (fails x)) next (o, e, u) h =
    (fails x, refl, subst FailsUncoded (sym (some-injective _ _ e)) u)
Returns-then_pass (some (text u)) next r h = h u

run_passes-IsTotal : (ps : List CommandPass) → AreTotal ps → IsTotal (run_passes ps)
unfolding run_passes
run_passes-IsTotal [] h t = (text t, refl, tt)
run_passes-IsTotal (p ∷ ps) h t =
    Returns-then_pass (p t) (run_passes ps) (h.0 t) (run_passes-IsTotal ps h.1)

replacing : (re : Regex) (tpl : Text) → reads_some re ≡ true → IsTotal (replace_all re tpl)
unfolding replace_all
replacing re tpl h t =
    Returns-rewrite_all re (λ m. some (text (format tpl m))) t h
      (λ m. (text (format tpl m), refl, tt))

searching :
    (re : Regex) (out : Found → Text) → reads_some re ≡ true → IsTotal (rewrite_all re (always out))
searching re out h t = Returns-rewrite_all re (always out) t h (λ m. (text (out m), refl, tt))

inheritances_where-FailsUncoded : (d t : Text) → FailsUncoded (inheritances_where d t)
unfolding inheritances_where is_error contains text_eq
inheritances_where-FailsUncoded d t = elim (Bool-cases (text_eq d (codes "FROM"))) [
  | inl e ↦ rw (inheritances_where, e) tt
  | inr e ↦ elim (Bool-cases (text_eq d (codes "TO"))) [
    | inl e' ↦ rw (inheritances_where, e, e') tt
    | inr e' ↦ rw (inheritances_where, e, e') (refl, refl)
  ]
]

Returns-inheritances : (m : Found) → Returns FailsUncoded (inheritances m)
unfolding inheritances
Returns-inheritances m = elim (Bool-cases (has_matched 2 m)) [
  | inl e ↦ (
    inheritances_where (to_upper (str 2 m)) (str 3 m),
    rw (inheritances, e) refl,
    inheritances_where-FailsUncoded (to_upper (str 2 m)) (str 3 m),
  )
  | inr e ↦ (text (codes "SELECT * FROM __access_inheritances__"), rw (inheritances, e) refl, tt)
]

passes-AreTotal : AreTotal passes
unfolding passes
passes-AreTotal = (
  replacing comment [] refl,
  (
    replacing enable_access_control access_control_template refl,
    (
      replacing create_access_permission permission_template refl,
      (
        searching create_access_role role_sql refl,
        (
          (λ t.
              Returns-rewrite_all create_access_inheritance inheritance t refl Returns-inheritance),
          (
            searching list_access_permission permissions_sql refl,
            (
              replacing list_access_role_binding binding_template refl,
              (
                searching list_access_role roles_sql refl,
                (
                  (λ t.
                      Returns-rewrite_all list_access_inheritance inheritances t refl
                        Returns-inheritances),
                  (
                    replacing bind_access_role bind_template refl,
                    (searching unbind_access_role unbind_sql refl, tt),
                  ),
                ),
              ),
            ),
          ),
        ),
      ),
    ),
  ),
)

-- The query is translated without an error, or is as it was, with an error that has no code.
abbrev pub Answers : Text → Text × Error → Type 0
Answers query a = (a.1 ≡ no_error) ⊎ ((a.0 ≡ query) × IsUncoded a.1)

answer-Answers : (query : Text) (o : Output) → FailsUncoded o → Answers query (answer query o)
answer-Answers query (text t) h = inl refl
answer-Answers query (fails e) h = inr (refl, h)

-- Every query is translated within the fuel: without an error, or to itself with an error that has
-- fields but no code (`C`).
pub translate-Answers :
    (query : Text) → (translate query ≡ some (translated query)) × Answers query (translated query)
unfolding translated translate
translate-Answers query =
    let (o, e, h) = run_passes-IsTotal passes passes-AreTotal query in
    let e' : translate query ≡ some (answer query o) = ap (Option.map (answer query)) e in
    (
      e' ∙ ap (λ a. some (or_default (query, no_error) a)) (sym e'),
      subst (λ a. Answers query (or_default (query, no_error) a)) (sym e')
          (answer-Answers query o h),
    )
