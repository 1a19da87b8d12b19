-- ===== src/Query/Regex/Language.antt =====
-- The texts that a pattern of lib/query/proxy-command.cpp can match, and that a match reads one of
-- them.
use mathlib.Core.List.{append_assoc}
use pg_fort.Base.{
  Bool-cases, ◌≡◌, refl, sym, ap, ◌∙◌, ◌⊎◌, inl, inr, ℕ, zero, suc, true, [], ◌∷◌, ◌++◌, Option,
  none, some, Text, length, Bool-cases,
}
use pg_fort.Query.Regex.{
  on_ahead, Regex, class, nothing, then_, or_, star, lazy_star, group, ahead, Position, Continue,
  Groups, first_of, rounds, lazy_rounds, match_at, read,
}

abbrev pub Joined : (Text → Type 0) → (Text → Type 0) → Text → Type 0
Joined L M u = (v : Text) × (w : Text) × (u ≡ v ++ w) × L v × M w

abbrev pub Times : (Text → Type 0) → ℕ → Text → Type 0
Times L zero u = u ≡ []
Times L (suc n) u = Joined L (Times L n) u

abbrev pub Lang : Regex → Text → Type 0
Lang (class p) u = (c : ℕ) × (u ≡ c ∷ []) × (p c ≡ true)
Lang nothing u = u ≡ []
Lang (then_ r s) u = Joined (Lang r) (Lang s) u
Lang (or_ r s) u = Lang r u ⊎ Lang s u
Lang (star r) u = (n : ℕ) × Times (Lang r) n u
Lang (lazy_star r) u = (n : ℕ) × Times (Lang r) n u
Lang (group i r) u = Lang r u
Lang (ahead r) u = u ≡ []

-- From position `p` a text of `L` is read, and `k` goes on to `z`.
abbrev pub Reads : (Text → Type 0) → Position → Continue → Position → Type 0
Reads L p k z =
    (u : Text) × (v : Text) × (gs : Groups) × (p.0 ≡ u ++ v) × L u × (k (v, gs) ≡ some z)

abbrev Sound : (Position → Continue → Option Position) → (Text → Type 0) → Type 0
Sound body L = (p : Position) (k : Continue) (z : Position) → body p k ≡ some z → Reads L p k z

first_of-cases :
    (o : Option Position) (o' : Option Position) (z : Position)
    → first_of o o' ≡ some z
    → (o ≡ some z) ⊎ (o' ≡ some z)
first_of-cases none o' z e = inr e
first_of-cases (some p) o' z e = inl e

on_ahead-go :
    (o : Option Position) (o' : Option Position) (z : Position)
    → on_ahead o o' ≡ some z
    → o' ≡ some z
on_ahead-go none o' z e = absurd cc
on_ahead-go (some p) o' z e = e

joined : (t u v u' v' : Text) → t ≡ u ++ v → v ≡ u' ++ v' → t ≡ (u ++ u') ++ v'
joined t u v u' v' e e' = e ∙ ap (λ w. u ++ w) e' ∙ sym (append_assoc u u' v')

-- One text read behind another.
Reads-append :
    {L : Text → Type 0} {M : Text → Type 0}
    → (p : Position) (k : Continue) (z : Position) (body : Position → Continue → Option Position)
    → Sound body M
    → Reads L p (λ p'. body p' k) z
    → Reads (Joined L M) p k z
Reads-append p k z body sound (u, v, gs, e, l, h) =
    let (u', v', gs', e', m, h') = sound (v, gs) k z h in
    (u ++ u', v', gs', joined p.0 u v u' v' e e', (u, u', refl, l, m), h')

rounds-Sound :
    {L : Text → Type 0}
    → (body : Position → Continue → Option Position) (f : ℕ) → Sound body L
    → Sound (rounds body f) (λ u. (n : ℕ) × Times L n u)
unfolding rounds
rounds-Sound body zero sound p k z e = ([], p.0, p.1, refl, (0, refl), e)
rounds-Sound {L = L} body (suc f) sound p k z e =
    elim (first_of-cases (body p (λ p'. rounds body f p' k)) (k p) z e) [
      | inr h ↦ ([], p.0, p.1, refl, (0, refl), h)
      | inl h ↦
          let (u, v, gs, e', l, h') = sound p (λ p'. rounds body f p' k) z h in
          let (u', v', gs', e'', (n, m), h'') = rounds-Sound {L = L} body f sound (v, gs) k z h' in
          (u ++ u', v', gs', joined p.0 u v u' v' e' e'', (suc n, (u, u', refl, l, m)), h'')
    ]

lazy_rounds-Sound :
    {L : Text → Type 0}
    → (body : Position → Continue → Option Position) (f : ℕ) → Sound body L
    → Sound (lazy_rounds body f) (λ u. (n : ℕ) × Times L n u)
unfolding lazy_rounds
lazy_rounds-Sound body zero sound p k z e = ([], p.0, p.1, refl, (0, refl), e)
lazy_rounds-Sound {L = L} body (suc f) sound p k z e =
    elim (first_of-cases (k p) (body p (λ p'. lazy_rounds body f p' k)) z e) [
      | inl h ↦ ([], p.0, p.1, refl, (0, refl), h)
      | inr h ↦
          let (u, v, gs, e', l, h') = sound p (λ p'. lazy_rounds body f p' k) z h in
          let (u', v', gs', e'', (n, m), h'') =
            lazy_rounds-Sound {L = L} body f sound (v, gs) k z h' in
          (u ++ u', v', gs', joined p.0 u v u' v' e' e'', (suc n, (u, u', refl, l, m)), h'')
    ]

-- A match reads a text of the pattern.
pub match_at-Reads : (r : Regex) → Sound (match_at r) (Lang r)
unfolding match_at
match_at-Reads (class q) ([], gs) k z e = absurd cc
match_at-Reads (class q) (c ∷ t, gs) k z e = elim (Bool-cases (q c)) [
  | inl h ↦ (c ∷ [], t, gs, refl, (c, refl, h), cc)
  | inr h ↦ absurd cc
]
match_at-Reads nothing (t, gs) k z e = ([], t, gs, refl, refl, e)
match_at-Reads (then_ r s) p k z e =
    Reads-append p k z (match_at s) (match_at-Reads s)
      (match_at-Reads r p (λ p'. match_at s p' k) z e)
match_at-Reads (or_ r s) p k z e = elim (first_of-cases (match_at r p k) (match_at s p k) z e) [
  | inl h ↦ let (u, v, gs, e', l, h') = match_at-Reads r p k z h in (u, v, gs, e', inl l, h')
  | inr h ↦ let (u, v, gs, e', l, h') = match_at-Reads s p k z h in (u, v, gs, e', inr l, h')
]
match_at-Reads (star r) p k z e = rounds-Sound (match_at r) (length p.0) (match_at-Reads r) p k z e
match_at-Reads (lazy_star r) p k z e =
    lazy_rounds-Sound (match_at r) (length p.0) (match_at-Reads r) p k z e
match_at-Reads (group i r) p k z e =
    let (u, v, gs, e', l, h) = match_at-Reads r p (λ p'. k (p'.0, (i, read p.0 p'.0) ∷ p'.1)) z e in
    (u, v, (i, read p.0 v) ∷ gs, e', l, h)
match_at-Reads (ahead r) p k z e =
    ([], p.0, p.1, refl, refl, on_ahead-go (match_at r p (λ p'. some p')) (k p) z e)
