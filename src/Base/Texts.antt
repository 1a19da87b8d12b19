-- ===== src/Base/Texts.antt =====
-- Texts as lists of bytes, with the operations of `std::string` and of C strings that the
-- sources use.
use Prim.Native.Nat.{ℕ, zero, suc, ◌+◌, ◌/◌, ◌%◌, ◌<◌}
use Prim.Native.Char.{code}
use Prim.Native.String.{String}
use mathlib.Core.Path.{◌≡◌, refl, ap, sym, ◌∙◌}
use mathlib.Core.Logic.{◌↔◌}
use mathlib.Core.Bool.{Bool, true, false, ◌&&◌, ◌||◌}
use mathlib.Core.List.{List, [], ◌∷◌, ◌++◌, reverse, reverse-append, reverse-reverse}
use native.Mathlib.Omega.{arith}
use pg_fort.Base.Lists.{length, drop}
use pg_fort.Base.Tests.{ltb, ◌==◌, if◌then◌else◌}

abbrev pub Text : Type 0
Text = List ℕ

-- The code points of a literal: its bytes, since every literal of the sources is ASCII.
abbrev pub codes : String → Text
codes String.[] = []
codes (String.◌∷◌ c s) = code c ∷ codes s

unfoldable pub text_eq : Text → Text → Bool
text_eq [] [] = true
text_eq (a ∷ s) (b ∷ t) = (a == b) && text_eq s t
text_eq _ _ = false

-- The order of `std::map<std::string, …>`.
unfoldable pub text_ltb : Text → Text → Bool
text_ltb [] [] = false
text_ltb [] (b ∷ t) = true
text_ltb (a ∷ s) [] = false
text_ltb (a ∷ s) (b ∷ t) = ltb a b || ((a == b) && text_ltb s t)

unfoldable pub starts_with : Text → Text → Bool
starts_with s [] = true
starts_with [] (b ∷ p) = false
starts_with (a ∷ s) (b ∷ p) = (a == b) && starts_with s p

-- `std::string::ends_with`
unfoldable pub ends_with : Text → Text → Bool
unfolding starts_with
ends_with s p = starts_with (reverse s) (reverse p)

-- `std::to_string` of an unsigned number; a number has at most as many digits as its value.
decimal_digits : ℕ → ℕ → Text → Text
decimal_digits zero n acc = acc
decimal_digits (suc f) n acc =
    let digits = (b'0' + n % 10) ∷ acc in
    let more = decimal_digits f (n / 10) digits in if ltb n 10 then digits else more

unfoldable pub decimal : ℕ → Text
unfolding decimal_digits
decimal n = decimal_digits (suc n) n []

-- A conversion to `char` keeps the low eight bits.
abbrev pub byte_of : ℕ → ℕ
byte_of n = n % 256

-- The C string at the start of a buffer: the bytes before the first zero.
unfoldable pub c_str : Text → Text
c_str [] = []
c_str (a ∷ s) = if a == 0 then [] else a ∷ c_str s

abbrev pub HasNoNul : Text → Type 0
HasNoNul [] = Unit {0}
HasNoNul (a ∷ s) = (0 < a) × HasNoNul s

pub text_eq_iff : (s t : Text) → (text_eq s t ≡ true) ↔ (s ≡ t)
unfolding text_eq
text_eq_iff [] [] = (λ _. refl, λ _. refl)
text_eq_iff (a ∷ s) (b ∷ t) = ground (arith, text_eq_iff s t)
text_eq_iff [] (b ∷ t) = (λ e. cc, λ e. cc)
text_eq_iff (a ∷ s) [] = (λ e. cc, λ e. cc)

pub text_eq_refl : (s : Text) → text_eq s s ≡ true
text_eq_refl s = (text_eq_iff s s).1 refl

pub text_eq_sym : (s t : Text) → text_eq s t ≡ text_eq t s
text_eq_sym s t = ground (arith, text_eq_iff s t, text_eq_iff t s)

pub starts_with_iff : (s p : Text) → (starts_with s p ≡ true) ↔ ((r : Text) × (s ≡ p ++ r))
unfolding starts_with
starts_with_iff s [] = (λ _. (s, refl), λ _. refl)
starts_with_iff [] (b ∷ p) = (λ e. cc, λ (r, e). cc)
starts_with_iff (a ∷ s) (b ∷ p) = (
  λ h. let (r, e) = (starts_with_iff s p).0 (ground arith) in (r, ground arith),
  λ (r, e).
      let h : starts_with s p ≡ true = (starts_with_iff s p).1 (r, ground arith) in ground arith,
)

-- `ends_with` holds exactly of the texts that are some text followed by the suffix.
pub ends_with_iff : (s p : Text) → (ends_with s p ≡ true) ↔ ((r : Text) × (s ≡ r ++ p))
unfolding ends_with
ends_with_iff s p = (there, back)
  where
    there : starts_with (reverse s) (reverse p) ≡ true → (r : Text) × (s ≡ r ++ p)
    there h =
        let (r, e) = (starts_with_iff (reverse s) (reverse p)).0 h in
        (
          reverse r,
          sym (reverse-reverse s)
              ∙ ap reverse e
              ∙ reverse-append (reverse p) r
              ∙ ap (λ l. reverse r ++ l) (reverse-reverse p),
        )

    back : ((r : Text) × (s ≡ r ++ p)) → starts_with (reverse s) (reverse p) ≡ true
    back (r, e) =
        (starts_with_iff (reverse s) (reverse p)).1 (reverse r, ap reverse e ∙ reverse-append r p)

pub ends_with-append : (r p : Text) → ends_with (r ++ p) p ≡ true
ends_with-append r p = (ends_with_iff (r ++ p) p).1 (r, refl)

-- Reading a C string back from where it was written with its terminator.
pub c_str-append : (s t : Text) → HasNoNul s → c_str (s ++ 0 ∷ t) ≡ s
unfolding c_str
c_str-append [] t h = refl
c_str-append (a ∷ s) t h = ground (arith, c_str-append s t h.1)

pub c_str_self : (s : Text) → HasNoNul s → c_str s ≡ s
unfolding c_str
c_str_self [] h = refl
c_str_self (a ∷ s) h = ground (arith, c_str_self s h.1)

pub c_str-HasNoNul : (s : Text) → HasNoNul (c_str s)
unfolding c_str
c_str-HasNoNul [] = tt
c_str-HasNoNul (a ∷ s) = ground (arith, c_str-HasNoNul s)

-- Behind a C string and its terminator.
pub drop_past : (s t : Text) → drop (suc (length s)) (s ++ 0 ∷ t) ≡ t
drop_past [] t = refl
drop_past (a ∷ s) t = drop_past s t
