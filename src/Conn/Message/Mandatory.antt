-- ===== src/Conn/Message/Mandatory.antt =====
-- `Response::SetError`: which errors it can send.
use pg_fort.Base.Dict.{contains-lookup, lookup-contains, contains}
use pg_fort.Conn.Buffer.{Buffer}
use Prim.Native.String.{String}
use mathlib.Core.Option
use mathlib.Core.Option.{some-injective}
use pg_fort.Base.{
  inl, inr, Bool-cases, false, true, ◌&&◌, ◌↔◌, Bool, codes, ◌≡◌, sym, ap, ◌∙◌, Option, none, some,
  Text, c_str, arith,
}
use pg_fort.Conn.Message.{
  set_error, optional_fields, empty_frame, mandatory_fields, Error, close_frame, field_of,
  put_mandatory, Frame, put_field, put_optional,
}

abbrev pub sendable : Error → Bool
sendable e = contains (codes "C") e && contains (codes "M") e && contains (codes "S") e

field_of-some :
    (k : String) (e : Error) → contains (codes k) e ≡ true → (v : Text) × (field_of k e ≡ some v)
unfolding field_of
field_of-some k e h = let (v, p) = lookup-contains (codes k) e h in (c_str v, rw p)

field_of-none : (k : String) (e : Error) → contains (codes k) e ≡ false → field_of k e ≡ none
unfolding field_of
field_of-none k e h = rw (contains-lookup (codes k) e h)

put_mandatory-sendable :
    (e : Error) (f : Frame)
    → sendable e ≡ true
    → (g : Frame) × (put_mandatory (mandatory_fields e) f ≡ some g)
unfolding put_mandatory
put_mandatory-sendable e f h =
    let (c, p) = field_of-some "C" e (ground arith) in
    let (m, q) = field_of-some "M" e (ground arith) in
    let (s, r) = field_of-some "S" e (ground arith) in
    (put_field b'V' s (put_field b'S' s (put_field b'M' m (put_field b'C' c f))), rw (p, q, r))

put_mandatory-unsendable :
    (e : Error) (f : Frame) → sendable e ≡ false → put_mandatory (mandatory_fields e) f ≡ none
unfolding put_mandatory
put_mandatory-unsendable e f h =
    ground (arith, field_of-none "C" e, field_of-none "M" e, field_of-none "S" e)

-- `SetError` stops the process exactly for the errors that lack a code, a text or a severity.
pub set_error-none_iff : (e : Error) → (set_error e ≡ none) ↔ (sendable e ≡ false)
unfolding set_error
set_error-none_iff e = (there, back)
  where
    back : sendable e ≡ false → set_error e ≡ none
    back h = rw (put_mandatory-unsendable e empty_frame h)

    there : set_error e ≡ none → sendable e ≡ false
    there h = elim (Bool-cases (sendable e)) [
      | inr f ↦ f
      | inl t ↦
          let (g, p) = put_mandatory-sendable e empty_frame t in
          let same : ◌≡◌ {A = Option Buffer}
              (some (close_frame (put_optional (optional_fields e) g))) none =
            sym (ap (Option.map (λ f. close_frame (put_optional (optional_fields e) f))) p) ∙ h in
          cc
    ]
