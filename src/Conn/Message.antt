-- ===== src/Conn/Message.antt =====
-- lib/conn/include/conn/request.h and response.h: the two messages that the proxy writes itself.
pub mod Layout
pub mod Fields
pub mod Mandatory
use pg_fort.Base.{
  ℕ, ◌+◌, ◌/◌, ◌%◌, ◌^◌, ◌≡◌, List, [], ◌∷◌, ◌++◌, Option, none, some, Text, codes, byte_of, c_str,
  length, set, drop, take,
}
use Prim.Native.String.{String}
use mathlib.Core.Option
use pg_fort.Base.Dict.{lookup}
use pg_fort.Common.{Error}
use pg_fort.Conn.Buffer.{Buffer}

-- `Request::SetQuery`: `q` is a C string. `mlen` is a 64-bit number, of which four bytes are sent.
unfoldable pub set_query : Text → Buffer
set_query q =
    let qlen = length (c_str q) in
    let mlen = qlen + 5 in
    let buf : Text =
      b'Q'
      ∷ byte_of (mlen / 2 ^ 24)
      ∷ byte_of (mlen / 2 ^ 16)
      ∷ byte_of (mlen / 2 ^ 8)
      ∷ byte_of mlen
      ∷ (c_str q ++ 0 ∷ []) in
    record { buf = buf; data_size = length buf; buf_size = 0 }

-- The C string at `data + 5`, which the plugins take for the query.
unfoldable pub query_text : Buffer → Text
query_text b = c_str (drop 5 b.buf)

-- A message under construction: its bytes, and the 32-bit `total_len`.
pub record Frame : Type 0 where
  pub bytes : Text
  pub total_len : ℕ

-- One field: its key, the text and its terminator.
unfoldable pub put_field : ℕ → Text → Frame → Frame
put_field key val f = record {
  bytes = f.bytes ++ key ∷ (val ++ 0 ∷ []);
  total_len = (f.total_len + (length val + 2)) % 2 ^ 32;
}

-- The loop over `mandatory_fields`: a null pointer stops the process in `assert(key && val)`.
unfoldable pub put_mandatory : List (ℕ × Option Text) → Frame → Option Frame
unfolding put_field
put_mandatory [] f = some f
put_mandatory ((key, none) ∷ fs) f = none
put_mandatory ((key, some val) ∷ fs) f = put_mandatory fs (put_field key val f)

-- The loop over `optional_fields`.
unfoldable pub put_optional : List (ℕ × Option Text) → Frame → Frame
unfolding put_field
put_optional [] f = f
put_optional ((key, none) ∷ fs) f = put_optional fs f
put_optional ((key, some val) ∷ fs) f = put_optional fs (put_field key val f)

-- The end of the message, its length, and a ReadyForQuery message behind it.
unfoldable pub close_frame : Frame → Buffer
close_frame f =
    let n = f.total_len in
    let ended = f.bytes ++ 0 ∷ [] in
    let sized =
      set
        (set (set (set ended 1 (byte_of (n / 2 ^ 24))) 2 (byte_of (n / 2 ^ 16))) 3
          (byte_of (n / 2 ^ 8)))
        4 (byte_of n) in
    let buf = sized ++ b'Z' ∷ 0 ∷ 0 ∷ 0 ∷ 5 ∷ b'I' ∷ [] in
    record { buf = buf; data_size = length buf; buf_size = 0 }

abbrev pub empty_frame : Frame
empty_frame = record { bytes = b'E' ∷ 0 ∷ 0 ∷ 0 ∷ 0 ∷ []; total_len = 5 }

-- `err.contains(k) ? err[k].c_str() : nullptr`
unfoldable pub field_of : String → Error → Option Text
field_of k e = Option.map c_str (lookup (codes k) e)

-- `std::map<const char, …>` is walked in the order of its keys.
abbrev pub mandatory_fields : Error → List (ℕ × Option Text)
mandatory_fields e =
    (b'C', field_of "C" e)
    ∷ (b'M', field_of "M" e)
    ∷ (b'S', field_of "S" e)
    ∷ (b'V', field_of "S" e)
    ∷ []

abbrev pub optional_fields : Error → List (ℕ × Option Text)
optional_fields e =
    (b'F', field_of "F" e)
    ∷ (b'L', field_of "L" e)
    ∷ (b'P', field_of "P" e)
    ∷ (b'R', field_of "R" e)
    ∷ []

-- `Response::SetError`, both overloads: `none` is a failed assertion.
unfoldable pub set_error : Error → Option Buffer
unfolding put_mandatory put_optional close_frame field_of
set_error e =
    Option.map (λ f. close_frame (put_optional (optional_fields e) f))
      (put_mandatory (mandatory_fields e) empty_frame)
