-- ===== src/Session/PrintInfo.antt =====
-- lib/session/print-info.cpp: what is logged of a message. The buffer is the whole vector, and a read
-- behind its end is a result of its own.
pub mod Bounds
use mathlib.Core.Option
use pg_fort.Base.{
  ℕ, zero, suc, ◌+◌, ◌-◌, ◌*◌, ◌/◌, ◌%◌, ◌^◌, Bool, true, false, ◌&&◌, List, [], ◌∷◌, ◌++◌, Option,
  none, some, Text, codes, decimal, length, drop, ltb, ◌==◌, if◌then◌else◌,
}

pub data SentBy : Type 0 where
  backend frontend : SentBy

abbrev pub is_backend : SentBy → Bool
is_backend backend = true
is_backend frontend = false

-- What is printed, with the position that has been reached; or a read behind the end of the vector;
-- or too little fuel.
pub data Printing : Type 0 where
  printed : Text → ℕ → Printing
  over_read : Printing
  stuck : Printing

abbrev pub and_print : Text → Printing → Printing
and_print t (printed u p) = printed (t ++ u) p
and_print t over_read = over_read
and_print t stuck = stuck

abbrev pub then_print : Printing → (ℕ → Printing) → Printing
then_print (printed t p) k = and_print t (k p)
then_print over_read k = over_read
then_print stuck k = stuck

-- A line ends with `std::endl`.
abbrev pub line : Text → Text
line t = t ++ 10 ∷ []

-- The string at a pointer, if it ends within the vector.
unfoldable pub c_string : Text → Option Text
c_string [] = none
c_string (a ∷ t) = if a == 0 then some [] else Option.map (λ u. a ∷ u) (c_string t)

-- `uint32_t` of a `char`, which is signed.
abbrev pub widen : ℕ → ℕ
widen b = if ltb b 128 then b else b + (2 ^ 32 - 256)

abbrev pub hex_digit : ℕ → ℕ
hex_digit d = if ltb d 10 then b'0' + d else b'a' + (d - 10)

-- `%x`, of at most eight digits.
unfoldable pub hex : ℕ → ℕ → Text → Text
hex zero n acc = acc
hex (suc f) n acc =
    let digits = hex_digit (n % 16) ∷ acc in
    let more = hex f (n / 16) digits in if ltb n 16 then digits else more

-- The length field, behind the type.
abbrev pub length_at : Text → Option ℕ
length_at (t ∷ a ∷ b ∷ c ∷ d ∷ rest) = some (a * 2 ^ 24 + b * 2 ^ 16 + c * 2 ^ 8 + d)
length_at _ = none

-- `'Q'`
abbrev pub on_query : Option Text → ℕ → Printing
on_query none len = over_read
on_query (some query) len =
    printed
      (line (codes "\t\"Query\"")
        ++ line (codes "\ttotal len = " ++ decimal len)
        ++ line (codes "\tquery len = " ++ decimal ((len + (2 ^ 32 - 4)) % 2 ^ 32))
        ++ 10 ∷ line (codes "\tquery =")
        ++ line (9 ∷ query))
      5

abbrev pub field_lines : ℕ → Text → ℕ → Text
field_lines k v pos =
    line (codes "\tfield type = " ++ k ∷ [])
    ++ codes "\tfield value = "
    ++ v
    ++ line (codes "\t[pos: " ++ decimal (pos + 1) ++ codes "]")

-- The loop over the fields of an error, with fuel; the last argument is the memory at `pos`.
abbrev pub on_field : ℕ → ℕ → Option Text → (Text → Printing) → Printing
on_field k pos none next = over_read
on_field k pos (some v) next = and_print (field_lines k v pos) (next v)

unfoldable pub print_fields : ℕ → ℕ → ℕ → Text → Printing
unfolding c_string
print_fields zero len pos rest = stuck
print_fields (suc f) len pos [] = if ltb pos len then over_read else printed [] pos
print_fields (suc f) len pos (k ∷ t) = elim (ltb pos len) [
  | true ↦
      on_field k pos (c_string t)
        (λ v. print_fields f len (pos + 1 + (length v + 1)) (drop (suc (length v)) t))
  | false ↦ printed [] pos
]

abbrev pub byte_line : ℕ → ℕ → Text
byte_line i b =
    codes "\t\tdata["
    ++ decimal i
    ++ codes "] = "
    ++ b ∷ codes " ["
    ++ hex 8 (widen b) []
    ++ codes "]"
    ++ line (if b == 0 then codes " (zero)" else [])

-- The loop over the bytes behind them: how many, from which index.
unfoldable pub print_bytes : ℕ → ℕ → Text → Printing
unfolding hex
print_bytes zero i rest = printed [] i
print_bytes (suc n) i [] = over_read
print_bytes (suc n) i (b ∷ rest) = and_print (byte_line i b) (print_bytes n (suc i) rest)

abbrev pub error_header : ℕ → Text
error_header len =
    line (codes "\t" ++ 27 ∷ codes "[1;35m\"ErrorResponse\"" ++ 27 ∷ codes "[0m")
    ++ line (codes "\ttotal len = " ++ decimal len)
    ++ line (codes "\tbody len = " ++ decimal ((len + (2 ^ 32 - 4)) % 2 ^ 32))

abbrev pub done_line : ℕ → Text
done_line pos = line (codes "\tdone [pos: " ++ decimal pos ++ codes "]")

-- `'E'`
unfoldable pub print_error : Text → ℕ → ℕ → Printing
unfolding print_fields print_bytes
print_error vec size len = and_print (error_header len) (
    then_print (print_fields (suc (length vec)) len 5 (drop 5 vec))
      (λ pos. and_print (done_line pos) (print_bytes (size - pos) pos (drop pos vec))))

-- The loop over the columns of a row description.
abbrev pub on_column : ℕ → ℕ → Option Text → (Text → Printing) → Printing
on_column i pos none next = over_read
on_column i pos (some name) next =
    and_print
      (codes "\t\tfields["
        ++ decimal i
        ++ codes "].name = "
        ++ name
        ++ line (codes "\t[pos: " ++ decimal pos ++ codes "]"))
      (next name)

unfoldable pub print_columns : ℕ → ℕ → ℕ → Text → Printing
unfolding c_string
print_columns zero i pos rest =
    printed (line (codes "\t\tdone [pos: " ++ decimal pos ++ codes "]")) pos
print_columns (suc n) i pos rest =
    on_column i pos (c_string rest)
      (λ name. print_columns n (suc i) (pos + (length name + 19)) (drop (length name + 19) rest))

-- `'T'`
abbrev pub on_count : ℕ → Text → Printing
on_count len (a ∷ b ∷ rest) =
    let nfield = (widen a * 2 ^ 8 + widen b) % 2 ^ 32 in
    and_print
      (line (codes "\t" ++ 27 ∷ codes "[1;33m\"RowDescription\"" ++ 27 ∷ codes "[0m")
        ++ line (codes "\ttotal len = " ++ decimal len)
        ++ line (codes "\tnum fields = " ++ decimal nfield))
      (print_columns nfield 0 7 rest)
on_count len _ = over_read

unfoldable pub print_row_description : Text → ℕ → Printing
unfolding print_columns
print_row_description vec len = on_count len (drop 5 vec)

-- `'C'`
abbrev pub on_tag : ℕ → Option Text → Printing
on_tag len none = over_read
on_tag len (some tag) =
    printed
      (line (codes "\t\"CommandComplete\"")
        ++ line (codes "\ttotal len = " ++ decimal len)
        ++ line (codes "\tcommand tag = " ++ tag))
      5

abbrev pub last_line : ℕ → ℕ → Text
last_line i b = line (codes "\t\tdata[" ++ decimal i ++ codes "] = " ++ b ∷ [])

-- The last six bytes: how many are left, from which index.
unfoldable pub print_last : ℕ → ℕ → Text → Printing
print_last zero i rest = printed (10 ∷ []) i
print_last (suc n) i [] = over_read
print_last (suc n) i (b ∷ rest) = and_print (last_line i b) (print_last n (suc i) rest)

abbrev pub print_end : Text → ℕ → Printing
print_end vec size =
    if ltb 6 size
    then and_print (line (codes "\tlast 6 bytes:")) (print_last 6 (size - 6) (drop (size - 6) vec))
    else printed (10 ∷ []) 0

abbrev pub on_length : Option ℕ → (ℕ → Printing) → Printing
on_length none k = over_read
on_length (some len) k = k len

-- The branch of the message's type.
unfoldable pub print_body : SentBy → ℕ → Text → ℕ → Printing
unfolding c_string print_error print_row_description
print_body src type vec size =
    let query = on_length (length_at vec) (λ len. on_query (c_string (drop 5 vec)) len) in
    let error = on_length (length_at vec) (λ len. print_error vec size len) in
    let row = on_length (length_at vec) (λ len. print_row_description vec len) in
    let complete = on_length (length_at vec) (λ len. on_tag len (c_string (drop 5 vec))) in
    if type == b'Q'
    then query
    else (if (type == b'E') && is_backend src
        then error
        else (if (type == b'T') && is_backend src
            then row
            else (if (type == b'C') && is_backend src then complete else printed [] 0)))

-- `PrintInfo`
unfoldable pub print_info : SentBy → Text → ℕ → Printing
unfolding print_body print_last
print_info src [] size = over_read
print_info src (type ∷ rest) size =
    and_print (line (codes "type = " ++ type ∷ []))
      (then_print (print_body src type (type ∷ rest) size) (λ p. print_end (type ∷ rest) size))
