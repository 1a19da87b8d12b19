-- ===== src/Session/PrintInfo/Bounds.antt =====
-- What lib/session/print-info.cpp reads of an error message that the proxy has made.
use mathlib.Core.List.{append_assoc}
use mathlib.Core.Option
use mathlib.Core.Option.{some-injective}
use pg_fort.Base.{
  subst, ltb→lt, codes, ◌≡◌, refl, sym, ap, ◌∙◌, ℕ, zero, suc, ◌+◌, ◌-◌, ◌*◌, ◌^◌, ◌<◌, ◌≤◌, ◌/◌,
  Bool, true, false, List, [], ◌∷◌, ◌++◌, Option, none, some, Text, HasNoNul, length, drop,
  length-append, length-drop, drop_past, take_all, ltb, if◌then◌else◌, byte_of, arith,
}
use pg_fort.Common.{Error}
use pg_fort.Conn.Buffer.{Buffer, contents}
use pg_fort.Conn.Message.{
  set_error, Frame, close_frame, empty_frame, put_optional, put_mandatory, mandatory_fields,
  optional_fields,
}
use pg_fort.Conn.Message.Fields.{
  Field, field_bytes, AreFields, AreFields-sent, sent_fields, ready_for_query_message, frame_of,
}
use pg_fort.Session.PrintInfo.{
  Printing, printed, and_print, then_print, backend, c_string, field_lines, print_fields,
  print_bytes, print_last, print_error, byte_line, last_line, error_header, done_line, print_end,
  print_body, print_info, line,
}

abbrev pub IsPrinted : Printing → Type 0
IsPrinted r = (t : Text) × (p : ℕ) × (r ≡ printed t p)

-- Printed up to a position.
abbrev UpTo : ℕ → Printing → Type 0
UpTo p r = (t : Text) × (r ≡ printed t p)

and_print-UpTo : (t : Text) (p : ℕ) (r : Printing) → UpTo p r → UpTo p (and_print t r)
and_print-UpTo t p r (u, e) = (t ++ u, ap (and_print t) e)

then_print-IsPrinted :
    (p : ℕ) (r : Printing) (k : ℕ → Printing)
    → UpTo p r
    → IsPrinted (k p)
    → IsPrinted (then_print r k)
then_print-IsPrinted p r k (t, e) (u, q, h) =
    (t ++ u, q, ap (λ r'. then_print r' k) e ∙ ap (and_print t) h)

and_print-IsPrinted : (t : Text) (r : Printing) → IsPrinted r → IsPrinted (and_print t r)
and_print-IsPrinted t r (u, p, e) = (t ++ u, p, ap (and_print t) e)

c_string-append : (v t : Text) → HasNoNul v → c_string (v ++ 0 ∷ t) ≡ some v
unfolding c_string
c_string-append [] t h = refl
c_string-append (a ∷ v) t h = ground (arith, c_string-append v t h.1)

print_fields-end : (f len : ℕ) (rest : Text) → UpTo len (print_fields (suc f) len len rest)
unfolding print_fields
print_fields-end f len [] = ([], ground arith)
print_fields-end f len (k ∷ t) = ([], ground arith)

print_fields-cons :
    (f len pos k : ℕ) (v t u : Text)
    → ltb pos len ≡ true
    → t ≡ v ++ 0 ∷ u
    → HasNoNul v
    → print_fields (suc f) len pos (k ∷ t)
      ≡ and_print (field_lines k v pos) (print_fields f len (pos + 1 + (length v + 1)) u)
unfolding print_fields
print_fields-cons f len pos k v t u more e h =
    rw (print_fields, more, e, c_string-append v u h)
      (ap (λ w. and_print (field_lines k v pos) (print_fields f len (pos + 1 + (length v + 1)) w))
        (drop_past v u))

print_fields-UpTo :
    (f len pos : ℕ) (fs : List Field) (rest : Text)
    → AreFields fs
    → length fs < f
    → pos + length (field_bytes fs) ≡ len
    → UpTo len (print_fields f len pos (field_bytes fs ++ rest))
unfolding print_fields
print_fields-UpTo zero len pos fs rest h lt e = absurd (omega arith)
print_fields-UpTo (suc f) len pos [] rest h lt e =
    let here : pos ≡ len = omega arith in rw here (print_fields-end f len rest)
print_fields-UpTo (suc f) len pos ((k, v) ∷ fs) rest h lt e =
    let more : ltb pos len ≡ true = ground (arith, e) in
    let next : UpTo len (print_fields f len (pos + 1 + (length v + 1)) (field_bytes fs ++ rest)) =
      print_fields-UpTo f len (pos + 1 + (length v + 1)) fs rest h.2 (omega arith)
        (omega (arith, length-append v (0 ∷ field_bytes fs))) in
    subst (UpTo len)
      (sym (
        print_fields-cons f len pos k v ((v ++ 0 ∷ field_bytes fs) ++ rest) (field_bytes fs ++ rest)
          more (append_assoc v (0 ∷ field_bytes fs) rest) h.1))
      (and_print-UpTo (field_lines k v pos) len
        (print_fields f len (pos + 1 + (length v + 1)) (field_bytes fs ++ rest)) next)

both-IsPrinted : (r r' : Printing) → IsPrinted r → IsPrinted r' → IsPrinted (then_print r (λ p. r'))
both-IsPrinted r r' (t, p, e) h = then_print-IsPrinted p r (λ q. r') (t, e) h

print_bytes-IsPrinted : (n i : ℕ) (rest : Text) → n ≤ length rest → IsPrinted (print_bytes n i rest)
unfolding print_bytes
print_bytes-IsPrinted zero i rest h = ([], i, refl)
print_bytes-IsPrinted (suc n) i [] h = absurd (omega arith)
print_bytes-IsPrinted (suc n) i (b ∷ rest) h =
    and_print-IsPrinted (byte_line i b) (print_bytes n (suc i) rest)
      (print_bytes-IsPrinted n (suc i) rest (omega arith))

print_last-IsPrinted : (n i : ℕ) (rest : Text) → n ≤ length rest → IsPrinted (print_last n i rest)
unfolding print_last
print_last-IsPrinted zero i rest h = (10 ∷ [], i, refl)
print_last-IsPrinted (suc n) i [] h = absurd (omega arith)
print_last-IsPrinted (suc n) i (b ∷ rest) h =
    and_print-IsPrinted (last_line i b) (print_last n (suc i) rest)
      (print_last-IsPrinted n (suc i) rest (omega arith))

print_end-IsPrinted : (vec : Text) → IsPrinted (print_end vec (length vec))
unfolding print_last
print_end-IsPrinted vec = go (ltb 6 (length vec)) refl
  where
    go :
        (b : Bool)
        → ltb 6 (length vec) ≡ b
        → IsPrinted (
            if b
            then and_print
                (line (codes "\tlast 6 bytes:"))
                (print_last 6 (length vec - 6) (drop (length vec - 6) vec))
            else printed (10 ∷ []) 0)
    go true e =
        and_print-IsPrinted (line (codes "\tlast 6 bytes:"))
          (print_last 6 (length vec - 6) (drop (length vec - 6) vec))
          (print_last-IsPrinted 6 (length vec - 6) (drop (length vec - 6) vec)
            (omega (arith, length-drop (length vec - 6) vec, ltb→lt 6 (length vec) e)))
    go false e = (10 ∷ [], 0, refl)

length-field_bytes_le : (fs : List Field) → length fs ≤ length (field_bytes fs)
length-field_bytes_le [] = omega arith
length-field_bytes_le ((k, v) ∷ fs) =
    omega (arith, length-field_bytes_le fs, length-append v (0 ∷ field_bytes fs))

-- An error message with its fields, and what follows it.
abbrev message : ℕ → ℕ → ℕ → ℕ → List Field → Text → Text
message a b c d fs rest = b'E' ∷ a ∷ b ∷ c ∷ d ∷ (field_bytes fs ++ rest)

module _ (a b c d : ℕ) (fs : List Field) (rest : Text) (are : AreFields fs) where
  print_error-IsPrinted :
      (len : ℕ)
      → 5 + length (field_bytes fs) ≡ len
      → IsPrinted (print_error (message a b c d fs rest) (length (message a b c d fs rest)) len)
  unfolding print_error
  print_error-IsPrinted len e =
      and_print-IsPrinted (error_header len)
        (then_print
          (print_fields (suc (length (message a b c d fs rest))) len 5 (field_bytes fs ++ rest))
          (λ pos. and_print (done_line pos) (
            print_bytes (length (message a b c d fs rest) - pos) pos
              (drop pos (message a b c d fs rest)))))
        (then_print-IsPrinted len
          (print_fields (suc (length (message a b c d fs rest))) len 5 (field_bytes fs ++ rest))
          (λ pos. and_print (done_line pos) (
            print_bytes (length (message a b c d fs rest) - pos) pos
              (drop pos (message a b c d fs rest))))
          (print_fields-UpTo (suc (length (message a b c d fs rest))) len 5 fs rest are
            (omega (arith, length-field_bytes_le fs, length-append (field_bytes fs) rest)) e)
          (and_print-IsPrinted (done_line len)
            (print_bytes (length (message a b c d fs rest) - len) len
              (drop len (message a b c d fs rest)))
            (print_bytes-IsPrinted (length (message a b c d fs rest) - len) len
              (drop len (message a b c d fs rest))
              (omega (arith, length-drop len (message a b c d fs rest))))))

  print_info-IsPrinted :
      5 + length (field_bytes fs) ≡ a * 2 ^ 24 + b * 2 ^ 16 + c * 2 ^ 8 + d
      → IsPrinted (print_info backend (message a b c d fs rest) (length (message a b c d fs rest)))
  unfolding print_info print_body
  print_info-IsPrinted e =
      let len : ℕ = a * 2 ^ 24 + b * 2 ^ 16 + c * 2 ^ 8 + d in
      and_print-IsPrinted (line (codes "type = " ++ b'E' ∷ []))
        (then_print (print_error (message a b c d fs rest) (length (message a b c d fs rest)) len)
          (λ p. print_end (message a b c d fs rest) (length (message a b c d fs rest))))
        (both-IsPrinted
          (print_error (message a b c d fs rest) (length (message a b c d fs rest)) len)
          (print_end (message a b c d fs rest) (length (message a b c d fs rest)))
          (print_error-IsPrinted len e) (print_end-IsPrinted (message a b c d fs rest)))

-- The message that `SetError` leaves, and its length field.
close_frame-message :
    (f : Frame) (fs : List Field)
    → f.bytes ≡ empty_frame.bytes ++ field_bytes fs
    → contents (close_frame f)
      ≡ message
          (byte_of (f.total_len / 2 ^ 24))
          (byte_of (f.total_len / 2 ^ 16))
          (byte_of (f.total_len / 2 ^ 8))
          (byte_of f.total_len)
          fs
          (0 ∷ ready_for_query_message)
unfolding close_frame
close_frame-message f fs h =
    rw
      (
        h,
        append_assoc (field_bytes fs) (0 ∷ []) ready_for_query_message,
        take_all (length (field_bytes fs ++ 0 ∷ ready_for_query_message))
            (field_bytes fs ++ 0 ∷ ready_for_query_message) (omega arith),
      )
      refl

-- When a plugin has refused a request, the log of the message that `SetError` leaves for its error, of
-- less than 2^32 - 5 bytes, reads nothing behind the end of the buffer, and its loops end.
pub set_error-IsPrinted :
    (e : Error) (b : Buffer)
    → set_error e ≡ some b
    → length (field_bytes (sent_fields e)) + 5 < 2 ^ 32
    → IsPrinted (print_info backend (contents b) (length (contents b)))
unfolding set_error
set_error-IsPrinted e b h small = go (put_mandatory (mandatory_fields e) empty_frame) refl h
  where
    go :
        (o : Option Frame)
        → put_mandatory (mandatory_fields e) empty_frame ≡ o
        → Option.map (λ f. close_frame (put_optional (optional_fields e) f)) o ≡ some b
        → IsPrinted (print_info backend (contents b) (length (contents b)))
    go none p q = cc
    go (some f) p q =
        let g : Frame = put_optional (optional_fields e) f in
        let (same, counted) = frame_of e f p in
        let shape : contents b
            ≡ message (byte_of (g.total_len / 2 ^ 24)) (byte_of (g.total_len / 2 ^ 16))
                (byte_of (g.total_len / 2 ^ 8)) (byte_of g.total_len) (sent_fields e)
                (0 ∷ ready_for_query_message) =
          ap contents (sym (some-injective _ _ q)) ∙ close_frame-message g (sent_fields e) same in
        subst (λ vec. IsPrinted (print_info backend vec (length vec))) (sym shape)
          (print_info-IsPrinted (byte_of (g.total_len / 2 ^ 24)) (byte_of (g.total_len / 2 ^ 16))
            (byte_of (g.total_len / 2 ^ 8)) (byte_of g.total_len) (sent_fields e)
            (0 ∷ ready_for_query_message) (AreFields-sent e) (omega (arith, counted)))
