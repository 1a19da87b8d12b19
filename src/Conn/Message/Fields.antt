-- ===== src/Conn/Message/Fields.antt =====
-- `Response::SetError`: the error message is read back field by field.
use pg_fort.Base.Dict.{lookup}
use pg_fort.Conn.Buffer.{Buffer, contents}
use pg_fort.Conn.Message.Layout.{length_field}
use mathlib.Core.List.{append_assoc, append-nil}
use Prim.Native.String.{String}
use mathlib.Core.Path.{subst}
use mathlib.Core.Option
use mathlib.Core.Option.{some-injective}
use pg_fort.Base.{
  drop_past, take_all, codes, c_str-HasNoNul, ◌≤◌, ℕ, zero, suc, ◌+◌, ◌%◌, ◌^◌, ◌<◌, ◌≡◌, refl, sym,
  ap, ◌∙◌, List, [], ◌∷◌, ◌++◌, Option, none, some, Text, c_str, HasNoNul, length, drop, arith,
  length-append, c_str-append, ◌==◌, if◌then◌else◌,
}
use pg_fort.Conn.Message.{
  set_error, optional_fields, empty_frame, mandatory_fields, Error, close_frame, field_of,
  put_mandatory, Frame, put_field, put_optional,
}

abbrev pub Field : Type 0
Field = ℕ × Text

-- The fields that are present.
abbrev pub present : List (ℕ × Option Text) → List Field
present [] = []
present ((k, none) ∷ fs) = present fs
present ((k, some v) ∷ fs) = (k, v) ∷ present fs

abbrev pub field_bytes : List Field → Text
field_bytes [] = []
field_bytes ((k, v) ∷ fs) = k ∷ (v ++ 0 ∷ field_bytes fs)

abbrev pub AreFields : List Field → Type 0
AreFields [] = Unit {0}
AreFields ((k, v) ∷ fs) = (0 < k) × HasNoNul v × AreFields fs

-- How the protocol tells a client to read the body of an error message: fields up to a zero byte.
-- The result is the fields and what follows the message.
unfoldable pub read_fields : ℕ → Text → Option (List Field × Text)
read_fields zero t = none
read_fields (suc f) [] = none
read_fields (suc f) (k ∷ t) =
    let more =
      Option.map (λ (r : List Field × Text). ((k, c_str t) ∷ r.0, r.1))
        (read_fields f (drop (suc (length (c_str t))) t)) in
    if k == 0 then some ([], t) else more

read_fields-field_bytes :
    (f : ℕ) (fs : List Field) (rest : Text)
    → AreFields fs
    → length fs < f
    → read_fields f (field_bytes fs ++ 0 ∷ rest) ≡ some (fs, rest)
unfolding read_fields
read_fields-field_bytes zero fs rest h lt = absurd (omega arith)
read_fields-field_bytes (suc f) [] rest h lt = refl
read_fields-field_bytes (suc f) ((k, v) ∷ fs) rest h lt =
    rw
      (
        append_assoc v (0 ∷ field_bytes fs) (0 ∷ rest),
        c_str-append v (field_bytes fs ++ 0 ∷ rest) h.1,
        drop_past v (field_bytes fs ++ 0 ∷ rest),
        read_fields-field_bytes f fs rest h.2 (omega arith),
      )
      (ground arith)

-- The loops add the fields in order, and count their bytes modulo 2^32.
put_optional_lem :
    (fs : List (ℕ × Option Text)) (f : Frame)
    → ((put_optional fs f).bytes ≡ f.bytes ++ field_bytes (present fs))
      × ((put_optional fs f).total_len % 2 ^ 32
          ≡ (f.total_len + length (field_bytes (present fs))) % 2 ^ 32)
unfolding put_optional put_field
put_optional_lem [] f = (sym (append-nil f.bytes), omega arith)
put_optional_lem ((k, none) ∷ fs) f = put_optional_lem fs f
put_optional_lem ((k, some v) ∷ fs) f =
    let (same, counted) = put_optional_lem fs (put_field k v f) in
    (
      same
          ∙ append_assoc f.bytes (k ∷ (v ++ 0 ∷ [])) (field_bytes (present fs))
          ∙ ap (λ l. f.bytes ++ k ∷ l) (append_assoc v (0 ∷ []) (field_bytes (present fs))),
      omega (arith, length-append v (0 ∷ field_bytes (present fs)), counted),
    )

put_mandatory_lem :
    (fs : List (ℕ × Option Text)) (f f' : Frame)
    → put_mandatory fs f ≡ some f'
    → (f'.bytes ≡ f.bytes ++ field_bytes (present fs))
      × (f'.total_len % 2 ^ 32 ≡ (f.total_len + length (field_bytes (present fs))) % 2 ^ 32)
unfolding put_mandatory put_field
put_mandatory_lem [] f f' h = (ground (arith, append-nil f.bytes), ground arith)
put_mandatory_lem ((k, none) ∷ fs) f f' h = cc
put_mandatory_lem ((k, some v) ∷ fs) f f' h =
    let (same, counted) = put_mandatory_lem fs (put_field k v f) f' h in
    (
      same
          ∙ append_assoc f.bytes (k ∷ (v ++ 0 ∷ [])) (field_bytes (present fs))
          ∙ ap (λ l. f.bytes ++ k ∷ l) (append_assoc v (0 ∷ []) (field_bytes (present fs))),
      omega (arith, length-append v (0 ∷ field_bytes (present fs)), counted),
    )

-- The fields of the message for an error: those always sent, then those that the error has.
abbrev pub sent_fields : Error → List Field
sent_fields e = present (mandatory_fields e) ++ present (optional_fields e)

field_bytes-append :
    (fs gs : List Field) → field_bytes (fs ++ gs) ≡ field_bytes fs ++ field_bytes gs
field_bytes-append [] gs = refl
field_bytes-append ((k, v) ∷ fs) gs =
    rw (field_bytes-append fs gs)
      (ap (λ l. k ∷ l) (sym (append_assoc v (0 ∷ field_bytes fs) (field_bytes gs))))

field_of-HasNoNul : (k : String) (e : Error) {v : Text} → field_of k e ≡ some v → HasNoNul v
unfolding field_of
field_of-HasNoNul k e {v} h = go (lookup (codes k) e) h
  where
    go : (o : Option Text) → Option.map c_str o ≡ some v → HasNoNul v
    go none p = cc
    go (some u) p = subst HasNoNul (some-injective _ _ p) (c_str-HasNoNul u)

AreFields-present :
    (k : ℕ) (s : String) (e : Error) (fs : List (ℕ × Option Text))
    → 0 < k
    → AreFields (present fs)
    → AreFields (present ((k, field_of s e) ∷ fs))
AreFields-present k s e fs h rest = go (field_of s e) refl
  where
    go : (o : Option Text) → field_of s e ≡ o → AreFields (present ((k, o) ∷ fs))
    go none p = rest
    go (some v) p = (h, field_of-HasNoNul s e p, rest)

AreFields-append : (fs gs : List Field) → AreFields fs → AreFields gs → AreFields (fs ++ gs)
AreFields-append [] gs h k = k
AreFields-append ((c, v) ∷ fs) gs h k = (h.0, h.1, AreFields-append fs gs h.2 k)

pub AreFields-sent : (e : Error) → AreFields (sent_fields e)
AreFields-sent e =
    AreFields-append (present (mandatory_fields e)) (present (optional_fields e))
      (AreFields-present _ _ e _ (omega arith) (
        AreFields-present _ _ e _ (omega arith)
          (AreFields-present _ _ e _ (omega arith) (AreFields-present _ _ e [] (omega arith) tt))))
      (AreFields-present _ _ e _ (omega arith) (
        AreFields-present _ _ e _ (omega arith)
          (AreFields-present _ _ e _ (omega arith) (AreFields-present _ _ e [] (omega arith) tt))))

length-present-le : (fs : List (ℕ × Option Text)) → length (present fs) ≤ length fs
length-present-le [] = omega arith
length-present-le ((k, none) ∷ fs) = omega (arith, length-present-le fs)
length-present-le ((k, some v) ∷ fs) = omega (arith, length-present-le fs)

-- ReadyForQuery, outside a transaction.
abbrev pub ready_for_query_message : Text
ready_for_query_message = b'Z' ∷ 0 ∷ 0 ∷ 0 ∷ 5 ∷ b'I' ∷ []

-- The bytes behind the length field, and the length field.
close_frame_lem :
    (f : Frame) (t : Text)
    → f.bytes ≡ empty_frame.bytes ++ t
    → (drop 5 (contents (close_frame f)) ≡ t ++ 0 ∷ ready_for_query_message)
      × (length_field (contents (close_frame f)) ≡ f.total_len % 2 ^ 32)
      × (length (contents (close_frame f)) ≡ length t + 12)
unfolding close_frame
close_frame_lem f t h =
    rw
      (
        h,
        append_assoc t (0 ∷ []) ready_for_query_message,
        take_all (length (t ++ 0 ∷ ready_for_query_message)) (t ++ 0 ∷ ready_for_query_message)
            (omega arith),
      )
      (refl, omega arith, omega (arith, length-append t (0 ∷ ready_for_query_message)))

-- The frame of an error that has the mandatory fields.
pub frame_of :
    (e : Error) (f : Frame)
    → put_mandatory (mandatory_fields e) empty_frame ≡ some f
    → ((put_optional (optional_fields e) f).bytes
        ≡ empty_frame.bytes ++ field_bytes (sent_fields e))
      × ((put_optional (optional_fields e) f).total_len % 2 ^ 32
          ≡ (length (field_bytes (sent_fields e)) + 5) % 2 ^ 32)
frame_of e f h =
    let (same, counted) = put_mandatory_lem (mandatory_fields e) empty_frame f h in
    let (same', counted') = put_optional_lem (optional_fields e) f in
    let joined = field_bytes-append (present (mandatory_fields e)) (present (optional_fields e)) in
    (
      same'
          ∙ ap (λ l. l ++ field_bytes (present (optional_fields e))) same
          ∙ append_assoc empty_frame.bytes (field_bytes (present (mandatory_fields e)))
              (field_bytes (present (optional_fields e)))
          ∙ ap (λ l. empty_frame.bytes ++ l) (sym joined),
      omega (
        arith,
        counted,
        counted',
        ap length joined,
        length-append (field_bytes (present (mandatory_fields e)))
            (field_bytes (present (optional_fields e))),
      ),
    )

-- The message that `SetError` leaves for an error is one that a client can read: read field by field
-- behind its length, it gives back the severity, code and message and every optional field that the
-- error has, in the order of the keys, and what follows it is a ReadyForQuery message. For fields of
-- less than 2^32 - 5 bytes in all, the length field counts the error message but its type byte.
pub read_fields-set_error :
    (e : Error) (b : Buffer)
    → set_error e ≡ some b
    → length (field_bytes (sent_fields e)) + 5 < 2 ^ 32
    → (read_fields 9 (drop 5 (contents b)) ≡ some (sent_fields e, ready_for_query_message))
      × (length_field (contents b) + 1 + length ready_for_query_message ≡ length (contents b))
unfolding set_error
read_fields-set_error e b h small = go (put_mandatory (mandatory_fields e) empty_frame) refl h
  where
    go :
        (o : Option Frame)
        → put_mandatory (mandatory_fields e) empty_frame ≡ o
        → Option.map (λ f. close_frame (put_optional (optional_fields e) f)) o ≡ some b
        → (read_fields 9 (drop 5 (contents b)) ≡ some (sent_fields e, ready_for_query_message))
          × (length_field (contents b) + 1 + length ready_for_query_message ≡ length (contents b))
    go none p q = cc
    go (some f) p q =
        let g : Frame = put_optional (optional_fields e) f in
        let (same, counted) = frame_of e f p in
        let (body, sized, total) = close_frame_lem g (field_bytes (sent_fields e)) same in
        let r : close_frame g ≡ b = some-injective _ _ q in
        rw (← r) (
          rw body (
              read_fields-field_bytes 9 (sent_fields e) ready_for_query_message (AreFields-sent e) (
                omega (
                  arith,
                  length-append (present (mandatory_fields e)) (present (optional_fields e)),
                  length-present-le (mandatory_fields e),
                  length-present-le (optional_fields e),
                ))),
          omega (arith, sized, total, counted),
        )
