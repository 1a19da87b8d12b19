-- ===== src/Conn/Message/Layout.antt =====
-- What the messages that the proxy writes look like to their reader.
use pg_fort.Base.{
  ℕ, ◌+◌, ◌*◌, ◌^◌, ◌<◌, ◌≡◌, refl, [], ◌∷◌, ◌++◌, Text, HasNoNul, length, get_or, arith,
  length-append, take_all, c_str-append, c_str_self,
}
use pg_fort.Conn.Buffer.{contents}
use pg_fort.Conn.Message.{set_query, query_text}

-- The length field of a message, as its reader computes it.
abbrev pub length_field : Text → ℕ
length_field t = get_or t 1 0 * 2 ^ 24 + get_or t 2 0 * 2 ^ 16 + get_or t 3 0 * 2 ^ 8 + get_or t 4 0

-- A query that is put into a request is read back as it was, the type byte is that of a query, and
-- the length field counts every byte of the message but the type byte, for a query without zero
-- bytes that is shorter than 2^32 - 5.
pub query_text-set_query :
    (q : Text)
    → HasNoNul q
    → length q + 5 < 2 ^ 32
    → (query_text (set_query q) ≡ q)
      × (get_or (contents (set_query q)) 0 0 ≡ b'Q')
      × (length_field (contents (set_query q)) + 1 ≡ length (contents (set_query q)))
unfolding query_text set_query
query_text-set_query q h small =
    rw (c_str_self q h, take_all (length (q ++ 0 ∷ [])) (q ++ 0 ∷ []) (omega arith))
      (c_str-append q [] h, refl, omega (arith, length-append q (0 ∷ [])))
