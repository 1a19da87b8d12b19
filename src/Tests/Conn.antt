-- ===== src/Tests/Conn.antt =====
-- Runs of buffers and messages at concrete inputs.
use pg_fort.Base.{
  Text, concat, ℕ, ◌≡◌, refl, sym, ◌↔◌, ◌+◌, [], ◌∷◌, ◌++◌, none, some, codes, arith, replicate,
  length, get_or, length-replicate, drop, false,
}
use pg_fort.Common.{Error}
use pg_fort.Conn.Buffer.{
  to_int, negative, Buffer, new_buffer, contents, Socket, eof, fails, eagain, recv_from, overrun,
  pending_bytes,
}
use pg_fort.Conn.Buffer.Receive.{IsReady, TookAll, recv_from-TookAll}
use pg_fort.Conn.Buffer.Manual.{IsManual, recv_from-manual, recv_from-overrun}
use pg_fort.Base.Dict.{lookup}
use pg_fort.Base.{text_eq, c_str}
use pg_fort.Conn.Message.{field_of, set_query, query_text, set_error}
use pg_fort.Conn.Message.Layout.{length_field, query_text-set_query}
use pg_fort.Conn.Message.Fields.{
  read_fields-set_error, read_fields, sent_fields, ready_for_query_message,
}
use pg_fort.Conn.Message.Mandatory.{set_error-none_iff, sendable}
use pg_fort.Session.PrintInfo.{print_info, backend, over_read}
use pg_fort.Session.PrintInfo.Bounds.{IsPrinted, set_error-IsPrinted}

abbrev two_segments : Socket
two_segments = record {
  pending = (b'a', codes "bc") ∷ (b'd', codes "ef") ∷ [];
  ending = fails eagain;
}

new_buffer-IsReady : IsReady new_buffer
unfolding new_buffer
new_buffer-IsReady = record {
  room = omega (arith, length-replicate {A = ℕ} 2048 0);
  half = omega arith;
  open_end = omega arith;
}

recv_from-TookAll_example :
    TookAll
      (contents new_buffer ++ pending_bytes two_segments.pending)
      (fails eagain)
      (recv_from new_buffer two_segments)
recv_from-TookAll_example = recv_from-TookAll new_buffer two_segments new_buffer-IsReady

abbrev small_query : Buffer
small_query = record { buf = codes "Q"; data_size = 1; buf_size = 0 }

small_query-IsManual : IsManual small_query
small_query-IsManual = record { closed = refl; whole = refl }

recv_from-manual_example :
    TookAll
      (contents small_query ++ pending_bytes two_segments.pending)
      (fails eagain)
      (recv_from small_query two_segments)
recv_from-manual_example =
    recv_from-manual small_query two_segments small_query-IsManual (omega arith)

abbrev large_query : Buffer
large_query = record { buf = replicate 4096 b'Q'; data_size = 4096; buf_size = 0 }

large_query-IsManual : IsManual large_query
large_query-IsManual = record { closed = refl; whole = sym (length-replicate {A = ℕ} 4096 b'Q') }

recv_from-overrun_example :
    recv_from large_query (record { pending = (b'a', []) ∷ []; ending = eof }) ≡ overrun
recv_from-overrun_example =
    recv_from-overrun large_query b'a' [] [] eof large_query-IsManual (omega arith)

query_text-set_query_example :
    (query_text (set_query (codes "SELECT 1")) ≡ codes "SELECT 1")
    × (get_or (contents (set_query (codes "SELECT 1"))) 0 0 ≡ b'Q')
    × (length_field (contents (set_query (codes "SELECT 1"))) + 1
        ≡ length (contents (set_query (codes "SELECT 1"))))
query_text-set_query_example = query_text-set_query (codes "SELECT 1") (ground arith) (omega arith)

abbrev an_error : Error
an_error =
    (codes "S", codes "ERROR")
    ∷ (codes "C", codes "42P16")
    ∷ (codes "M", codes "no")
    ∷ (codes "R", codes "f")
    ∷ []

abbrev sent_error : Buffer
sent_error = elim (set_error an_error) [ none ↦ new_buffer | some b ↦ b ]

an_error-sent : set_error an_error ≡ some sent_error
unfolding set_error field_of lookup text_eq c_str
an_error-sent = refl

read_fields-set_error_example :
    (read_fields 9 (drop 5 (contents sent_error))
      ≡ some (sent_fields an_error, ready_for_query_message))
    × (length_field (contents sent_error) + 1 + length ready_for_query_message
        ≡ length (contents sent_error))
unfolding field_of lookup text_eq c_str
read_fields-set_error_example =
    read_fields-set_error an_error sent_error an_error-sent (omega arith)

set_error-none_iff_example : (set_error an_error ≡ none) ↔ (sendable an_error ≡ false)
set_error-none_iff_example = set_error-none_iff an_error

set_error-IsPrinted_example :
    IsPrinted (print_info backend (contents sent_error) (length (contents sent_error)))
unfolding field_of lookup text_eq c_str
set_error-IsPrinted_example = set_error-IsPrinted an_error sent_error an_error-sent (omega arith)

-- A row description of 128 columns, each with a name of one letter.
abbrev a_column : Text
a_column = b'a' ∷ 0 ∷ replicate 18 0

abbrev wide_row : Text
wide_row = b'T' ∷ 0 ∷ 0 ∷ 10 ∷ 6 ∷ 0 ∷ 128 ∷ concat (replicate 128 a_column)

-- The count of its columns is widened with its sign, and the buffer is left behind.
wide_row-over_read : print_info backend wide_row (length wide_row) ≡ over_read
unfolding print_info
wide_row-over_read = refl

-- With 2^31 bytes of data the answer of `RecvFrom` is negative.
large_answer : to_int 2147483648 ≡ negative 2147483648
unfolding to_int
large_answer = refl
