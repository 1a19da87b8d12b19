-- ===== src/Conn/Buffer/Manual.antt =====
-- A buffer that was filled by hand (`buf_size_ == 0`) and is then read into.
use pg_fort.Base.{ℕ, suc, ◌≤◌, ◌≡◌, refl, List, ◌∷◌, ◌++◌, Text, length, take, arith}
use pg_fort.Conn.Buffer.{
  Buffer, contents, Segment, Ending, Socket, pending_bytes, overrun, recv, on_received, recv_loop,
  restore, recv_from,
}
use pg_fort.Conn.Buffer.Receive.{IsReady, TookAll, length-resize, take-resize, recv_loop-TookAll}

-- What `Request::SetQuery` and `Response::SetError` leave: the vector is the data.
pub record IsManual (b : Buffer) : Type 0 where
  pub closed : b.buf_size ≡ 0
  pub whole : b.data_size ≡ length b.buf

-- A buffer of at most 2048 bytes that was filled by hand is made ready to be read into, and keeps
-- its data.
restore-IsReady : (b : Buffer) → IsManual b → b.data_size ≤ 2048 → IsReady (restore b)
unfolding restore
restore-IsReady b m h = ground (arith, length-resize 2048 b.buf, length-resize 4096 b.buf)

contents-restore :
    (b : Buffer) → IsManual b → b.data_size ≤ 2048 → contents (restore b) ≡ contents b
unfolding restore
contents-restore b m h =
    ground (arith, take-resize b.data_size 2048 b.buf, take-resize b.data_size 4096 b.buf)

recv_from-restore :
    (b : Buffer) (s : Socket)
    → b.buf_size ≡ 0
    → recv_from b s
      ≡ recv_loop (suc (length (pending_bytes s.pending))) (restore b) s.pending s.ending
unfolding recv_from
recv_from-restore b s e = refl

-- A buffer of at most 2048 bytes that was filled by hand can be read into: `RecvFrom` ends by itself,
-- stays inside the vector and puts every byte that had arrived behind the data that were there.
pub recv_from-manual :
    (b : Buffer) (s : Socket)
    → IsManual b
    → b.data_size ≤ 2048
    → TookAll (contents b ++ pending_bytes s.pending) s.ending (recv_from b s)
recv_from-manual b s m h =
    rw (recv_from-restore b s m.closed, ← contents-restore b m h)
      (recv_loop-TookAll (suc (length (pending_bytes s.pending))) (restore b) s.pending s.ending
        (restore-IsReady b m h) (omega arith))

piece-cons : (n : ℕ) (a : ℕ) (s : Text) → take (suc n) (a ∷ s) ≡ a ∷ take n s
piece-cons n a s = refl

-- A buffer that was filled by hand with 4096 bytes or more cannot be read into: the vector is cut to
-- 4096 bytes, and if anything has arrived, its first byte is written outside of the vector.
pub recv_from-overrun :
    (b : Buffer) (a : ℕ) (t : Text) (ss : List Segment) (ending : Ending)
    → IsManual b
    → 4096 ≤ b.data_size
    → recv_from b (record { pending = (a, t) ∷ ss; ending = ending }) ≡ overrun
unfolding recv_from restore recv_loop recv on_received
recv_from-overrun b a t ss ending m h = ground (arith, length-resize 4096 b.buf, m.closed)
