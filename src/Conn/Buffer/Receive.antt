-- ===== src/Conn/Buffer/Receive.antt =====
-- `Buffer::RecvFrom` reads all that has arrived, and never outside its vector.
use mathlib.Core.List.{append_assoc, append-nil}
use pg_fort.Base.{
  ℕ, zero, suc, ◌+◌, ◌-◌, ◌*◌, ◌≤◌, ◌<◌, ◌≡◌, refl, ap, ◌∙◌, Bool, true, false, List, [], ◌∷◌, ◌++◌,
  Text, length, take, drop, replicate, ◌==◌, if◌then◌else◌, arith, length-append, length-take,
  length-drop, length-replicate, take-append-drop, take-append, take-append_le, take_all,
}
use pg_fort.Conn.Buffer.{
  Buffer, contents, Segment, Ending, eof, fails, eagain, Socket, segment_bytes, pending_bytes,
  left_over, recv, Count, to_int, minus_one, Reading, returned, overrun, out_of_fuel, resize, grow,
  store, failure_count, on_received, recv_loop, restore, recv_from,
}

-- The shape of a buffer that is being read into: the vector is twice the size that the next `recv`
-- may fill, and the data lie in its first half.
pub record IsReady (b : Buffer) : Type 0 where
  pub room : length b.buf ≡ 2 * b.buf_size
  pub half : b.data_size ≤ b.buf_size
  pub open_end : 0 < b.buf_size

-- The answer once nothing is pending.
abbrev pub final_count : Ending → ℕ → Count
final_count eof n = to_int n
final_count (fails e) n = if e == eagain then to_int n else minus_one

pub length-resize : (n : ℕ) (v : Text) → length (resize n v) ≡ n
unfolding resize
length-resize n v = omega (
  arith,
  length-append (take n v) (replicate (n - length v) 0),
  length-take n v,
  length-replicate {A = ℕ} (n - length v) 0,
)

pub take-resize :
    (m n : ℕ) (v : Text) → m ≤ length v → length v ≤ n → take m (resize n v) ≡ take m v
unfolding resize
take-resize m n v h k = rw (take_all n v k) (take-append_le m v (replicate (n - length v) 0) h)

length-store :
    (b : Buffer) (c : Text)
    → b.data_size + length c ≤ length b.buf
    → length (store b c).buf ≡ length b.buf
unfolding store
length-store b c h = omega (
  arith,
  length-append (take b.data_size b.buf) (c ++ drop (b.data_size + length c) b.buf),
  length-append c (drop (b.data_size + length c) b.buf),
  length-take b.data_size b.buf,
  length-drop (b.data_size + length c) b.buf,
)

contents-store :
    (b : Buffer) (c : Text)
    → b.data_size + length c ≤ length b.buf
    → contents (store b c) ≡ contents b ++ c
unfolding store
contents-store b c h =
    let front : Text = take b.data_size b.buf ++ c in
    let size : b.data_size + length c ≡ length front =
      omega (arith, length-append (take b.data_size b.buf) c, length-take b.data_size b.buf) in
    rw (← append_assoc (take b.data_size b.buf) c (drop (b.data_size + length c) b.buf)) (
      ap (λ n. take n (front ++ drop (b.data_size + length c) b.buf)) size
      ∙ take-append front (drop (b.data_size + length c) b.buf))

-- A write that fits keeps the shape: the buffer grows when the data pass its middle.
grow-store-IsReady :
    (b : Buffer) (c : Text) → IsReady b → length c ≤ b.buf_size → IsReady (grow (store b c))
unfolding grow store
grow-store-IsReady b c r h =
    ground
      (arith, length-store b c (omega arith), length-resize (b.buf_size * 2 * 2) (store b c).buf)

contents-grow-store :
    (b : Buffer) (c : Text)
    → IsReady b
    → length c ≤ b.buf_size
    → contents (grow (store b c)) ≡ contents b ++ c
unfolding grow store
contents-grow-store b c r h = ground (
  arith,
  length-store b c (omega arith),
  contents-store b c (omega arith),
  take-resize (b.data_size + length c) (b.buf_size * 2 * 2) (store b c).buf,
)

pending-left_over :
    (s : Text) (ss : List Segment) → pending_bytes (left_over s ss) ≡ s ++ pending_bytes ss
unfolding left_over
pending-left_over [] ss = refl
pending-left_over (a ∷ s) ss = refl

-- What a reading must have done: ended by itself with every byte taken over, in order.
abbrev pub TookAll : Text → Ending → Reading → Type 0
TookAll all ending (returned n b s) =
    (n ≡ final_count ending (length all))
    × (contents b ≡ all)
    × (b.data_size ≡ length all)
    × IsReady b
    × (s.pending ≡ [])
TookAll all ending overrun = ⊥
TookAll all ending out_of_fuel = ⊥

pub length-contents : (b : Buffer) → IsReady b → length (contents b) ≡ b.data_size
length-contents b r = omega (arith, length-take b.data_size b.buf)

-- The buffer when nothing is pending any more.
TookAll-end :
    (f : ℕ) (b : Buffer) (ending : Ending)
    → IsReady b
    → TookAll (contents b ++ []) ending (recv_loop (suc f) b [] ending)
unfolding recv_loop recv failure_count
TookAll-end f b eof r =
    rw (append-nil (contents b), length-contents b r) (refl, refl, refl, r, refl)
TookAll-end f b (fails e) r =
    rw (append-nil (contents b), length-contents b r) (refl, refl, refl, r, refl)

-- One round of the loop takes a non-empty piece `c` of the front segment.
abbrev piece : Buffer → Segment → Text
piece b s = take b.buf_size (segment_bytes s)

abbrev rest_of : Buffer → Segment → List Segment → List Segment
rest_of b s ss = left_over (drop b.buf_size (segment_bytes s)) ss

pub recv_loop-round :
    (f : ℕ) (b : Buffer) (s : Segment) (ss : List Segment) (ending : Ending)
    → IsReady b
    → recv_loop (suc f) b (s ∷ ss) ending
      ≡ recv_loop f (grow (store b (piece b s))) (rest_of b s ss) ending
unfolding recv_loop recv
recv_loop-round f b (a, s) ss ending r = go b.buf_size refl
  where
    go :
        (n : ℕ)
        → b.buf_size ≡ n
        → recv_loop (suc f) b ((a, s) ∷ ss) ending
          ≡ recv_loop f (grow (store b (piece b (a, s)))) (rest_of b (a, s) ss) ending
    go zero e = absurd (omega arith)
    go (suc n) e = rw (e, recv_loop, recv, on_received) (ground (arith, length-take n s))

pending-round :
    (b : Buffer) (s : Segment) (ss : List Segment)
    → IsReady b
    → contents (grow (store b (piece b s))) ++ pending_bytes (rest_of b s ss)
      ≡ contents b ++ pending_bytes (s ∷ ss)
pending-round b s ss r = rw (
  contents-grow-store b (piece b s) r (omega (arith, length-take b.buf_size (segment_bytes s))),
  pending-left_over (drop b.buf_size (segment_bytes s)) ss,
  append_assoc (contents b) (piece b s) (drop b.buf_size (segment_bytes s) ++ pending_bytes ss),
  ← append_assoc (piece b s) (drop b.buf_size (segment_bytes s)) (pending_bytes ss),
  take-append-drop b.buf_size (segment_bytes s),
)

length-rest_of :
    (b : Buffer) (s : Segment) (ss : List Segment)
    → IsReady b
    → length (pending_bytes (rest_of b s ss)) < length (pending_bytes (s ∷ ss))
length-rest_of b (a, s) ss r = rw (pending-left_over (drop b.buf_size (a ∷ s)) ss) (
    omega (
      arith,
      length-append (drop b.buf_size (a ∷ s)) (pending_bytes ss),
      length-append (a ∷ s) (pending_bytes ss),
      length-drop b.buf_size (a ∷ s),
    ))

pub recv_loop-TookAll :
    (f : ℕ) (b : Buffer) (ss : List Segment) (ending : Ending)
    → IsReady b
    → length (pending_bytes ss) < f
    → TookAll (contents b ++ pending_bytes ss) ending (recv_loop f b ss ending)
recv_loop-TookAll zero b ss ending r h = absurd (omega arith)
recv_loop-TookAll (suc f) b [] ending r h = TookAll-end f b ending r
recv_loop-TookAll (suc f) b (s ∷ ss) ending r h =
    rw (recv_loop-round f b s ss ending r, ← pending-round b s ss r)
      (recv_loop-TookAll f (grow (store b (piece b s))) (rest_of b s ss) ending
        (grow-store-IsReady b (piece b s) r
          (omega (arith, length-take b.buf_size (segment_bytes s))))
        (omega (arith, length-rest_of b s ss r)))

-- Reading a socket into a buffer that is ready: `RecvFrom` ends by itself and never accesses memory
-- outside its vector. Every byte that had arrived stands behind the earlier data, in order, none is
-- left, and the buffer is ready to be read into again. The answer is the number of data bytes,
-- cut to a signed number of 32 bits, so it is negative from 2^31 bytes on until 2^32; it is -1 when
-- the socket ends with an error other than EAGAIN.
pub recv_from-TookAll :
    (b : Buffer) (s : Socket)
    → IsReady b
    → TookAll (contents b ++ pending_bytes s.pending) s.ending (recv_from b s)
unfolding recv_from restore
recv_from-TookAll b s r = go (b.buf_size == 0) refl
  where
    go :
        (t : Bool)
        → (b.buf_size == 0) ≡ t
        → TookAll (contents b ++ pending_bytes s.pending) s.ending (recv_from b s)
    go true e = absurd (ground arith)
    go false e = rw e (
        recv_loop-TookAll (suc (length (pending_bytes s.pending))) b s.pending s.ending r
          (omega arith))
