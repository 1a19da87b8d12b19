-- ===== src/Conn/Buffer.antt =====
-- lib/conn/buffer.cpp and include/conn/buffer.h: the buffer that a socket is read into and sent
-- from. `buf` is the vector with its size, `data_size` of its bytes are data. Logging is left out.
-- A socket is what the kernel holds for it: the segments that have arrived, each of one byte or
-- more, and what `recv` answers behind them. An access outside the vector is a fault of its own.
pub mod Receive
pub mod Manual
use pg_fort.Base.{
  ℕ, zero, suc, ◌+◌, ◌-◌, ◌*◌, ◌≡◌, ◌%◌, ◌^◌, Bool, List, [], ◌∷◌, ◌++◌, Text, length, take, drop,
  replicate, concat, map, ltb, ◌==◌, if◌then◌else◌,
}

pub record Buffer : Type 0 where
  pub buf : Text
  pub buf_size : ℕ
  pub data_size : ℕ

abbrev pub default_size : ℕ
default_size = 1024

-- `Buffer::Buffer`
unfoldable pub new_buffer : Buffer
new_buffer = record { buf = replicate (2 * default_size) 0; buf_size = default_size; data_size = 0 }

-- The bytes of `buf` that are data.
abbrev pub contents : Buffer → Text
contents b = take b.data_size b.buf

abbrev pub Segment : Type 0
Segment = ℕ × Text

pub data Ending : Type 0 where
  eof : Ending
  fails : ℕ → Ending

abbrev pub eagain : ℕ
eagain = 11

pub record Socket : Type 0 where
  pub pending : List Segment
  pub ending : Ending

abbrev pub segment_bytes : Segment → Text
segment_bytes (a, s) = a ∷ s

abbrev pub pending_bytes : List Segment → Text
pending_bytes [] = []
pending_bytes (s ∷ ss) = segment_bytes s ++ pending_bytes ss

-- The answer of `recv`: bytes, none at the end of the stream, or -1 with an `errno`.
pub data Received : Type 0 where
  got : Text → Received
  failed : ℕ → Received

-- The segment that a partial read leaves.
unfoldable pub left_over : Text → List Segment → List Segment
left_over [] rest = rest
left_over (a ∷ s) rest = (a, s) ∷ rest

unfoldable pub recv : ℕ → List Segment → Ending → Received × List Segment
unfolding left_over
recv n [] eof = (got [], [])
recv n [] (fails e) = (failed e, [])
recv n (s ∷ ss) ending = (got (take n (segment_bytes s)), left_over (drop n (segment_bytes s)) ss)

-- What the `recv` and `send` loops return, an `int`: `count n` is n, and `negative n` is -n.
pub data Count : Type 0 where
  count : ℕ → Count
  negative : ℕ → Count

abbrev pub minus_one : Count
minus_one = negative 1

-- A `size_t` as it is returned for an `int`: its lower 32 bits, with a sign.
unfoldable pub to_int : ℕ → Count
to_int n = let m = n % 2 ^ 32 in if ltb m (2 ^ 31) then count m else negative (2 ^ 32 - m)

pub data Reading : Type 0 where
  returned : Count → Buffer → Socket → Reading
  overrun : Reading
  out_of_fuel : Reading

-- `vector::resize`
unfoldable pub resize : ℕ → Text → Text
resize n v = take n v ++ replicate (n - length v) 0

-- `data_size_ += res`, and twice the size when the buffer is more than half full.
unfoldable pub grow : Buffer → Buffer
grow b =
    if ltb b.buf_size b.data_size
    then record b { buf_size = b.buf_size * 2; buf = resize (b.buf_size * 2 * 2) b.buf }
    else b

-- The bytes that `recv` writes at `buf_.data() + data_size_`.
unfoldable pub store : Buffer → Text → Buffer
store b chunk = record b {
  buf = take b.data_size b.buf ++ (chunk ++ drop (b.data_size + length chunk) b.buf);
  data_size = b.data_size + length chunk;
}

-- `errno == EAGAIN ? data_size_ : res`
unfoldable pub failure_count : ℕ → Buffer → Count
unfolding to_int
failure_count e b = if e == eagain then to_int b.data_size else minus_one

-- The rest of a round of the loop, behind its `recv`.
unfoldable pub on_received :
    Buffer → Ending → (Buffer → List Segment → Ending → Reading) → Received × List Segment → Reading
unfolding grow store failure_count to_int
on_received b ending again (failed e, rest) =
    returned (failure_count e b) b (record { pending = rest; ending = ending })
on_received b ending again (got [], rest) =
    returned (to_int b.data_size) b (record { pending = rest; ending = ending })
on_received b ending again (got (a ∷ s), rest) =
    let next = again (grow (store b (a ∷ s))) rest ending in
    if ltb (length b.buf) (b.data_size + length (a ∷ s)) then overrun else next

-- The `while (true)` of `Buffer::RecvFrom`.
unfoldable pub recv_loop : ℕ → Buffer → List Segment → Ending → Reading
unfolding recv on_received
recv_loop zero b ss ending = out_of_fuel
recv_loop (suc f) b ss ending = on_received b ending (recv_loop f) (recv b.buf_size ss ending)

abbrev pub restored_size : Buffer → ℕ
restored_size b = if ltb default_size b.data_size then default_size * 2 else default_size

-- The first lines of `Buffer::RecvFrom`, for a buffer that was filled by hand.
unfoldable pub restore : Buffer → Buffer
restore b =
    if b.buf_size == 0
    then record b { buf_size = restored_size b; buf = resize (restored_size b * 2) b.buf }
    else b

-- `Buffer::RecvFrom`. Each round takes a byte or more, which bounds the rounds.
unfoldable pub recv_from : Buffer → Socket → Reading
unfolding restore recv_loop
recv_from b s = recv_loop (suc (length (pending_bytes s.pending))) (restore b) s.pending s.ending

-- `Buffer::SendTo`: one call of `send`, which answers how many bytes it took.
unfoldable pub send_to : Buffer → (Text → Count) → Count
send_to b send = send (contents b)
