-- ===== src/RingBuf.antt =====
-- The replay buffer of a pane's output (crates/pyred/src/ringbuf.rs): a byte array of fixed
-- capacity used in circular order. A byte is a number that is only moved, never computed with;
-- `usize` is a 64-bit word, and its additions wrap around.
pub mod Circular
pub mod Bounds
pub mod Contents
pub mod Replay
use pyre.Prelude.{ℕ, ◌+◌, ◌-◌, ◌%◌, Bool, List, [], ◌∷◌, ◌++◌, ◌||◌}
use pyre.Prelude.{leb, ltb, ◌==◌, if◌then◌else◌, length, set, take, drop, replicate, is_empty}
use pyre.Prelude.Machine.{u64}

-- `head` is the index of the oldest byte, `len` the number of bytes stored.
pub record RingBuf : Type 0 where
  pub buf : List ℕ
  pub head : ℕ
  pub len : ℕ
  pub cap : ℕ

unfoldable pub new : ℕ → RingBuf
new cap = record { buf = replicate cap 0; head = 0; len = 0; cap = cap }

-- One round of the loop of `push`.
unfoldable pub push_byte : RingBuf → ℕ → RingBuf
push_byte r b =
    let write_pos = u64 (r.head + r.len) % r.cap in
    let written = record r { buf = set r.buf write_pos b } in
    if ltb r.len r.cap
    then record written { len = u64 (r.len + 1) }
    else record written { head = u64 (r.head + 1) % r.cap }

unfoldable pub push_loop : RingBuf → List ℕ → RingBuf
push_loop r [] = r
push_loop r (b ∷ bytes) = push_loop (push_byte r b) bytes

-- Only the tail of an input that is larger than the ring is written.
unfoldable pub push : RingBuf → List ℕ → RingBuf
push r bytes =
    if (r.cap == 0) || is_empty bytes
    then r
    else push_loop r (if leb r.cap (length bytes) then drop (length bytes - r.cap) bytes else bytes)

-- The contents, oldest first: one slice of the array, or two where they go round its end.
unfoldable pub snapshot : RingBuf → List ℕ
snapshot r =
    if r.len == 0
    then []
    else if leb (u64 (r.head + r.len)) r.cap
    then take r.len (drop r.head r.buf)
    else drop r.head r.buf ++ take (r.len - (r.cap - r.head)) r.buf

-- The reader thread hands over its output chunk by chunk.
unfoldable pub push_chunks : RingBuf → List (List ℕ) → RingBuf
push_chunks r [] = r
push_chunks r (c ∷ chunks) = push_chunks (push r c) chunks
