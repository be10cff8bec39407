-- ===== src/RingBuf/Bounds.antt =====
-- The representation invariant of the ring buffer: no index is out of range and no `usize`
-- addition wraps.
use native.Mathlib.Nat.{mod-lt}
use pyre.Prelude.{ℕ, ◌+◌, ◌%◌, ◌^◌, ◌≤◌, ◌<◌, ◌≡◌, refl, arith}
use pyre.Prelude.{List, [], ◌∷◌, length, length-set, length-replicate}
use pyre.Prelude.Machine.{u64}
use pyre.RingBuf.{RingBuf, new, push_byte, push_loop, push, push_chunks}

-- A vector holds at most `isize::MAX` bytes.
pub record IsValid (r : RingBuf) : Type 0 where
  pub storage : length r.buf ≡ r.cap
  pub small : r.cap < 2 ^ 63
  pub head_in : 0 < r.cap → r.head < r.cap
  pub len_in : r.len ≤ r.cap
  pub empty_head : r.cap ≡ 0 → r.head ≡ 0

pub new-IsValid : (cap : ℕ) → cap < 2 ^ 63 → IsValid (new cap)
unfolding new
new-IsValid cap h = record {
  storage = length-replicate cap 0;
  small = h;
  head_in = λ p. p;
  len_in = omega arith;
  empty_head = λ _. refl;
}

pub push_byte-IsValid : (r : RingBuf) (b : ℕ) → 0 < r.cap → IsValid r → IsValid (push_byte r b)
unfolding push_byte
push_byte-IsValid r b p v = ground (
  arith,
  length-set r.buf (u64 (r.head + r.len) % r.cap) b,
  v.head_in,
  mod-lt (u64 (r.head + 1)) p,
)

pub cap-push_byte : (r : RingBuf) (b : ℕ) → (push_byte r b).cap ≡ r.cap
unfolding push_byte
cap-push_byte r b = ground arith

pub push_loop-IsValid :
    (r : RingBuf) (bytes : List ℕ) → 0 < r.cap → IsValid r → IsValid (push_loop r bytes)
unfolding push_loop
push_loop-IsValid r [] p v = v
push_loop-IsValid r (b ∷ bytes) p v =
    push_loop-IsValid (push_byte r b) bytes (omega (arith, cap-push_byte r b))
      (push_byte-IsValid r b p v)

pub cap-push_loop : (r : RingBuf) (bytes : List ℕ) → (push_loop r bytes).cap ≡ r.cap
unfolding push_loop
cap-push_loop r [] = refl
cap-push_loop r (b ∷ bytes) = omega (arith, cap-push_loop (push_byte r b) bytes, cap-push_byte r b)

pub push-IsValid : (r : RingBuf) (bytes : List ℕ) → IsValid r → IsValid (push r bytes)
unfolding push
push-IsValid r bytes v = grind (arith, push_loop-IsValid)

pub cap-push : (r : RingBuf) (bytes : List ℕ) → (push r bytes).cap ≡ r.cap
unfolding push
cap-push r bytes = grind (arith, cap-push_loop)

pub push_chunks-IsValid :
    (r : RingBuf) (chunks : List (List ℕ)) → IsValid r → IsValid (push_chunks r chunks)
unfolding push_chunks
push_chunks-IsValid r [] v = v
push_chunks-IsValid r (c ∷ chunks) v = push_chunks-IsValid (push r c) chunks (push-IsValid r c v)
