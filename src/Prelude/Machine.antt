-- ===== src/Prelude/Machine.antt =====
-- Machine integers: the wrap-around of the unsigned types and of `i32`.
use Prim.Native.Nat.{ℕ, ◌+◌, ◌-◌, ◌%◌, ◌≤◌, ◌<◌}
use mathlib.Core.Path.{◌≡◌}
use native.Mathlib.Omega.{arith}
use pyre.Prelude.Tests.{ltb, if◌then◌else◌}
use pyre.Prelude.Int.{ℤ, pos, negsuc, pos_part, neg_part, sub_ℕ}

abbrev pub u16 : ℕ → ℕ
u16 n = n % 65536

abbrev pub u32 : ℕ → ℕ
u32 n = n % 4294967296

abbrev pub u64 : ℕ → ℕ
u64 n = n % 18446744073709551616

-- |a - b|
abbrev pub abs_diff : ℕ → ℕ → ℕ
abs_diff a b = (a - b) + (b - a)

-- The wrap-around of `i32`: the representative of `a` modulo 2^32 in [-2^31, 2^31).
unfoldable pub i32 : ℤ → ℤ
i32 a =
    sub_ℕ ((pos_part a + (4294967296 - neg_part a % 4294967296) + 2147483648) % 4294967296)
      2147483648

-- Where the value fits, `i32` is the identity.
pub i32_fits : (a : ℤ) → pos_part a < 2147483648 → neg_part a ≤ 2147483648 → i32 a ≡ a
unfolding i32
i32_fits (pos n) h k = ground arith
i32_fits (negsuc n) h k = ground arith

-- `clamp(lo, hi)` on numbers, and on an `i32` between two bounds that are not negative.
abbrev pub clamp : ℕ → ℕ → ℕ → ℕ
clamp lo hi x = if ltb x lo then lo else if ltb hi x then hi else x

abbrev pub clamp_i32 : ℕ → ℕ → ℤ → ℕ
clamp_i32 lo hi (pos n) = clamp lo hi n
clamp_i32 lo hi (negsuc n) = lo
