-- ===== src/Prelude/Int.antt =====
-- Signed integers over the native numbers, and the machine arithmetic of `u64` and `i64`.
use Prim.Native.Nat.{ℕ, ◌+◌, ◌-◌, ◌%◌, ◌^◌, ◌≤◌, ◌<◌}
use mathlib.Core.Path.{◌≡◌}
use native.Mathlib.Omega.{arith}
use chatnoir_resiliparse.Prelude.Tests.{ltb, leb, if◌then◌else◌}

-- `negsuc n` is -(n + 1).
pub data ℤ : Type 0 where
  pos : ℕ → ℤ
  negsuc : ℕ → ℤ

abbrev pub u64_mod : ℕ
u64_mod = 2 ^ 64

abbrev pub i64_max : ℕ
i64_max = 2 ^ 63 - 1

-- `a - b` and `a + b` on `u64`, with wrap-around.
unfoldable pub sub_u64 : ℕ → ℕ → ℕ
sub_u64 a b = (a + u64_mod - b % u64_mod) % u64_mod

unfoldable pub add_u64 : ℕ → ℕ → ℕ
add_u64 a b = (a + b) % u64_mod

-- `x as i64` for a `u64`.
unfoldable pub as_i64 : ℕ → ℤ
as_i64 x = if leb x i64_max then pos x else negsuc (u64_mod - x - 1)

-- `a + z` in `i128`, where neither overflows.
unfoldable pub add_int : ℕ → ℤ → ℤ
add_int a (pos n) = pos (a + n)
add_int a (negsuc n) = if ltb n a then pos (a - n - 1) else negsuc (n - a)

-- While the difference is not passed, what is added to the subtrahend goes off the difference.
pub sub-add_u64 : (a b n : ℕ) → n ≤ sub_u64 a b → sub_u64 a (add_u64 b n) ≡ sub_u64 a b - n
unfolding sub_u64 add_u64
sub-add_u64 a b n h = omega arith

pub sub_u64_exact : (a b : ℕ) → b ≤ a → a < u64_mod → sub_u64 a b ≡ a - b
unfolding sub_u64
sub_u64_exact a b h k = omega arith

pub add_u64_exact : (a b : ℕ) → a + b < u64_mod → add_u64 a b ≡ a + b
unfolding add_u64
add_u64_exact a b h = omega arith
