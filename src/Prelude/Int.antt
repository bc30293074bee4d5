-- ===== src/Prelude/Int.antt =====
-- `i64`: the integers, their order, and the casts to `u64` and back.
use Prim.Native.Nat.{ℕ, ◌+◌, ◌-◌, ◌^◌, ◌<◌, compare, Ordering}
use Prim.Native.Nat.Ordering.{lt, gt}
use mathlib.Core.Path.{◌≡◌}
use native.Mathlib.Omega.{arith}
use bkndb.Prelude.Tests.{ltb, if◌then◌else◌}

-- `negsuc n` is -(n + 1).
pub data ℤ : Type 0 where
  pos negsuc : ℕ → ℤ

unfoldable pub int_cmp : ℤ → ℤ → Ordering
int_cmp (pos a) (pos b) = compare a b
int_cmp (pos a) (negsuc b) = gt
int_cmp (negsuc a) (pos b) = lt
int_cmp (negsuc a) (negsuc b) = compare b a

abbrev pub IsI64 : ℤ → Type 0
IsI64 (pos n) = n < 2 ^ 63
IsI64 (negsuc n) = n < 2 ^ 63

-- `as u64`: two's complement
unfoldable pub to_u64 : ℤ → ℕ
to_u64 (pos n) = n
to_u64 (negsuc n) = 2 ^ 64 - (n + 1)

-- `as i64`
unfoldable pub to_i64 : ℕ → ℤ
to_i64 u = if ltb u (2 ^ 63) then pos u else negsuc (2 ^ 64 - (u + 1))

pub to_i64-to_u64 : (n : ℤ) → IsI64 n → to_i64 (to_u64 n) ≡ n
unfolding to_i64 to_u64
to_i64-to_u64 (pos n) h = ground arith
to_i64-to_u64 (negsuc n) h = ground arith
