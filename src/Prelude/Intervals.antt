-- ===== src/Prelude/Intervals.antt =====
-- Ranges of byte keys whose bounds leave no room: no key lies between them.
use Prim.Native.Nat.{ℕ}
use Prim.Native.Nat.Ordering.{lt, gt}
use mathlib.Core.Path.{◌≡◌}
use mathlib.Core.Bool.{true, false, ◌&&◌}
use mathlib.Core.List.{List}
use native.Mathlib.Omega.{arith}
use bkndb.Prelude.Order.{bytes_cmp, bytes_cmp-IsTotal, is_lt, is_le}
open bytes_cmp-IsTotal use {self_equal, same_of_equal, greater_of_less, less_trans}

between : (a k b : List ℕ) → bytes_cmp a k ≡ lt → bytes_cmp k b ≡ lt → bytes_cmp b a ≡ gt
between a k b h g = greater_of_less a b (less_trans a k b h g)

module _ (a b k : List ℕ) where
  pub empty_closed :
      is_lt (bytes_cmp b a) ≡ true → (is_le (bytes_cmp a k) && is_le (bytes_cmp k b)) ≡ false
  empty_closed h = ground (
    arith,
    between a k b,
    same_of_equal a k,
    same_of_equal k b,
    self_equal k,
    greater_of_less a k,
    greater_of_less b a,
  )

  pub empty_half_open :
      is_le (bytes_cmp b a) ≡ true → (is_le (bytes_cmp a k) && is_lt (bytes_cmp k b)) ≡ false
  empty_half_open h = ground (arith, between a k b, same_of_equal a k, greater_of_less k b)

  pub empty_open_half :
      is_le (bytes_cmp b a) ≡ true → (is_lt (bytes_cmp a k) && is_le (bytes_cmp k b)) ≡ false
  empty_open_half h = ground (arith, between a k b, same_of_equal k b, greater_of_less a k)

  pub empty_open :
      is_le (bytes_cmp b a) ≡ true → (is_lt (bytes_cmp a k) && is_lt (bytes_cmp k b)) ≡ false
  empty_open h = ground (arith, between a k b)
