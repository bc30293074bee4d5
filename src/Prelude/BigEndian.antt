-- ===== src/Prelude/BigEndian.antt =====
-- Fixed-width big-endian integers: `uN::to_be_bytes` and `uN::from_be_bytes`.
use Prim.Native.Nat.{ℕ, zero, suc, ◌+◌, ◌*◌, ◌/◌, ◌%◌, ◌^◌, ◌<◌, compare}
use mathlib.Core.Path.{◌≡◌, refl, sym, ap, ◌∙◌}
use mathlib.Core.List.{List, [], ◌∷◌, ◌++◌}
use native.Mathlib.Nat.{pow-suc}
use native.Mathlib.Omega.{arith}
use bkndb.Prelude.Lists.{length, length-append, All-append}
use bkndb.Prelude.Order.{bytes_cmp, then_cmp}
use bkndb.Prelude.Bytes.{IsBytes}

-- The `w` bytes of `n`, highest first.
unfoldable pub to_be : ℕ → ℕ → List ℕ
to_be zero n = []
to_be (suc w) n = to_be w (n / 256) ++ (n % 256) ∷ []

from_be_onto : ℕ → List ℕ → ℕ
from_be_onto acc [] = acc
from_be_onto acc (x ∷ xs) = from_be_onto (acc * 256 + x) xs

unfoldable pub from_be : List ℕ → ℕ
unfolding from_be_onto
from_be bytes = from_be_onto 0 bytes

pub length-to_be : (w n : ℕ) → length (to_be w n) ≡ w
unfolding to_be
length-to_be zero n = refl
length-to_be (suc w) n =
    omega (arith, length-append (to_be w (n / 256)) ((n % 256) ∷ []), length-to_be w (n / 256))

pub to_be-IsBytes : (w n : ℕ) → IsBytes (to_be w n)
unfolding to_be
to_be-IsBytes zero n = tt
to_be-IsBytes (suc w) n =
    All-append _ (to_be w (n / 256)) _ (to_be-IsBytes w (n / 256)) (omega arith, tt)

from_be_onto-append :
    (acc : ℕ) (xs : List ℕ) (x : ℕ)
    → from_be_onto acc (xs ++ x ∷ []) ≡ from_be_onto acc xs * 256 + x
unfolding from_be_onto
from_be_onto-append acc [] x = refl
from_be_onto-append acc (y ∷ xs) x = from_be_onto-append (acc * 256 + y) xs x

next_width : (w n : ℕ) → n < 256 ^ suc w → n / 256 < 256 ^ w
next_width w n h = omega (arith, pow-suc 256 w)

pub from_be-to_be : (w n : ℕ) → n < 256 ^ w → from_be (to_be w n) ≡ n
unfolding to_be from_be
from_be-to_be zero n h = omega arith
from_be-to_be (suc w) n h = omega (
  arith,
  from_be_onto-append 0 (to_be w (n / 256)) (n % 256),
  from_be-to_be w (n / 256) (next_width w n h),
)

bytes_cmp-snoc :
    (xs ys : List ℕ) (x y : ℕ)
    → length xs ≡ length ys
    → bytes_cmp (xs ++ x ∷ []) (ys ++ y ∷ []) ≡ then_cmp (bytes_cmp xs ys) (compare x y)
unfolding bytes_cmp
bytes_cmp-snoc [] [] x y h = ground arith
bytes_cmp-snoc [] (b ∷ ys) x y h = absurd (omega arith)
bytes_cmp-snoc (a ∷ xs) [] x y h = absurd (omega arith)
bytes_cmp-snoc (a ∷ xs) (b ∷ ys) x y h = ground (arith, bytes_cmp-snoc xs ys x y (omega arith))

compare_digits :
    (a b : ℕ) → then_cmp (compare (a / 256) (b / 256)) (compare (a % 256) (b % 256)) ≡ compare a b
compare_digits a b = ground arith

-- The bytes sort as the numbers do.
pub bytes_cmp-to_be :
    (w a b : ℕ) → a < 256 ^ w → b < 256 ^ w → bytes_cmp (to_be w a) (to_be w b) ≡ compare a b
unfolding to_be
bytes_cmp-to_be zero a b h k = unfold bytes_cmp in ground arith
bytes_cmp-to_be (suc w) a b h k =
    bytes_cmp-snoc (to_be w (a / 256)) (to_be w (b / 256)) (a % 256) (b % 256)
      (omega (arith, length-to_be w (a / 256), length-to_be w (b / 256)))
    ∙ rw (bytes_cmp-to_be w (a / 256) (b / 256) (next_width w a h) (next_width w b k))
        (compare_digits a b)

pub to_be-injective : (w a b : ℕ) → a < 256 ^ w → b < 256 ^ w → to_be w a ≡ to_be w b → a ≡ b
to_be-injective w a b h k e = sym (from_be-to_be w a h) ∙ ap from_be e ∙ from_be-to_be w b k
