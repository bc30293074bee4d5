-- ===== src/Prelude/Bits.antt =====
-- `^` with one bit: it toggles the bit, and the digits below it stay.
use Prim.Native.Nat.{
  ℕ, zero, suc, ◌+◌, ◌/◌, ◌%◌, ◌^◌, ◌<◌, ◌≤◌, bit_xor, digits, differ, bit_xor-bitwise,
}
use mathlib.Core.Path.{◌≡◌, refl, ◌∙◌}
use native.Mathlib.Nat.{pow-suc}
use native.Mathlib.Omega.{arith}

xor_digits : ℕ → ℕ → ℕ → ℕ
xor_digits n a b = digits (λ b. b) differ n a b

digit_set : (d : ℕ) → differ d 0 ≡ d
digit_set zero = refl
digit_set (suc d) = refl

set_digits : (n w a : ℕ) → a ≤ n → a < 2 ^ w → xor_digits n a (2 ^ w) ≡ a + 2 ^ w
unfolding xor_digits
set_digits zero w zero h s = omega arith
set_digits zero w (suc a) h s = absurd (omega arith)
set_digits (suc n) w zero h s = omega arith
set_digits (suc n) zero (suc a) h s = absurd (omega arith)
set_digits (suc n) (suc w) (suc a) h s =
    let half : 2 ^ suc w / 2 ≡ 2 ^ w = omega (arith, pow-suc 2 w) in
    let low : 2 ^ suc w % 2 ≡ 0 = omega (arith, pow-suc 2 w) in
    rw (half, low, digit_set (suc a % 2))
      (omega
        (arith, pow-suc 2 w, set_digits n w (suc a / 2) (omega arith) (omega (arith, pow-suc 2 w))))

clear_digits : (n w a c : ℕ) → c ≡ a + 2 ^ w → c ≤ n → a < 2 ^ w → xor_digits n c (2 ^ w) ≡ a
unfolding xor_digits
clear_digits zero w a zero e h s = absurd (omega arith)
clear_digits zero w a (suc c) e h s = absurd (omega arith)
clear_digits (suc n) w a zero e h s = absurd (omega arith)
clear_digits (suc n) zero a (suc c) e h s =
    let one : c ≡ 0 = omega arith in rw one (omega (arith, all_out n))
  where
    all_out : (m : ℕ) → digits (λ b. b) differ m 0 0 ≡ 0
    all_out zero = refl
    all_out (suc m) = refl
clear_digits (suc n) (suc w) a (suc c) e h s =
    let half : 2 ^ suc w / 2 ≡ 2 ^ w = omega (arith, pow-suc 2 w) in
    let low : 2 ^ suc w % 2 ≡ 0 = omega (arith, pow-suc 2 w) in
    rw (half, low, digit_set (suc c % 2))
      (omega (
        arith,
        pow-suc 2 w,
        clear_digits n w (a / 2) (suc c / 2) (omega (arith, pow-suc 2 w)) (omega arith)
            (omega (arith, pow-suc 2 w)),
      ))

pub bit_xor-set : (w a : ℕ) → a < 2 ^ w → bit_xor a (2 ^ w) ≡ a + 2 ^ w
bit_xor-set w a h =
    bit_xor-bitwise a (2 ^ w) ∙ (unfold xor_digits in set_digits a w a (omega arith) h)

pub bit_xor-clear : (w a : ℕ) → a < 2 ^ w → bit_xor (a + 2 ^ w) (2 ^ w) ≡ a
bit_xor-clear w a h =
    bit_xor-bitwise (a + 2 ^ w) (2 ^ w)
    ∙ (unfold xor_digits in clear_digits (a + 2 ^ w) w a (a + 2 ^ w) refl (omega arith) h)
