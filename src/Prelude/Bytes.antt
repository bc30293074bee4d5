-- ===== src/Prelude/Bytes.antt =====
-- Byte strings: what a byte is, the prefix test, and how the byte order treats prefixes.
use Prim.Native.Nat.{ℕ, zero, suc, ◌<◌}
use Prim.Native.Nat.Ordering.{eq}
use mathlib.Core.Path.{◌≡◌, refl}
use mathlib.Core.Logic.{◌≢◌}
use mathlib.Core.Bool.{Bool, true, false, ◌&&◌}
use mathlib.Core.List.{List, [], ◌∷◌, ◌++◌}
use native.Mathlib.Omega.{arith}
use bkndb.Prelude.Tests.{◌==◌}
use bkndb.Prelude.Lists.{All, length, drop, replicate}
use bkndb.Prelude.Order.{bytes_cmp, bytes_cmp-IsTotal, then_cmp, is_le}

abbrev pub IsByte : ℕ → Type 0
IsByte b = b < 256

abbrev pub IsBytes : List ℕ → Type 0
IsBytes = All IsByte

-- `[u8]::starts_with`, prefix first
unfoldable pub starts_with : List ℕ → List ℕ → Bool
starts_with [] k = true
starts_with (x ∷ p) [] = false
starts_with (x ∷ p) (y ∷ k) = x == y && starts_with p k

pub starts_with-append : (p k : List ℕ) → starts_with p (p ++ k) ≡ true
unfolding starts_with
starts_with-append [] k = refl
starts_with-append (x ∷ p) k = ground (arith, starts_with-append p k)

pub append-drop_of_starts_with :
    (p k : List ℕ) → starts_with p k ≡ true → k ≡ p ++ drop (length p) k
unfolding starts_with
append-drop_of_starts_with [] k h = refl
append-drop_of_starts_with (x ∷ p) [] h = cc
append-drop_of_starts_with (x ∷ p) (y ∷ k) h = ground (arith, append-drop_of_starts_with p k)

-- A string that does not start with `p` compares to all that starts with `p` as to `p` itself.
pub bytes_cmp-append_left :
    (p a k : List ℕ) → starts_with p k ≡ false → bytes_cmp (p ++ a) k ≡ bytes_cmp p k
unfolding starts_with bytes_cmp
bytes_cmp-append_left [] a k h = cc
bytes_cmp-append_left (x ∷ p) a [] h = refl
bytes_cmp-append_left (x ∷ p) a (y ∷ k) h = ground (arith, bytes_cmp-append_left p a k)

pub bytes_cmp-append_right :
    (p a k : List ℕ) → starts_with p k ≡ false → bytes_cmp k (p ++ a) ≡ bytes_cmp k p
unfolding starts_with bytes_cmp
bytes_cmp-append_right [] a k h = cc
bytes_cmp-append_right (x ∷ p) a [] h = refl
bytes_cmp-append_right (x ∷ p) a (y ∷ k) h = ground (arith, bytes_cmp-append_right p a k)

pub bytes_cmp-ne-eq_of_starts_with : (p k : List ℕ) → starts_with p k ≡ false → bytes_cmp p k ≢ eq
unfolding starts_with bytes_cmp
bytes_cmp-ne-eq_of_starts_with [] k h = λ e. cc
bytes_cmp-ne-eq_of_starts_with (x ∷ p) [] h = λ e. cc
bytes_cmp-ne-eq_of_starts_with (x ∷ p) (y ∷ k) h =
    ground (arith, bytes_cmp-ne-eq_of_starts_with p k)

-- No string outside a prefix lies between the prefix and an extension of it.
pub between-out :
    (p a k : List ℕ)
    → starts_with p k ≡ false
    → (is_le (bytes_cmp p k) && is_le (bytes_cmp k (p ++ a))) ≡ false
between-out p a k other = rw (bytes_cmp-append_right p a k other) (
    ground (arith, bytes_cmp-ne-eq_of_starts_with p k other, bytes_cmp-IsTotal.greater_of_less p k))

-- Equal heads of a common length leave the comparison to what follows.
pub bytes_cmp-append_len :
    (xs ys a b : List ℕ)
    → length xs ≡ length ys
    → bytes_cmp (xs ++ a) (ys ++ b) ≡ then_cmp (bytes_cmp xs ys) (bytes_cmp a b)
unfolding bytes_cmp
bytes_cmp-append_len [] [] a b h = refl
bytes_cmp-append_len [] (y ∷ ys) a b h = absurd (omega arith)
bytes_cmp-append_len (x ∷ xs) [] a b h = absurd (omega arith)
bytes_cmp-append_len (x ∷ xs) (y ∷ ys) a b h =
    ground (arith, bytes_cmp-append_len xs ys a b (omega arith))

-- The greatest string of `n` bytes.
pub bytes_cmp-replicate_ff :
    (n : ℕ) (s : List ℕ) → IsBytes s → length s ≡ n → is_le (bytes_cmp s (replicate n 0xff)) ≡ true
unfolding bytes_cmp
bytes_cmp-replicate_ff zero [] b h = refl
bytes_cmp-replicate_ff zero (x ∷ s) b h = absurd (omega arith)
bytes_cmp-replicate_ff (suc n) [] b h = absurd (omega arith)
bytes_cmp-replicate_ff (suc n) (x ∷ s) b h =
    ground (arith, bytes_cmp-replicate_ff n s b.1 (omega arith), b.0)

pub starts_with_parts :
    (p q k : List ℕ)
    → starts_with (p ++ q) k ≡ (starts_with p k && starts_with q (drop (length p) k))
unfolding starts_with
starts_with_parts [] q k = refl
starts_with_parts (x ∷ p) q [] = refl
starts_with_parts (x ∷ p) q (y ∷ k) = ground (arith, starts_with_parts p q k)

pub starts_with_same_len :
    (p q k : List ℕ) → length p ≡ length q → starts_with p (q ++ k) ≡ true → p ≡ q
unfolding starts_with
starts_with_same_len [] [] k h s = refl
starts_with_same_len [] (y ∷ q) k h s = absurd (omega arith)
starts_with_same_len (x ∷ p) [] k h s = absurd (omega arith)
starts_with_same_len (x ∷ p) (y ∷ q) k h s =
    ground (arith, starts_with_same_len p q k (omega arith))

-- The empty string is the least.
pub bytes_cmp-nil : (k : List ℕ) → is_le (bytes_cmp [] k) ≡ true
unfolding bytes_cmp
bytes_cmp-nil [] = refl
bytes_cmp-nil (y ∷ k) = refl
