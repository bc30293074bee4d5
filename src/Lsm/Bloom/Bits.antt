-- ===== src/Lsm/Bloom/Bits.antt =====
-- crates/bkndb-storage-lsm/src/bloom.rs: one bit set in a byte, over all bytes and bits.
use Prim.Native.Nat.{bit_and, bit_or}
use bkndb.Prelude.{
  ℕ, zero, suc, ◌<◌, ◌^◌, ◌≡◌, refl, arith, List, [], ◌∷◌, Bool, true, ◌&&◌, ◌||◌, not, length, ltb,
  ◌==◌, and_left, and_right,
}
use bkndb.Prelude.Bytes.{IsBytes}
use bkndb.Lsm.Bloom.{or_at, has_at}

all_below : ℕ → (ℕ → Bool) → Bool
all_below zero p = true
all_below (suc n) p = p n && all_below n p

all_below-true : (n : ℕ) (p : ℕ → Bool) (x : ℕ) → all_below n p ≡ true → x < n → p x ≡ true
unfolding all_below
all_below-true zero p x h lt = absurd (omega arith)
all_below-true (suc n) p x h lt = ground (arith, all_below-true n p x)

set_there : ℕ → ℕ → Bool
set_there e x = not (bit_and (bit_or x (2 ^ e)) (2 ^ e) == 0) && ltb (bit_or x (2 ^ e)) 256

kept : ℕ → ℕ → ℕ → Bool
kept e d x = bit_and x (2 ^ d) == 0 || not (bit_and (bit_or x (2 ^ e)) (2 ^ d) == 0)

set_table : all_below 8 (λ e. all_below 256 (set_there e)) ≡ true
unfolding all_below set_there
set_table = refl

kept_table : all_below 8 (λ e. all_below 8 (λ d. all_below 256 (kept e d))) ≡ true
unfolding all_below kept
kept_table = refl

module _ (e x : ℕ) (h : e < 8) (b : x < 256) where
  set_row : set_there e x ≡ true
  set_row =
      all_below-true 256 (set_there e) x
        (all_below-true 8 (λ e. all_below 256 (set_there e)) e set_table h) b

  pub bit_or-sets : not (bit_and (bit_or x (2 ^ e)) (2 ^ e) == 0) ≡ true
  bit_or-sets =
      and_left (not (bit_and (bit_or x (2 ^ e)) (2 ^ e) == 0)) (ltb (bit_or x (2 ^ e)) 256)
        (unfold set_there in set_row)

  pub bit_or-IsByte : bit_or x (2 ^ e) < 256
  bit_or-IsByte =
      let below : ltb (bit_or x (2 ^ e)) 256 ≡ true =
        and_right (not (bit_and (bit_or x (2 ^ e)) (2 ^ e) == 0)) (ltb (bit_or x (2 ^ e)) 256)
          (unfold set_there in set_row) in
      ground arith

pub bit_or-keeps :
    (e d x : ℕ)
    → e < 8
    → d < 8
    → x < 256
    → not (bit_and x (2 ^ d) == 0) ≡ true
    → not (bit_and (bit_or x (2 ^ e)) (2 ^ d) == 0) ≡ true
bit_or-keeps e d x he hd hx was =
    let row : kept e d x ≡ true =
      all_below-true 256 (kept e d) x
        (all_below-true 8 (λ d. all_below 256 (kept e d)) d
          (all_below-true 8 (λ e. all_below 8 (λ d. all_below 256 (kept e d))) e kept_table he) hd)
        hx in
    go (bit_and x (2 ^ d) == 0) (not (bit_and (bit_or x (2 ^ e)) (2 ^ d) == 0)) was
      (unfold kept in row)
  where
    go : (a b : Bool) → not a ≡ true → (a || b) ≡ true → b ≡ true
    go a b h k = ground arith

pub has_at-or_at :
    (bits : List ℕ) (n e : ℕ)
    → IsBytes bits
    → e < 8
    → n < length bits
    → has_at (or_at bits n (2 ^ e)) n (2 ^ e) ≡ true
unfolding has_at or_at
has_at-or_at [] n e b h l = absurd (omega arith)
has_at-or_at (x ∷ xs) zero e b h l = bit_or-sets e x h b.0
has_at-or_at (x ∷ xs) (suc n) e b h l = has_at-or_at xs n e b.1 h (omega arith)

pub has_at-or_at_other :
    (bits : List ℕ) (n e k d : ℕ)
    → IsBytes bits
    → e < 8
    → d < 8
    → has_at bits k (2 ^ d) ≡ true
    → has_at (or_at bits n (2 ^ e)) k (2 ^ d) ≡ true
unfolding has_at or_at
has_at-or_at_other [] n e k d b he hd was = was
has_at-or_at_other (x ∷ xs) zero e zero d b he hd was = bit_or-keeps e d x he hd b.0 was
has_at-or_at_other (x ∷ xs) zero e (suc k) d b he hd was = was
has_at-or_at_other (x ∷ xs) (suc n) e zero d b he hd was = was
has_at-or_at_other (x ∷ xs) (suc n) e (suc k) d b he hd was =
    has_at-or_at_other xs n e k d b.1 he hd was

pub or_at-IsBytes :
    (bits : List ℕ) (n e : ℕ) → IsBytes bits → e < 8 → IsBytes (or_at bits n (2 ^ e))
unfolding or_at
or_at-IsBytes [] n e b h = tt
or_at-IsBytes (x ∷ xs) zero e b h = (bit_or-IsByte e x h b.0, b.1)
or_at-IsBytes (x ∷ xs) (suc n) e b h = (b.0, or_at-IsBytes xs n e b.1 h)

pub length-or_at : (bits : List ℕ) (n mask : ℕ) → length (or_at bits n mask) ≡ length bits
unfolding or_at
length-or_at [] n mask = refl
length-or_at (x ∷ xs) zero mask = refl
length-or_at (x ∷ xs) (suc n) mask = omega (arith, length-or_at xs n mask)
