-- ===== src/Prelude/Slices.antt =====
-- `&bytes[at..at + len]`, and where a slice of a concatenation lies.
use Prim.Native.Nat.{ℕ, zero, suc, ◌+◌, ◌≤◌}
use mathlib.Core.Path.{◌≡◌, refl, ap, ◌∙◌}
use mathlib.Core.List.{List, [], ◌∷◌, ◌++◌}
use native.Mathlib.Omega.{arith}
use mathlib.Core.Option.{Option, none, some}
use mathlib.Core.Bool.{true}
use bkndb.Prelude.Tests.{leb, if◌then◌else◌}
use bkndb.Prelude.Lists.{
  get_elem?, length-append, length, take, drop, take_of_length, drop_of_length, drop_add,
  take-take_le,
}

module _ {ℓ} {A : Type ℓ} where
  abbrev pub slice : ℕ → ℕ → List A → List A
  slice at len bytes = take len (drop at bytes)

  take_within : (len : ℕ) (xs ys : List A) → len ≤ length xs → take len (xs ++ ys) ≡ take len xs
  take_within zero xs ys h = refl
  take_within (suc len) [] ys h = absurd (omega arith)
  take_within (suc len) (x ∷ xs) ys h = ap (◌∷◌ x) (take_within len xs ys (omega arith))

  drop_within : (n : ℕ) (xs ys : List A) → n ≤ length xs → drop n (xs ++ ys) ≡ drop n xs ++ ys
  drop_within zero xs ys h = refl
  drop_within (suc n) [] ys h = absurd (omega arith)
  drop_within (suc n) (x ∷ xs) ys h = drop_within n xs ys (omega arith)

  length-drop_le : (n len : ℕ) (xs : List A) → n + len ≤ length xs → len ≤ length (drop n xs)
  length-drop_le zero len xs h = omega arith
  length-drop_le (suc n) len [] h = absurd (omega arith)
  length-drop_le (suc n) len (x ∷ xs) h = length-drop_le n len xs (omega arith)

  pub slice_within :
      (at len : ℕ) (xs ys : List A)
      → at + len ≤ length xs
      → slice at len (xs ++ ys) ≡ slice at len xs
  slice_within at len xs ys h =
      ap (take len) (drop_within at xs ys (omega arith))
      ∙ take_within len (drop at xs) ys (length-drop_le at len xs h)

  pub slice_here : (len : ℕ) (xs ys : List A) → length xs ≡ len → slice 0 len (xs ++ ys) ≡ xs
  slice_here len xs ys h = take_of_length len xs ys h

  pub slice_skip :
      (n at len : ℕ) (xs ys : List A)
      → length xs ≡ n
      → slice (n + at) len (xs ++ ys) ≡ slice at len ys
  slice_skip n at len xs ys h =
      ap (take len) (drop_add n at (xs ++ ys) ∙ ap (drop at) (drop_of_length n xs ys h))

  pub slice-take :
      (at len m : ℕ) (xs : List A) → at + len ≤ m → slice at len (take m xs) ≡ slice at len xs
  slice-take zero len m xs h = take-take_le len m xs (omega arith)
  slice-take (suc at) len zero xs h = absurd (omega arith)
  slice-take (suc at) len (suc m) [] h = refl
  slice-take (suc at) len (suc m) (x ∷ xs) h = slice-take at len m xs (omega arith)

  -- `bytes.get(at..at + len)`
  abbrev pub get_range : ℕ → ℕ → List A → Option (List A)
  get_range at len bytes = if leb (at + len) (length bytes) then some (slice at len bytes) else none

  pub get_range-append :
      (xs part ys : List A) (at len : ℕ)
      → length xs ≡ at
      → length part ≡ len
      → get_range at len (xs ++ (part ++ ys)) ≡ some part
  get_range-append xs part ys at len h_at h_len =
      let room : leb (at + len) (length (xs ++ (part ++ ys))) ≡ true =
        ground (arith, length-append xs (part ++ ys), length-append part ys) in
      rw room (
        ap (λ rest. some (take len rest)) (drop_of_length at xs (part ++ ys) h_at)
        ∙ ap some (take_of_length len part ys h_len))

  pub get_elem?-append :
      (xs : List A) (x : A) (ys : List A) (at : ℕ)
      → length xs ≡ at
      → get_elem? (xs ++ x ∷ ys) at ≡ some x
  get_elem?-append [] x ys zero h = refl
  get_elem?-append [] x ys (suc at) h = absurd (omega arith)
  get_elem?-append (y ∷ xs) x ys zero h = absurd (omega arith)
  get_elem?-append (y ∷ xs) x ys (suc at) h = get_elem?-append xs x ys at (omega arith)
