-- ===== src/Prelude/Heap.antt =====
-- `std::collections::BinaryHeap<Reverse<K>>` as the ascending list of its elements.
use Prim.Native.Nat.Ordering.{eq}
use Prim.Native.Nat.{suc}
use mathlib.Core.Path.{◌≡◌, sym, subst}
use mathlib.Core.Logic.{◌≢◌, inl, inr}
use mathlib.Core.Bool.{true, false}
use mathlib.Core.List.{List, [], ◌∷◌}
use native.Mathlib.Omega.{arith}
use bkndb.Prelude.Tests.{if◌then◌else◌, Bool-cases}
use bkndb.Prelude.Lists.{All, length}
use bkndb.Prelude.Order.{Ord, is_le}

module _ {ℓ} {K : Type ℓ} ⦃o : Ord K⦄ where
  unfoldable pub push : K → List K → List K
  push e [] = e ∷ []
  push e (x ∷ h) = let rest = push e h in if is_le (o.cmp e x) then e ∷ x ∷ h else x ∷ rest

  pub push_comm : (e f : K) (h : List K) → o.cmp e f ≢ eq → push e (push f h) ≡ push f (push e h)
  unfolding push
  push_comm e f [] d = ground (
    arith,
    o.less_of_greater e f,
    o.greater_of_less e f,
    o.less_of_greater f e,
    o.greater_of_less f e,
    o.same_of_equal e f,
    o.same_of_equal f e,
    o.self_equal e,
  )
  push_comm e f (x ∷ h) d = ground (
    arith,
    push_comm e f h d,
    o.less_of_greater e f,
    o.greater_of_less e f,
    o.less_of_greater f e,
    o.same_of_equal f e,
    o.self_equal e,
    o.less_trans e f x,
    o.less_trans f e x,
    o.less_of_greater e x,
    o.less_of_greater f x,
    o.less_trans x e f,
    o.less_trans x f e,
    o.same_of_equal e x,
    o.same_of_equal f x,
  )

  pub length-push : (e : K) (h : List K) → length (push e h) ≡ suc (length h)
  unfolding push
  length-push e [] = omega arith
  length-push e (x ∷ h) = elim (Bool-cases (is_le (o.cmp e x))) [
    | inl le ↦ rw le (omega arith)
    | inr past ↦ rw past (omega (arith, length-push e h))
  ]

  -- What is pushed and stands first is popped again.
  pub pop-push : (e : K) (h rest : List K) → push e h ≡ e ∷ rest → h ≡ rest
  unfolding push
  pop-push e [] rest p = cc
  pop-push e (x ∷ h) rest p = ground (arith, o.self_equal e)

  pub All-push {κ} : (P : K → Type κ) (e : K) (h : List K) → All P (push e h) → P e × All P h
  unfolding push
  All-push P e [] a = a
  All-push P e (x ∷ h) a = elim (Bool-cases (is_le (o.cmp e x))) [
    | inl le ↦ rw le at a
    | inr past ↦
        (let b : P x × All P (push e h) = rw past at a in
          let c = All-push P e h b.1 in (c.0, (b.0, c.1)))
  ]

  pub push-All {κ} : (P : K → Type κ) (e : K) (h : List K) → P e → All P h → All P (push e h)
  unfolding push
  push-All P e [] p a = (p, tt)
  push-All P e (x ∷ h) p a = elim (Bool-cases (is_le (o.cmp e x))) [
    | inl le ↦ rw le (p, (a.0, a.1))
    | inr past ↦ rw past (a.0, push-All P e h p a.1)
  ]

  le_trans :
      (x y z : K) → is_le (o.cmp x y) ≡ true → is_le (o.cmp y z) ≡ true → is_le (o.cmp x z) ≡ true
  le_trans x y z h k = ground (arith, o.less_trans x y z, o.same_of_equal x y, o.same_of_equal y z)

  abbrev pub IsAscending : List K → Type ℓ
  IsAscending [] = Unit
  IsAscending (x ∷ h) = All (λ y. is_le (o.cmp x y) ≡ true) h × IsAscending h

  le-All :
      (e x : K) (h : List K)
      → is_le (o.cmp e x) ≡ true
      → All (λ y. is_le (o.cmp x y) ≡ true) h
      → All (λ y. is_le (o.cmp e y) ≡ true) h
  le-All e x [] h a = tt
  le-All e x (y ∷ ys) h a = (le_trans e x y h a.0, le-All e x ys h a.1)

  pub push-IsAscending : (e : K) (h : List K) → IsAscending h → IsAscending (push e h)
  unfolding push
  push-IsAscending e [] a = (tt, tt)
  push-IsAscending e (x ∷ h) a = elim (Bool-cases (is_le (o.cmp e x))) [
    | inl le ↦ rw le ((le, le-All e x h le a.0), a)
    | inr past ↦
        rw past
          (push-All (λ y. is_le (o.cmp x y) ≡ true) e h (below past) a.0, push-IsAscending e h a.1)
  ]
    where
      below : is_le (o.cmp e x) ≡ false → is_le (o.cmp x e) ≡ true
      below past = ground (arith, o.less_of_greater e x)

  -- The first element is the least.
  pub first-le_push :
      (e x : K) (h rest : List K) → IsAscending h → push e h ≡ x ∷ rest → is_le (o.cmp x e) ≡ true
  first-le_push e x h rest a p =
      let s : IsAscending (x ∷ rest) = subst IsAscending p (push-IsAscending e h a) in
      let all : All (λ y. is_le (o.cmp x y) ≡ true) (x ∷ rest) = (self, s.0) in
      (All-push (λ y. is_le (o.cmp x y) ≡ true) e h
        (subst (All (λ y. is_le (o.cmp x y) ≡ true)) (sym p) all)).0
    where
      self : is_le (o.cmp x x) ≡ true
      self = ground (arith, o.self_equal x)
