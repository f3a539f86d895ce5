-- ===== src/Prelude/ListOrder.antt =====
-- The lexicographic order of lists over an order of their elements.
use Prim.Native.Nat.{Ordering}
use Prim.Native.Nat.Ordering.{lt, eq, gt}
use mathlib.Core.Path.{◌≡◌, refl}
use mathlib.Core.List.{List, [], ◌∷◌}
use native.Mathlib.Omega.{arith}
use gae.Prelude.Compare.{IsOrder, or_else, flip, eq_right}
use gae.Prelude.Lists.{All}

module _ {ℓ} {A : Type ℓ} (cmp : A → A → Ordering) where
  unfoldable pub cmp_list : List A → List A → Ordering
  cmp_list [] [] = eq
  cmp_list [] (y ∷ ys) = lt
  cmp_list (x ∷ xs) [] = gt
  cmp_list (x ∷ xs) (y ∷ ys) = or_else (cmp x y) (cmp_list xs ys)

module _ {ℓ} {A : Type ℓ} {P : A → Type 0} (cmp : A → A → Ordering) (o : IsOrder P cmp) where
  list-swapped : (a b : List A) → All P a → All P b → cmp_list cmp b a ≡ flip (cmp_list cmp a b)
  unfolding cmp_list
  list-swapped [] [] p q = refl
  list-swapped [] (y ∷ ys) p q = refl
  list-swapped (x ∷ xs) [] p q = refl
  list-swapped (x ∷ xs) (y ∷ ys) (p, ps) (q, qs) =
      ground (arith, o.swapped x y p q, list-swapped xs ys ps qs)

  list-eq_left :
      (a b c : List A)
      → All P a
      → All P b
      → All P c
      → cmp_list cmp a b ≡ eq
      → cmp_list cmp a c ≡ cmp_list cmp b c
  unfolding cmp_list
  list-eq_left [] [] c p q r h = refl
  list-eq_left [] (y ∷ ys) c p q r h = cc
  list-eq_left (x ∷ xs) [] c p q r h = cc
  list-eq_left (x ∷ xs) (y ∷ ys) [] p q r h = refl
  list-eq_left (x ∷ xs) (y ∷ ys) (z ∷ zs) (p, ps) (q, qs) (r, rs) h =
      ground (arith, λ (e : cmp x y ≡ eq). o.eq_left x y z p q r e, list-eq_left xs ys zs ps qs rs)

  list-lt_trans :
      (a b c : List A)
      → All P a
      → All P b
      → All P c
      → cmp_list cmp a b ≡ lt
      → cmp_list cmp b c ≡ lt
      → cmp_list cmp a c ≡ lt
  unfolding cmp_list
  list-lt_trans [] [] c p q r h k = cc
  list-lt_trans [] (y ∷ ys) [] p q r h k = cc
  list-lt_trans [] (y ∷ ys) (z ∷ zs) p q r h k = refl
  list-lt_trans (x ∷ xs) [] c p q r h k = cc
  list-lt_trans (x ∷ xs) (y ∷ ys) [] p q r h k = cc
  list-lt_trans (x ∷ xs) (y ∷ ys) (z ∷ zs) (p, ps) (q, qs) (r, rs) h k = ground (
    arith,
    λ (e : cmp x y ≡ eq). o.eq_left x y z p q r e,
    λ (e : cmp y z ≡ eq). eq_right o x y z p q r e,
    λ (e : cmp x y ≡ lt) (f : cmp y z ≡ lt). o.lt_trans x y z p q r e f,
    list-lt_trans xs ys zs ps qs rs,
  )

  pub cmp_list-IsOrder : IsOrder (All P) (cmp_list cmp)
  cmp_list-IsOrder = record {
    swapped = list-swapped;
    eq_left = list-eq_left;
    lt_trans = list-lt_trans;
  }
