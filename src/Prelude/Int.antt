-- ===== src/Prelude/Int.antt =====
-- Signed integers over the native numbers, under the library's names, and their order.
use gae.Prelude.Tests.{if◌then◌else◌, leb}
use Prim.Native.Nat.{ℕ, suc, ◌+◌, ◌-◌, compare, Ordering}
use mathlib.Core.Path.{◌≡◌}
use mathlib.Core.Bool.{Bool}
use native.Mathlib.Omega.{arith}
use gae.Prelude.Compare.{IsOrder, is_lt, is_eq}

-- `negsuc n` is -(n + 1).
pub data ℤ : Type 0 where
  pos : ℕ → ℤ
  negsuc : ℕ → ℤ

abbrev pub pos_part : ℤ → ℕ
pos_part (pos n) = n
pos_part (negsuc n) = 0

abbrev pub neg_part : ℤ → ℕ
neg_part (pos n) = 0
neg_part (negsuc n) = suc n

-- a against b, by moving the negative parts to the other side.
abbrev pub cmp_ℤ : ℤ → ℤ → Ordering
cmp_ℤ a b = compare (pos_part a + neg_part b) (pos_part b + neg_part a)

abbrev pub eqb_ℤ : ℤ → ℤ → Bool
eqb_ℤ a b = is_eq (cmp_ℤ a b)

abbrev pub ltb_ℤ : ℤ → ℤ → Bool
ltb_ℤ a b = is_lt (cmp_ℤ a b)

pub cmp_ℤ-IsOrder : IsOrder (λ (a : ℤ). Unit) cmp_ℤ
cmp_ℤ-IsOrder = record {
  swapped = λ a b _ _. ground arith;
  eq_left = λ a b c _ _ _ h. ground arith;
  lt_trans = λ a b c _ _ _ h k. ground arith;
}

pub cmp_ℤ-eq : (a b : ℤ) → cmp_ℤ a b ≡ Ordering.eq → a ≡ b
cmp_ℤ-eq a b h = ground arith

infixl 6 ◌+ℤ◌
abbrev pub difference : ℕ → ℕ → ℤ
difference a b = if leb b a then pos (a - b) else negsuc (b - a - 1)

abbrev pub ◌+ℤ◌ : ℤ → ℤ → ℤ
a +ℤ b = difference (pos_part a + pos_part b) (neg_part a + neg_part b)

abbrev pub negate : ℤ → ℤ
negate a = difference (neg_part a) (pos_part a)
