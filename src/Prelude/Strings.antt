-- ===== src/Prelude/Strings.antt =====
-- Go strings and byte slices: lists of bytes, compared byte by byte and then by length.
use Prim.Native.Nat.{ℕ, compare, Ordering}
use Prim.Native.Nat.Ordering.{lt, eq, gt}
use Prim.Native.Char.{code}
use Prim.Native.String.{String}
use mathlib.Core.Path.{◌≡◌, refl}
use mathlib.Core.Logic.{◌↔◌}
use mathlib.Core.Bool.{Bool, true}
use mathlib.Core.List.{List, [], ◌∷◌}
use native.Mathlib.Omega.{arith}
use gae.Prelude.Compare.{IsOrder, flip, or_else, is_eq, cmp_refl}

abbrev pub Bytes : Type 0
Bytes = List ℕ

-- The bytes of a literal, which is ASCII in every use here.
abbrev pub codes : String → Bytes
codes String.[] = []
codes (String.◌∷◌ c s) = code c ∷ codes s

unfoldable pub cmp_bytes : Bytes → Bytes → Ordering
cmp_bytes [] [] = eq
cmp_bytes [] (y ∷ ys) = lt
cmp_bytes (x ∷ xs) [] = gt
cmp_bytes (x ∷ xs) (y ∷ ys) = or_else (compare x y) (cmp_bytes xs ys)

-- `==` on strings
unfoldable pub same_bytes : Bytes → Bytes → Bool
unfolding cmp_bytes
same_bytes a b = is_eq (cmp_bytes a b)

cmp_bytes-swapped : (a b : Bytes) → cmp_bytes b a ≡ flip (cmp_bytes a b)
unfolding cmp_bytes
cmp_bytes-swapped [] [] = refl
cmp_bytes-swapped [] (y ∷ ys) = refl
cmp_bytes-swapped (x ∷ xs) [] = refl
cmp_bytes-swapped (x ∷ xs) (y ∷ ys) = ground (arith, cmp_bytes-swapped xs ys)

pub cmp_bytes-eq : (a b : Bytes) → cmp_bytes a b ≡ eq → a ≡ b
unfolding cmp_bytes
cmp_bytes-eq [] [] h = refl
cmp_bytes-eq [] (y ∷ ys) h = cc
cmp_bytes-eq (x ∷ xs) [] h = cc
cmp_bytes-eq (x ∷ xs) (y ∷ ys) h = ground (arith, cmp_bytes-eq xs ys)

cmp_bytes-lt_trans : (a b c : Bytes) → cmp_bytes a b ≡ lt → cmp_bytes b c ≡ lt → cmp_bytes a c ≡ lt
unfolding cmp_bytes
cmp_bytes-lt_trans [] [] c h k = cc
cmp_bytes-lt_trans [] (y ∷ ys) [] h k = cc
cmp_bytes-lt_trans [] (y ∷ ys) (z ∷ zs) h k = refl
cmp_bytes-lt_trans (x ∷ xs) [] c h k = cc
cmp_bytes-lt_trans (x ∷ xs) (y ∷ ys) [] h k = cc
cmp_bytes-lt_trans (x ∷ xs) (y ∷ ys) (z ∷ zs) h k = ground (
  arith,
  cmp_bytes-lt_trans xs ys zs,
  λ (e : cmp_bytes xs ys ≡ eq). cmp_bytes-eq xs ys e,
  λ (e : cmp_bytes ys zs ≡ eq). cmp_bytes-eq ys zs e,
)

pub cmp_bytes-IsOrder : IsOrder (λ (a : Bytes). Unit) cmp_bytes
cmp_bytes-IsOrder = record {
  swapped = λ a b _ _. cmp_bytes-swapped a b;
  eq_left = λ a b c _ _ _ h. rw (cmp_bytes-eq a b h);
  lt_trans = λ a b c _ _ _ h k. cmp_bytes-lt_trans a b c h k;
}

pub same_bytes_iff : (a b : Bytes) → (same_bytes a b ≡ true) ↔ (a ≡ b)
unfolding same_bytes
same_bytes_iff a b =
    (λ h. cmp_bytes-eq a b (ground arith), λ h. rw (h, cmp_refl cmp_bytes-IsOrder b tt) refl)
