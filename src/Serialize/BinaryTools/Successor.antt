-- ===== src/Serialize/BinaryTools/Successor.antt =====
-- `Increment` adds one.
use gae.Prelude.{
  ℕ, ◌+◌, ◌*◌, ◌^◌, ◌==◌, ◌≡◌, refl, Bool, true, false, [], ◌∷◌, if◌then◌else◌, Bytes, All, length,
  arith, Bool-cases, inl, inr, lt, cmp_bytes, suc, ap,
}
use gae.Serialize.Invertible.{IsByte}
use gae.Serialize.BinaryTools.{carry, increment}

-- The number that the bytes write, the highest first.
unfoldable pub number_of : Bytes → ℕ
number_of [] = 0
number_of (b ∷ bs) = b * 256 ^ length bs + number_of bs

-- Of the carried bytes, against those before.
abbrev Adds : Bytes → Bytes × Bool → Type 0
Adds bs (ret, overflow) =
    (number_of ret + (if overflow then 256 ^ length bs else 0) ≡ number_of bs + 1)
    × (length ret ≡ length bs)
    × (overflow ≡ false → cmp_bytes bs ret ≡ lt)

top : (b : ℕ) → b == 255 ≡ true → b ≡ 255
top b h = ground (arith, h)

pow_suc : (n : ℕ) → 256 ^ suc n ≡ 256 * 256 ^ n
pow_suc n = omega arith

add_place : (b w r v : ℕ) → r + w ≡ v + 1 → (b + 1) * w + r + 0 ≡ b * w + v + 1
add_place b w r v h = grind (arith, h)

carry-Adds :
    (b : ℕ) (bs : Bytes) (r : Bytes × Bool) → IsByte b → Adds bs r → Adds (b ∷ bs) (carry b r)
unfolding number_of cmp_bytes
carry-Adds b bs (ret, false) h (n, l, c) =
    (rw l (omega (arith, n)), ap suc l, λ _. ground (arith, c refl))
carry-Adds b bs (ret, true) h (n, l, c) = elim (Bool-cases (b == 255)) [
  | inl e ↦
      rw e (rw (l, top b e, pow_suc (length bs)) (omega (arith, n)), ap suc l, λ o. absurd (cc))
  | inr e ↦ rw e (
    rw l (add_place b (256 ^ length bs) (number_of ret) (number_of bs) n),
    ap suc l,
    λ o. ground arith,
  )
]

increment-Adds : (bs : Bytes) → All IsByte bs → Adds bs (increment bs)
unfolding increment number_of
increment-Adds [] h = (refl, refl, λ o. absurd (cc))
increment-Adds (b ∷ bs) (h, hs) = carry-Adds b bs (increment bs) h (increment-Adds bs hs)

-- `Increment` of bytes adds one to the number that they write, where an overflow counts as one in the
-- place before the first; the length stays, and without an overflow the result sorts after.
pub increment-adds_one :
    (bs : Bytes)
    → All IsByte bs
    → (number_of (increment bs).0 + (if (increment bs).1 then 256 ^ length bs else 0)
        ≡ number_of bs + 1)
      × (length (increment bs).0 ≡ length bs)
      × ((increment bs).1 ≡ false → cmp_bytes bs (increment bs).0 ≡ lt)
increment-adds_one bs h = increment-Adds bs h
