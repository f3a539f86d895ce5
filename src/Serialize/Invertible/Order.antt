-- ===== src/Serialize/Invertible/Order.antt =====
-- What the inversion is for: it turns the order of bytes round.
use gae.Prelude.{◌≡◌, refl, [], ◌∷◌, length, All, flip, arith, Bytes, cmp_bytes}
use gae.Serialize.Invertible.{IsByte, invert_all}

-- Two runs of bytes of one length compare inverted as they do not inverted, but the other way round.
pub invert_all-flips :
    (a b : Bytes)
    → All IsByte a
    → All IsByte b
    → length a ≡ length b
    → cmp_bytes (invert_all a) (invert_all b) ≡ flip (cmp_bytes a b)
unfolding cmp_bytes invert_all
invert_all-flips [] [] p q h = refl
invert_all-flips [] (y ∷ ys) p q h = ground (arith, h)
invert_all-flips (x ∷ xs) [] p q h = ground (arith, h)
invert_all-flips (x ∷ xs) (y ∷ ys) (p, ps) (q, qs) h =
    ground (arith, invert_all-flips xs ys ps qs (omega (arith, h)))
