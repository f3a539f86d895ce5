-- ===== src/Datastore/Float.antt =====
-- float64 as Go compares it, and GeoPoint of service/datastore/types.go.
use gae.Prelude.{
  ℕ, zero, suc, ◌+◌, ◌*◌, ◌^◌, Ordering, lt, eq, gt, ◌≡◌, Bool, true, false, not, ◌&&◌, ◌||◌, arith,
  ltb, if◌then◌else◌, ℤ, pos, negsuc, cmp_ℤ, cmp_ℤ-IsOrder, is_lt, is_eq, IsOrder, by_part, agree,
  both-IsOrder,
}

-- A float64 by its sign bit and its other 63 bits (exponent, then fraction).
pub record Float64 : Type 0 where
  pub negative : Bool
  pub magnitude : ℕ

-- The bits of +Inf: a larger magnitude is a NaN.
abbrev pub inf_bits : ℕ
inf_bits = 2047 * 2 ^ 52

abbrev pub is_nan : Float64 → Bool
is_nan f = ltb inf_bits f.magnitude

unfoldable pub signed : Bool → ℕ → ℤ
signed false m = pos m
signed true zero = pos 0
signed true (suc m) = negsuc m

-- IEEE 754: for numbers the order is that of sign and magnitude, with one zero.
unfoldable pub float_key : Float64 → ℤ
unfolding signed
float_key f = signed f.negative f.magnitude

unfoldable pub float_eq : Float64 → Float64 → Bool
float_eq a b = not (is_nan a) && not (is_nan b) && is_eq (cmp_ℤ (float_key a) (float_key b))

unfoldable pub float_lt : Float64 → Float64 → Bool
float_lt a b = not (is_nan a) && not (is_nan b) && is_lt (cmp_ℤ (float_key a) (float_key b))

unfoldable pub float_le : Float64 → Float64 → Bool
unfolding float_lt float_eq
float_le a b = float_lt a b || float_eq a b

unfoldable pub cmp_float : Float64 → Float64 → Ordering
unfolding float_eq float_lt
cmp_float a b = if float_eq a b then eq else if float_lt b a then gt else lt

pub record GeoPoint : Type 0 where
  pub lat : Float64
  pub lng : Float64

abbrev pub ninety : ℕ
ninety = 1029 * 2 ^ 52 + 13 * 2 ^ 47

abbrev pub hundred_eighty : ℕ
hundred_eighty = 1030 * 2 ^ 52 + 13 * 2 ^ 47

abbrev pub float_of : Bool → ℕ → Float64
float_of s m = record { negative = s; magnitude = m }

unfoldable pub valid : GeoPoint → Bool
unfolding float_le
valid g =
    float_le (float_of true ninety) g.lat
    && float_le g.lat (float_of false ninety)
    && float_le (float_of true hundred_eighty) g.lng
    && float_le g.lng (float_of false hundred_eighty)

unfoldable pub cmp_geo : GeoPoint → GeoPoint → Ordering
unfolding cmp_float
cmp_geo a b =
    let cmp = cmp_float a.lat b.lat in if not (is_eq cmp) then cmp else cmp_float a.lng b.lng

abbrev pub IsNumber : Float64 → Type 0
IsNumber f = is_nan f ≡ false

pub cmp_float-key :
    (a b : Float64) → IsNumber a → IsNumber b → cmp_float a b ≡ cmp_ℤ (float_key a) (float_key b)
unfolding float_eq float_lt cmp_float
cmp_float-key a b p q = ground (arith, cmp_ℤ-IsOrder.swapped (float_key a) (float_key b) tt tt)

-- On numbers `cmp_float` is an order. (A NaN is below itself.)
pub cmp_float-IsOrder : IsOrder IsNumber cmp_float
cmp_float-IsOrder =
    agree cmp_float (by_part cmp_ℤ-IsOrder IsNumber float_key (λ f p. tt)) cmp_float-key

abbrev pub HasNumbers : GeoPoint → Type 0
HasNumbers g = IsNumber g.lat × IsNumber g.lng

pub cmp_geo-IsOrder : IsOrder HasNumbers cmp_geo
unfolding cmp_geo
cmp_geo-IsOrder =
    agree cmp_geo
      (both-IsOrder _ _
        (by_part cmp_float-IsOrder HasNumbers (λ (g : GeoPoint). g.lat) (λ g p. p.0))
        (by_part cmp_float-IsOrder HasNumbers (λ (g : GeoPoint). g.lng) (λ g p. p.1)))
      λ a b p q. unfold cmp_geo in ground arith

-- A valid point has numbers for coordinates.
pub valid-HasNumbers : (g : GeoPoint) → valid g ≡ true → HasNumbers g
unfolding valid
valid-HasNumbers g h = ground arith
