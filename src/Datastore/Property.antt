-- ===== src/Datastore/Property.antt =====
-- service/datastore/properties.go: property values, their types, and how an index compares them.
-- The type of keys is a parameter: the ID of a key token is itself a property, one that holds no
-- key, and key.go compares keys through such properties.
pub mod Order
pub mod Projection
use gae.Prelude.{
  ℕ, ◌+◌, ◌*◌, ◌-◌, ◌^◌, Ordering, lt, eq, gt, Bool, true, false, not, ◌&&◌, Option, none, some,
  List, [], ◌∷◌, length, ◌==◌, if◌then◌else◌, ℤ, pos, negsuc, eqb_ℤ, ltb_ℤ, is_lt, is_eq, Bytes,
  cmp_bytes, compare,
}
use gae.Datastore.Float.{Float64, GeoPoint, cmp_float, cmp_geo, valid}

pub data PropertyType : Type 0 where
  pt_null pt_int pt_time pt_bool pt_bytes pt_string pt_float pt_geo_point pt_key pt_blob_key :
      PropertyType
  pt_unknown : PropertyType

-- The constant of the enumeration.
abbrev pub rank : PropertyType → ℕ
rank pt_null = 0
rank pt_int = 1
rank pt_time = 2
rank pt_bool = 3
rank pt_bytes = 4
rank pt_string = 5
rank pt_float = 6
rank pt_geo_point = 7
rank pt_key = 8
rank pt_blob_key = 9
rank pt_unknown = 10

-- A time is a count of microseconds from the Unix epoch: what `RoundTime` leaves of a `time.Time`.
pub data Value (K : Type 0) : Type 0 where
  null : Value K
  int : ℤ → Value K
  time : ℤ → Value K
  bool : Bool → Value K
  bytes : Bytes → Value K
  string : Bytes → Value K
  float : Float64 → Value K
  geo_point : GeoPoint → Value K
  key : K → Value K
  blob_key : Bytes → Value K

-- `ShouldIndex` is false and `NoIndex` is true. The type that Go stores beside the value is
-- `prop_type`.
pub record PropertyOf (K : Type 0) : Type 0 where
  pub value : Value K
  pub no_index : Bool

-- The zero `time.Time`, the first of January of the year 1.
abbrev pub zero_time : ℤ
zero_time = negsuc (62135596800000000 - 1)

abbrev pub min_time : ℤ
min_time = negsuc (2 ^ 63 - 1)

abbrev pub max_time : ℤ
max_time = pos (2 ^ 63 - 1)

unfoldable pub time_to_int : ℤ → ℤ
time_to_int t = if eqb_ℤ t zero_time then pos 0 else t

unfoldable pub int_to_time : ℤ → ℤ
int_to_time v = if eqb_ℤ v (pos 0) then zero_time else v

-- The value of a property in an index.
pub data IndexValue (K : Type 0) : Type 0 where
  null : IndexValue K
  int : ℤ → IndexValue K
  bool : Bool → IndexValue K
  string : Bytes → IndexValue K
  float : Float64 → IndexValue K
  geo_point : GeoPoint → IndexValue K
  key : K → IndexValue K

-- What a caller may hand to `SetValue`: a value of a valid Go type, or one of any other type.
pub data Input (K : Type 0) : Type 0 where
  value : Value K → Input K
  other_type : Input K

pub data ValueError : Type 0 where
  time_out_of_range invalid_geo_point bad_type : ValueError

pub data Checked (A : Type 0) : Type 0 where
  ok : A → Checked A
  err : ValueError → Checked A

module _ {K : Type 0} where
  unfoldable pub property_type_of : Value K → PropertyType
  property_type_of Value.null = pt_null
  property_type_of (Value.int n) = pt_int
  property_type_of (Value.time t) = pt_time
  property_type_of (Value.bool b) = pt_bool
  property_type_of (bytes s) = pt_bytes
  property_type_of (Value.string s) = pt_string
  property_type_of (Value.float f) = pt_float
  property_type_of (Value.geo_point g) = pt_geo_point
  property_type_of (Value.key k) = pt_key
  property_type_of (blob_key s) = pt_blob_key

  -- The test of `PropertyTypeOf` under `checkValid`.
  unfoldable pub check_valid : Value K → Checked (Value K)
  check_valid (Value.time t) =
      if ltb_ℤ t min_time
      then err time_out_of_range
      else if ltb_ℤ max_time t
      then err time_out_of_range
      else ok (Value.time t)
  check_valid (Value.geo_point g) =
      if not (valid g) then err invalid_geo_point else ok (Value.geo_point g)
  check_valid v = ok v

  checked_property : Bool → Checked (Value K) → Checked (PropertyOf K)
  checked_property is (ok v) = ok (record { value = v; no_index = is })
  checked_property is (err e) = err e

  unfoldable pub set_value : Input K → Bool → Checked (PropertyOf K)
  unfolding check_valid checked_property
  set_value (Input.value v) is = checked_property is (check_valid v)
  set_value other_type is = err bad_type

  unfoldable pub index_value_of : Value K → IndexValue K
  unfolding time_to_int
  index_value_of Value.null = IndexValue.null
  index_value_of (Value.int n) = IndexValue.int n
  index_value_of (Value.time t) = IndexValue.int (time_to_int t)
  index_value_of (Value.bool b) = IndexValue.bool b
  index_value_of (bytes s) = IndexValue.string s
  index_value_of (Value.string s) = IndexValue.string s
  index_value_of (Value.float f) = IndexValue.float f
  index_value_of (Value.geo_point g) = IndexValue.geo_point g
  index_value_of (Value.key k) = IndexValue.key k
  index_value_of (blob_key s) = IndexValue.string s

  abbrev pub index_type : IndexValue K → PropertyType
  index_type IndexValue.null = pt_null
  index_type (IndexValue.int n) = pt_int
  index_type (IndexValue.bool b) = pt_bool
  index_type (IndexValue.string s) = pt_string
  index_type (IndexValue.float f) = pt_float
  index_type (IndexValue.geo_point g) = pt_geo_point
  index_type (IndexValue.key k) = pt_key

  unfoldable pub index_type_and_value : PropertyOf K → PropertyType × IndexValue K
  unfolding index_value_of
  index_type_and_value p = let v = index_value_of p.value in (index_type v, v)

abbrev cmp_bool : Bool → Bool → Ordering
cmp_bool true true = eq
cmp_bool true false = gt
cmp_bool false true = lt
cmp_bool false false = eq

module _ {K : Type 0} (key_equal key_less : K → K → Bool) where
  unfoldable pub cmp_key : K → K → Ordering
  cmp_key a b = if key_equal a b then eq else if key_less b a then gt else lt

  -- The switch of `Compare`. It is reached with two values of one type: the last clause is not.
  unfoldable pub cmp_values : IndexValue K → IndexValue K → Ordering
  unfolding cmp_key
  cmp_values IndexValue.null IndexValue.null = eq
  cmp_values (IndexValue.bool a) (IndexValue.bool b) = cmp_bool a b
  cmp_values (IndexValue.int a) (IndexValue.int b) =
      if eqb_ℤ a b then eq else if ltb_ℤ b a then gt else lt
  cmp_values (IndexValue.string a) (IndexValue.string b) = cmp_bytes a b
  cmp_values (IndexValue.float a) (IndexValue.float b) = cmp_float a b
  cmp_values (IndexValue.geo_point a) (IndexValue.geo_point b) = cmp_geo a b
  cmp_values (IndexValue.key a) (IndexValue.key b) = cmp_key a b
  cmp_values _ _ = eq

  unfoldable pub compare_with : PropertyOf K → PropertyOf K → Ordering
  unfolding index_type_and_value cmp_values
  compare_with p other =
      if p.no_index && not other.no_index
      then gt
      else if not p.no_index && other.no_index
      then lt
      else let (at, av) = index_type_and_value p in
        let (bt, bv) = index_type_and_value other in
        let cmp = compare (rank at) (rank bt) in if not (is_eq cmp) then cmp else cmp_values av bv

  unfoldable pub less_with : PropertyOf K → PropertyOf K → Bool
  less_with p other = is_lt (compare_with p other)

  unfoldable pub equal_with : PropertyOf K → PropertyOf K → Bool
  equal_with p other = is_eq (compare_with p other)

-- `EstimateSize`, with the size of a key as a parameter.
module _ {K : Type 0} (key_size : K → ℕ) where
  unfoldable pub size_with : PropertyOf K → ℕ
  size_with p = elim p.value [
    | Value.null ↦ 1
    | Value.bool b ↦ 1 + 4
    | Value.int n ↦ 1 + 8
    | Value.time t ↦ 1 + 8
    | Value.float f ↦ 1 + 8
    | Value.geo_point g ↦ 1 + 8 * 2
    | Value.string s ↦ 1 + length s
    | blob_key s ↦ 1 + length s
    | bytes s ↦ 1 + length s
    | Value.key k ↦ 1 + key_size k
  ]
