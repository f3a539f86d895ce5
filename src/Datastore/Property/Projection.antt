-- ===== src/Datastore/Property/Projection.antt =====
-- `Project` of properties.go, and what it makes of a value that was read from an index.
use gae.Prelude.{◌≡◌, refl, ◌≢◌, arith, false, Option, none, some, ℕ, List, [], ℤ, pos}
use gae.Datastore.Float.{Float64, float_of}
use gae.Datastore.Property.{
  PropertyType, pt_null, pt_int, pt_time, pt_bool, pt_bytes, pt_string, pt_float, pt_geo_point,
  pt_key, pt_blob_key, Value, null, int, time, bool, bytes, string, float, geo_point, key, blob_key,
  IndexValue, index_value_of, property_type_of, time_to_int, int_to_time, zero_time,
}

abbrev zero_float : Float64
zero_float = float_of false 0

time_roundtrip : (t : ℤ) → t ≢ pos 0 → int_to_time (time_to_int t) ≡ t
unfolding int_to_time time_to_int
time_roundtrip t h = ground arith

module _ {K : Type 0} where
  -- The zero value that PTNull is projected to.
  abbrev zero_of : PropertyType → Option (Value K)
  zero_of pt_int = some (int (pos 0))
  zero_of pt_time = some (time zero_time)
  zero_of pt_bool = some (bool false)
  zero_of pt_bytes = some (bytes [])
  zero_of pt_string = some (string [])
  zero_of pt_float = some (float zero_float)
  zero_of pt_geo_point = some (geo_point (record { lat = zero_float; lng = zero_float }))
  zero_of pt_key = some null
  zero_of pt_blob_key = some (blob_key [])
  zero_of _ = none

  abbrev project_bytes : PropertyType → List ℕ → Option (Value K)
  project_bytes pt_bytes s = some (bytes s)
  project_bytes pt_string s = some (string s)
  project_bytes pt_blob_key s = some (blob_key s)
  project_bytes _ s = none

  -- By the type of the property; `none` is the error.
  abbrev project_value : PropertyType → Value K → Option (Value K)
  project_value pt_int (int n) = some (int n)
  project_value pt_time (int n) = some (time (int_to_time n))
  project_value pt_int (time t) = some (int (time_to_int t))
  project_value pt_time (time t) = some (time t)
  project_value pt_bool (bool b) = some (bool b)
  project_value pt_float (float f) = some (float f)
  project_value pt_geo_point (geo_point g) = some (geo_point g)
  project_value pt_key (key k) = some (key k)
  project_value to (bytes s) = project_bytes to s
  project_value to (string s) = project_bytes to s
  project_value to (blob_key s) = project_bytes to s
  project_value to null = zero_of to
  project_value to v = none

  unfoldable pub project : PropertyType → Value K → Option (Value K)
  project pt_null v = some null
  project to v = project_value to v

  -- An index value, as the property that a projection query returns.
  abbrev pub from_index : IndexValue K → Value K
  from_index IndexValue.null = null
  from_index (IndexValue.int n) = int n
  from_index (IndexValue.bool b) = bool b
  from_index (IndexValue.string s) = string s
  from_index (IndexValue.float f) = float f
  from_index (IndexValue.geo_point g) = geo_point g
  from_index (IndexValue.key k) = key k

  -- The Unix epoch and the zero time share an index entry.
  abbrev pub IsStored : Value K → Type 0
  IsStored (time t) = t ≢ pos 0
  IsStored _ = Unit

  -- A value that is read back from an index entry and projected to its own type is the value that
  -- was stored, for every type of value; a time must not be the Unix epoch itself.
  pub project_index :
      (v : Value K)
      → IsStored v
      → project (property_type_of v) (from_index (index_value_of v)) ≡ some v
  unfolding project index_value_of property_type_of
  project_index (time t) h = rw (time_roundtrip t h)
  project_index _ h = refl
