-- ===== src/Serialize/Write.antt =====
-- service/datastore/serialize/serialize.go: the writing half. A writer appends to a buffer, so it is
-- the bytes that it appends; the buffers here are `bytes.Buffer`s, whose writes return no error.
pub mod Order
use gae.Prelude.{
  ℕ, ◌+◌, Bool, true, false, not, ◌||◌, Option, none, some, List, [], ◌∷◌, ◌++◌, length, map, ℤ,
  pos, negsuc, if◌then◌else◌, any, Bytes, same_bytes, cmp_bytes, is_lt, insert, codes,
}
use gae.Datastore.Float.{Float64, GeoPoint}
use gae.Datastore.Property.{
  IndexValue, null, int, bool, string, float, geo_point, key, rank, property_type_of,
  index_type_and_value, Value, time_to_int,
}
use gae.Datastore.KeyTok.{KeyTok}
use gae.Datastore.Key.{Key, KeyContext, toks}
use gae.Datastore.KeyProperty.{Property}
use gae.Datastore.PropertyMap.{PropertyMap, PropertyData, single, multiple, save, slice_of_data}
use gae.Datastore.IndexColumn.{IndexColumn}
use gae.Datastore.IndexDefinition.{IndexDefinition}
use gae.Serialize.Cmpbin.{Cmpbin}

-- The bytes of the types of IDs, PTString and PTInt.
abbrev pub string_type : ℕ
string_type = 5

abbrev pub int_type : ℕ
int_type = 1

module _ (c : Cmpbin) where
  unfoldable pub write_id : KeyTok → Bytes
  write_id t =
      if not (same_bytes t.string_id [])
      then string_type ∷ c.write_string t.string_id
      else int_type ∷ c.write_int t.int_id

  unfoldable pub write_key_tok : KeyTok → Bytes
  write_key_tok t = c.write_string t.kind ++ write_id t

  unfoldable pub write_toks : List KeyTok → Bytes
  write_toks [] = 0 ∷ []
  write_toks (t ∷ ts) = 1 ∷ (write_key_tok t ++ write_toks ts)

  -- `context` is WithContext.
  unfoldable pub write_context : Bool → KeyContext → Bytes
  write_context context kc =
      if context then 1 ∷ (c.write_string kc.app_id ++ c.write_string kc.namespace) else 0 ∷ []

  unfoldable pub write_key : Bool → Key → Bytes
  write_key context k = write_context context k.kc ++ write_toks (toks k)

  unfoldable pub write_geo_point : GeoPoint → Bytes
  write_geo_point gp = c.write_float64 gp.lat ++ c.write_float64 gp.lng

  unfoldable pub write_time : ℤ → Bytes
  write_time t = c.write_int (time_to_int t)

  unfoldable pub write_index_value : Bool → IndexValue Key → Bytes
  write_index_value context null = []
  write_index_value context (bool b) = (if b then 1 else 0) ∷ []
  write_index_value context (int n) = c.write_int n
  write_index_value context (float f) = c.write_float64 f
  write_index_value context (string s) = c.write_string s
  write_index_value context (geo_point g) = write_geo_point g
  write_index_value context (key k) = write_key context k

  -- The high bit is that of an indexed property: `typb |= 0x80` of a type below 128.
  abbrev pub type_byte : ℕ → Bool → ℕ
  type_byte type no_index = if not no_index then type + 128 else type

  unfoldable pub write_property_impl : Bool → Property → Bool → Bytes
  write_property_impl context p index =
      let (index_type, v) = index_type_and_value p in
      let it = if not index then property_type_of p.value else index_type in
      type_byte (rank it) p.no_index ∷ write_index_value context v

  unfoldable pub write_property : Bool → Property → Bytes
  write_property context p = write_property_impl context p false

  unfoldable pub write_index_property : Bool → Property → Bytes
  write_index_property context p = write_property_impl context p true

  unfoldable pub write_properties : Bool → List Property → Bytes
  write_properties context [] = []
  write_properties context (p ∷ ps) = write_property context p ++ write_properties context ps

  unfoldable pub write_property_data : Bool → PropertyData → Bytes
  write_property_data context (single p) = c.write_int (negsuc 0) ++ write_property context p
  write_property_data context (multiple s) =
      c.write_int (pos (length s)) ++ write_properties context s

  unfoldable pub write_row : Bool → Bytes × PropertyData → Bytes
  write_row context (name, d) = c.write_string name ++ write_property_data context d

  abbrev insert_row : Bytes → List Bytes → List Bytes
  insert_row r [] = r ∷ []
  insert_row r (x ∷ xs) =
      let rest = insert_row r xs in if is_lt (cmp_bytes x r) then x ∷ rest else r ∷ x ∷ xs

  -- `rows.Sort()`
  abbrev sort_rows : List Bytes → List Bytes
  sort_rows [] = []
  sort_rows (r ∷ rs) = insert_row r (sort_rows rs)

  unfoldable pub write_rows : List Bytes → Bytes
  write_rows [] = []
  write_rows (r ∷ rs) = r ++ write_rows rs

  -- `deterministic` is `WritePropertyMapDeterministic`. Go ranges over the map in any order: here in
  -- the order of the list.
  unfoldable pub write_property_map : Bool → Bool → PropertyMap → Bytes
  write_property_map deterministic context pm =
      let saved = save false pm in
      let rows = map (write_row context) saved in
      c.write_uint (length saved) ++ write_rows (if deterministic then sort_rows rows else rows)

  unfoldable pub write_index_column : IndexColumn → Bytes
  write_index_column col = (if not col.descending then 0 else 1) ∷ c.write_string col.property

  unfoldable pub write_columns : List IndexColumn → Bytes
  write_columns [] = 0 ∷ []
  write_columns (sb ∷ sbs) = 1 ∷ (write_index_column sb ++ write_columns sbs)

  unfoldable pub write_index_definition : IndexDefinition → Bytes
  write_index_definition i =
      c.write_string i.kind ++ (if not i.ancestor then 0 else 1) ∷ write_columns i.sort_by

  -- The loop of `PropertySlice`, with the bytes seen before.
  unfoldable pub property_slice_from : List Bytes → List Property → List Bytes
  property_slice_from dups [] = []
  property_slice_from dups (v ∷ vs) =
      let bytes = write_index_property false v in
      elim (v.no_index || any (same_bytes bytes) dups) [
        | true ↦ property_slice_from dups vs
        | false ↦ bytes ∷ property_slice_from (bytes ∷ dups) vs
      ]

  unfoldable pub property_slice : List Property → List Bytes
  property_slice vals = property_slice_from [] vals
