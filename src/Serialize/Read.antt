-- ===== src/Serialize/Read.antt =====
-- service/datastore/serialize/serialize.go: the reading half. Where Go counts what it has read against
-- a limit, the functions here count down what is left of the limit.
pub mod RoundTrip
pub mod Maps
pub mod Definitions
use gae.Prelude.{
  ℕ, zero, suc, ◌-◌, ◌%◌, Bool, true, false, not, ◌||◌, Option, none, some, List, [], ◌∷◌, ◌==◌,
  ltb, leb, ℤ, pos, negsuc, ltb_ℤ, Bytes, insert, if◌then◌else◌, map,
}
use gae.Datastore.Float.{Float64, GeoPoint, valid}
use gae.Datastore.Property.{Value, PropertyOf, set_value, Checked, int_to_time, Input}
use gae.Datastore.Property
use gae.Datastore.KeyTok.{KeyTok}
use gae.Datastore.Key.{Key, KeyContext, new_key_toks}
use gae.Datastore.KeyProperty.{Property}
use gae.Datastore.PropertyMap.{PropertyMap, PropertyData, single, multiple}
use gae.Datastore.IndexColumn.{IndexColumn}
use gae.Datastore.IndexDefinition.{IndexDefinition}
use gae.Serialize.Cmpbin.{Cmpbin}
use gae.Serialize.Write.{string_type, int_type}
use gae.Serialize.Reader.{
  Reader, Read, ok, err, ReadError, bad_context, huge_key, bad_id, bad_id_type, bad_geo_point,
  unknown_type, huge_map, huge_slice, too_many_orders, bad_value, nil_key, ◌>>=◌, ◌>>◌, pure, fail,
  fail_if, read_byte,
}

-- The limits of keys, of maps and their slices, and of index definitions.
abbrev pub max_toks : ℕ
max_toks = 50

abbrev pub max_rows : ℕ
max_rows = 30000

abbrev pub max_index_columns : ℕ
max_index_columns = 64

abbrev pub not_positive : ℤ → Bool
not_positive n = ltb_ℤ n (pos 1)

module _ (c : Cmpbin) where
  abbrev pub tok_of : Bytes → Bytes → ℤ → KeyTok
  tok_of kind string_id int_id = record { kind = kind; int_id = int_id; string_id = string_id }

  abbrev pub read_id : Bytes → ℕ → Reader KeyTok
  read_id kind typ =
      if typ == string_type
      then (c.read_string >>= λ s. pure (tok_of kind s (pos 0)))
      else if typ == int_type
      then (c.read_int >>= λ n. fail_if (not_positive n) bad_id >> pure (tok_of kind [] n))
      else fail bad_id_type

  unfoldable pub read_key_tok : Reader KeyTok
  read_key_tok = do kind ← c.read_string; typ ← read_byte; read_id kind typ

  -- The loop of `ReadKey`, which reads `left` tokens at most.
  unfoldable pub read_toks : ℕ → Reader (List KeyTok)
  read_toks zero = do ctrl ← read_byte; if ctrl == 0 then pure [] else fail huge_key
  read_toks (suc left) = do
    ctrl ← read_byte
    (if ctrl == 0
        then pure []
        else (read_key_tok >>= λ tok. read_toks left >>= λ toks. pure (tok ∷ toks)))

  abbrev pub no_context : KeyContext
  no_context = record { app_id = []; namespace = [] }

  abbrev pub read_context : ℕ → Reader KeyContext
  read_context actual =
      if actual == 1
      then (c.read_string >>= λ a.
          c.read_string >>= λ n. pure (record { app_id = a; namespace = n }))
      else if not (actual == 0)
      then fail bad_context
      else pure no_context

  unfoldable pub read_key : Bool → KeyContext → Reader (Option Key)
  read_key context in_kc = do
    actual ← read_byte
    kc ← read_context actual
    toks ← read_toks max_toks
    pure (new_key_toks (if not context then in_kc else kc) toks)

  unfoldable pub read_geo_point : Reader GeoPoint
  read_geo_point = do
    lat ← c.read_float64
    lng ← c.read_float64
    let gp : GeoPoint = record { lat = lat; lng = lng }
    fail_if (not (valid gp)) bad_geo_point
    pure gp

  unfoldable pub read_time : Reader ℤ
  read_time = do v ← c.read_int; pure (int_to_time v)

  abbrev pub some_key : Option Key → Reader (Value Key)
  some_key none = fail nil_key
  some_key (some k) = pure (Value.key k)

  -- The switch of `ReadProperty`, on the type's byte.
  unfoldable pub read_value : Bool → KeyContext → ℕ → Reader (Value Key)
  read_value context kc typ =
      if typ == 0
      then pure Value.null
      else if typ == 1
      then (c.read_int >>= λ n. pure (Value.int n))
      else if typ == 2
      then (read_time >>= λ t. pure (Value.time t))
      else if typ == 3
      then (read_byte >>= λ b. pure (Value.bool (not (b == 0))))
      else if typ == 4
      then (c.read_string >>= λ s. pure (Value.bytes s))
      else if typ == 5
      then (c.read_string >>= λ s. pure (Value.string s))
      else if typ == 6
      then (c.read_float64 >>= λ f. pure (Value.float f))
      else if typ == 7
      then (read_geo_point >>= λ g. pure (Value.geo_point g))
      else if typ == 8
      then (read_key context kc >>= some_key)
      else if typ == 9
      then (c.read_string >>= λ s. pure (Value.blob_key s))
      else fail unknown_type

  abbrev pub checked : Checked Property → Reader Property
  checked (Checked.ok p) = pure p
  checked (Checked.err e) = fail (bad_value e)

  -- `b & 0x80` and `b & 0x7f` of a byte.
  unfoldable pub read_property : Bool → KeyContext → Reader Property
  read_property context kc = do
    b ← read_byte
    v ← read_value context kc (b % 128)
    checked (set_value (Input.value v) (ltb b 128))

  unfoldable pub read_properties : Bool → KeyContext → ℕ → Reader (List Property)
  read_properties context kc zero = pure []
  read_properties context kc (suc n) = do
    p ← read_property context kc
    ps ← read_properties context kc n
    pure (p ∷ ps)

  abbrev pub read_data : Bool → KeyContext → ℤ → Reader PropertyData
  read_data context kc (negsuc n) = do p ← read_property context kc; pure (single p)
  read_data context kc (pos n) =
      if ltb max_rows n
      then fail huge_slice
      else (read_properties context kc n >>= λ ps. pure (multiple ps))

  unfoldable pub read_rows : Bool → KeyContext → ℕ → PropertyMap → Reader PropertyMap
  read_rows context kc zero pm = pure pm
  read_rows context kc (suc n) pm = do
    name ← c.read_string
    num_props ← c.read_int
    d ← read_data context kc num_props
    read_rows context kc n (insert name d pm)

  unfoldable pub read_property_map : Bool → KeyContext → Reader PropertyMap
  read_property_map context kc = do
    num_rows ← c.read_uint
    fail_if (ltb max_rows num_rows) huge_map
    read_rows context kc num_rows []

  unfoldable pub read_index_column : Reader IndexColumn
  read_index_column = do
    dir ← read_byte
    property ← c.read_string
    pure (record { property = property; descending = not (dir == 0) })

  -- The loop of `ReadIndexDefinition`: Go tests `len(i.SortBy) > MaxIndexColumns` before it reads.
  unfoldable pub read_columns : ℕ → Reader (List IndexColumn)
  read_columns zero = do ctrl ← read_byte; if ctrl == 0 then pure [] else fail too_many_orders
  read_columns (suc left) = do
    ctrl ← read_byte
    (if ctrl == 0
        then pure []
        else (read_index_column >>= λ sb. read_columns left >>= λ sbs. pure (sb ∷ sbs)))

  unfoldable pub read_index_definition : Reader IndexDefinition
  read_index_definition = do
    kind ← c.read_string
    anc ← read_byte
    sort_by ← read_columns (suc max_index_columns)
    pure (record { kind = kind; ancestor = anc == 1; sort_by = sort_by })
