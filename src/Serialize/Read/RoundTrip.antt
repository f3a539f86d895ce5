-- ===== src/Serialize/Read/RoundTrip.antt =====
-- What the writing half writes the reading half reads back.
use gae.Prelude.{
  ℕ, zero, suc, ◌≤◌, ◌<◌, ◌%◌, ◌≡◌, ◌≢◌, ◌⊎◌, inl, inr, refl, sym, ap, Bool, true, false, not, some,
  List, [], ◌∷◌, ◌++◌, length, All, arith, Bytes, if◌then◌else◌, same_bytes, same_bytes_iff, ℤ, pos,
  ltb,
}
use mathlib.Core.List.{append_assoc}
use gae.Datastore.Float.{GeoPoint, valid}
use gae.Datastore.Property.{
  Value, set_value, Checked, check_valid, index_value_of, index_type_and_value, property_type_of,
  rank, time_to_int, int_to_time,
}
use gae.Datastore.KeyTok.{KeyTok}
use gae.Datastore.Key.{Key, KeyContext, toks, new_key_toks}
use gae.Datastore.KeyProperty.{Property}
use gae.Serialize.Cmpbin.{Cmpbin}
use gae.Serialize.Reader.{ok, ◌>>=◌, read_byte}
use gae.Serialize.Write.{
  string_type, int_type, write_id, write_key_tok, write_toks, write_context, write_key,
  write_geo_point, write_index_value, write_property_impl, write_property, type_byte,
}
use gae.Serialize.Read.{
  read_id, read_key_tok, read_toks, read_context, read_key, read_geo_point, read_time, read_value,
  read_property, max_toks, not_positive, no_context,
}

no_field : (s : Bytes) → s ≢ [] → same_bytes s [] ≡ false
no_field s n = ground (arith, same_bytes_iff s [])

same_nil : same_bytes [] [] ≡ true
same_nil = (same_bytes_iff [] []).1 refl

-- A token with a string ID and no integer, or with a positive integer and no string.
abbrev pub IsReadable : KeyTok → Type 0
IsReadable t =
    ((t.string_id ≢ []) × (t.int_id ≡ pos 0))
    ⊎ ((t.string_id ≡ []) × (not_positive t.int_id ≡ false))

module _ (c : Cmpbin) where
  id-back :
      (t : KeyTok) (rest : Bytes)
      → IsReadable t
      → (read_byte >>= read_id c t.kind) (write_id c t ++ rest) ≡ ok t rest
  unfolding write_id
  id-back t rest (inl (n, z)) =
      rw (no_field t.string_id n, c.string_back t.string_id rest)
        (ap (λ i. ok (record t { int_id = i }) rest) (sym z))
  id-back t rest (inr (n, z)) = no_string t.string_id n
    where
      no_string :
          (s : Bytes)
          → s ≡ []
          → (read_byte >>= read_id c t.kind) (
              (if not (same_bytes s [])
                then string_type ∷ c.write_string s
                else int_type ∷ c.write_int t.int_id)
              ++ rest)
            ≡ ok (record t { string_id = s }) rest
      no_string [] e = rw (same_nil, c.int_back t.int_id rest, z) refl
      no_string (x ∷ xs) e = absurd (cc)

  key_tok-back :
      (t : KeyTok) (rest : Bytes)
      → IsReadable t
      → read_key_tok c (write_key_tok c t ++ rest) ≡ ok t rest
  unfolding read_key_tok write_key_tok
  key_tok-back t rest h =
      rw
        (
          append_assoc (c.write_string t.kind) (write_id c t) rest,
          c.string_back t.kind (write_id c t ++ rest),
        )
        (id-back t rest h)

  toks-back :
      (left : ℕ) (ts : List KeyTok) (rest : Bytes)
      → All IsReadable ts
      → length ts ≤ left
      → read_toks c left (write_toks c ts ++ rest) ≡ ok ts rest
  unfolding read_toks write_toks
  toks-back zero [] rest h l = refl
  toks-back (suc left) [] rest h l = refl
  toks-back zero (t ∷ ts) rest h l = absurd (omega (arith, l))
  toks-back (suc left) (t ∷ ts) rest (h, hs) l =
      rw
        (
          append_assoc (write_key_tok c t) (write_toks c ts) rest,
          key_tok-back t (write_toks c ts ++ rest) h,
          toks-back left ts rest hs (omega (arith, l)),
        )
        refl

  context-back :
      (context : Bool) (kc : KeyContext) (rest : Bytes)
      → (read_byte >>= read_context c) (write_context c context kc ++ rest)
        ≡ ok (if context then kc else no_context c) rest
  unfolding write_context
  context-back true kc rest =
      rw
        (
          append_assoc (c.write_string kc.app_id) (c.write_string kc.namespace) rest,
          c.string_back kc.app_id (c.write_string kc.namespace ++ rest),
          c.string_back kc.namespace rest,
        )
        refl
  context-back false kc rest = refl

  -- The context of the key that is read.
  abbrev pub read_with : Bool → KeyContext → Key → Key
  read_with context in_kc k = record k { kc = if context then k.kc else in_kc }

  abbrev pub IsReadableKey : Key → Type 0
  IsReadableKey k = All IsReadable (toks k) × (length (toks k) ≤ max_toks)

  pub key-back :
      (context : Bool) (in_kc : KeyContext) (k : Key) (rest : Bytes)
      → IsReadableKey k
      → read_key c context in_kc (write_key c context k ++ rest)
        ≡ ok (some (read_with context in_kc k)) rest
  unfolding read_key write_key write_context new_key_toks
  key-back true in_kc k rest (h, l) =
      rw
        (
          append_assoc (c.write_string k.kc.app_id ++ c.write_string k.kc.namespace)
              (write_toks c (toks k)) rest,
          append_assoc (c.write_string k.kc.app_id) (c.write_string k.kc.namespace)
              (write_toks c (toks k) ++ rest),
          c.string_back k.kc.app_id
              (c.write_string k.kc.namespace ++ (write_toks c (toks k) ++ rest)),
          c.string_back k.kc.namespace (write_toks c (toks k) ++ rest),
          toks-back max_toks (toks k) rest h l,
        )
        refl
  key-back false in_kc k rest (h, l) = rw (toks-back max_toks (toks k) rest h l) refl

  geo_point-back :
      (g : GeoPoint) (rest : Bytes)
      → valid g ≡ true
      → read_geo_point c (write_geo_point c g ++ rest) ≡ ok g rest
  unfolding read_geo_point write_geo_point
  geo_point-back g rest h =
      rw
        (
          append_assoc (c.write_float64 g.lat) (c.write_float64 g.lng) rest,
          c.float64_back g.lat (c.write_float64 g.lng ++ rest),
          c.float64_back g.lng rest,
          h,
        )
        refl

  -- A value as it is read back: a key has the context of `read_with`.
  abbrev pub value_with : Bool → KeyContext → Value Key → Value Key
  value_with context in_kc (Value.key k) = Value.key (read_with context in_kc k)
  value_with context in_kc v = v

  -- The Unix epoch is written as the zero time is.
  abbrev pub IsReadableValue : Value Key → Type 0
  IsReadableValue (Value.time t) = t ≢ pos 0
  IsReadableValue (Value.key k) = IsReadableKey k
  IsReadableValue _ = Unit

  valid_point :
      (g : GeoPoint)
      → check_valid {K = Key} (Value.geo_point g) ≡ Checked.ok (Value.geo_point g)
      → valid g ≡ true
  unfolding check_valid
  valid_point g h = ground (arith, h)

  stored_time : (t : ℤ) → t ≢ pos 0 → int_to_time (time_to_int t) ≡ t
  unfolding int_to_time time_to_int
  stored_time t h = ground arith

  value-back :
      (context : Bool) (in_kc : KeyContext) (v : Value Key) (rest : Bytes)
      → IsReadableValue v
      → check_valid v ≡ Checked.ok v
      → read_value c context in_kc
          (rank (property_type_of v))
          (write_index_value c context (index_value_of v) ++ rest)
        ≡ ok (value_with context in_kc v) rest
  unfolding read_value write_index_value index_value_of property_type_of read_time
  value-back context in_kc Value.null rest h k = refl
  value-back context in_kc (Value.int n) rest h k = rw (c.int_back n rest) refl
  value-back context in_kc (Value.time t) rest h k =
      rw (c.int_back (time_to_int t) rest, stored_time t h) refl
  value-back context in_kc (Value.bool true) rest h k = refl
  value-back context in_kc (Value.bool false) rest h k = refl
  value-back context in_kc (Value.bytes s) rest h k = rw (c.string_back s rest) refl
  value-back context in_kc (Value.string s) rest h k = rw (c.string_back s rest) refl
  value-back context in_kc (Value.float f) rest h k = rw (c.float64_back f rest) refl
  value-back context in_kc (Value.geo_point g) rest h k =
      rw (geo_point-back g rest (valid_point g k)) refl
  value-back context in_kc (Value.key o) rest h k = rw (key-back context in_kc o rest h) refl
  value-back context in_kc (Value.blob_key s) rest h k = rw (c.string_back s rest) refl

  valid_with :
      (context : Bool) (in_kc : KeyContext) (v : Value Key)
      → check_valid v ≡ Checked.ok v
      → check_valid (value_with context in_kc v) ≡ Checked.ok (value_with context in_kc v)
  unfolding check_valid
  valid_with context in_kc (Value.key k) h = refl
  valid_with context in_kc (Value.time t) h = h
  valid_with context in_kc (Value.geo_point g) h = h
  valid_with context in_kc _ h = refl

  rank_small : (v : Value Key) → rank (property_type_of v) < 128
  unfolding property_type_of
  rank_small v = ground arith

  type_back :
      (r : ℕ) (is : Bool)
      → r < 128
      → (type_byte c r is % 128 ≡ r) × (ltb (type_byte c r is) 128 ≡ is)
  type_back r true h = (omega arith, ground arith)
  type_back r false h = (omega arith, ground arith)

  abbrev pub property_with : Bool → KeyContext → Property → Property
  property_with context in_kc p = record p { value = value_with context in_kc p.value }

  -- Of a property: what SetValue accepts, no Unix epoch, and no key that ReadKey refuses.
  abbrev pub IsReadableProperty : Property → Type 0
  IsReadableProperty p = IsReadableValue p.value × (check_valid p.value ≡ Checked.ok p.value)

  -- A property that is written is read back, whatever follows it; a key that was written without its
  -- context takes the one given.
  pub read_property-write_property :
      (context : Bool) (in_kc : KeyContext) (p : Property) (rest : Bytes)
      → IsReadableProperty p
      → read_property c context in_kc (write_property c context p ++ rest)
        ≡ ok (property_with context in_kc p) rest
  unfolding read_property write_property write_property_impl index_type_and_value set_value
  read_property-write_property context in_kc p rest (h, v) =
      let r = rank (property_type_of p.value) in
      let (low, high) = type_back r p.no_index (rank_small p.value) in
      rw (low, high, value-back context in_kc p.value rest h v, valid_with context in_kc p.value v)
        refl
