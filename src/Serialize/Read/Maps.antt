-- ===== src/Serialize/Read/Maps.antt =====
-- Property maps are read back.
use gae.Prelude.{
  ℕ, suc, ◌≤◌, ◌≡◌, ◌∙◌, refl, Bool, false, List, [], ◌∷◌, ◌++◌, length, map, All, arith, Bytes,
  pos, negsuc, ltb, insert,
}
use mathlib.Core.List.{append_assoc}
use gae.Datastore.Key.{KeyContext}
use gae.Datastore.KeyProperty.{Property}
use gae.Datastore.PropertyMap.{PropertyMap, PropertyData, single, multiple, save}
use gae.Serialize.Cmpbin.{Cmpbin}
use gae.Serialize.Reader.{ok}
use gae.Serialize.Write.{
  write_property, write_properties, write_property_data, write_row, write_rows, write_property_map,
}
use gae.Serialize.Read.{read_properties, read_rows, read_property_map, max_rows}
use gae.Serialize.Read.RoundTrip.{IsReadableProperty, property_with, read_property-write_property}

-- Data that the reader accepts: readable properties, not too many.
abbrev pub IsReadableData : Cmpbin → Bytes × PropertyData → Type 0
IsReadableData c (name, single p) = IsReadableProperty c p
IsReadableData c (name, multiple s) = All (IsReadableProperty c) s × (length s ≤ max_rows)

module _ (c : Cmpbin) (context : Bool) (in_kc : KeyContext) where
  abbrev pub data_with : PropertyData → PropertyData
  data_with (single p) = single (property_with c context in_kc p)
  data_with (multiple s) = multiple (map (property_with c context in_kc) s)

  -- The rows, set one after the other in a map.
  unfoldable pub set_rows : PropertyMap → PropertyMap → PropertyMap
  set_rows [] pm = pm
  set_rows ((name, d) ∷ rows) pm = set_rows rows (insert name (data_with d) pm)

  properties-back :
      (ps : List Property) (rest : Bytes)
      → All (IsReadableProperty c) ps
      → read_properties c context in_kc (length ps) (write_properties c context ps ++ rest)
        ≡ ok (map (property_with c context in_kc) ps) rest
  unfolding read_properties write_properties
  properties-back [] rest h = refl
  properties-back (p ∷ ps) rest (h, hs) =
      rw
        (
          append_assoc (write_property c context p) (write_properties c context ps) rest,
          read_property-write_property c context in_kc p (write_properties c context ps ++ rest) h,
          properties-back ps rest hs,
        )
        refl

  row-back :
      (name : Bytes) (d : PropertyData) (n : ℕ) (pm : PropertyMap) (rest : Bytes)
      → IsReadableData c (name, d)
      → read_rows c context in_kc (suc n) pm (write_row c context (name, d) ++ rest)
        ≡ read_rows c context in_kc n (insert name (data_with d) pm) rest
  unfolding read_rows write_row write_property_data
  row-back name (single p) n pm rest h =
      rw
        (
          append_assoc (c.write_string name) (c.write_int (negsuc 0) ++ write_property c context p)
              rest,
          append_assoc (c.write_int (negsuc 0)) (write_property c context p) rest,
          c.string_back name (c.write_int (negsuc 0) ++ (write_property c context p ++ rest)),
          c.int_back (negsuc 0) (write_property c context p ++ rest),
          read_property-write_property c context in_kc p rest h,
        )
        refl
  row-back name (multiple s) n pm rest (h, l) =
      rw
        (
          append_assoc (c.write_string name)
              (c.write_int (pos (length s)) ++ write_properties c context s) rest,
          append_assoc (c.write_int (pos (length s))) (write_properties c context s) rest,
          c.string_back name
              (c.write_int (pos (length s)) ++ (write_properties c context s ++ rest)),
          c.int_back (pos (length s)) (write_properties c context s ++ rest),
          small s l,
          properties-back s rest h,
        )
        refl
    where
      small : (s : List Property) → length s ≤ max_rows → ltb max_rows (length s) ≡ false
      small s l = ground (arith, l)

  rows-back :
      (rows pm : PropertyMap) (rest : Bytes)
      → All (IsReadableData c) rows
      → read_rows c context in_kc
          (length rows)
          pm
          (write_rows c (map (write_row c context) rows) ++ rest)
        ≡ ok (set_rows rows pm) rest
  unfolding write_rows set_rows
  rows-back [] pm rest h = unfold read_rows in refl
  rows-back ((name, d) ∷ rows) pm rest (h, hs) =
      rw
        (append_assoc (write_row c context (name, d))
          (write_rows c (map (write_row c context) rows)) rest)
        (row-back name d (length rows) pm (write_rows c (map (write_row c context) rows) ++ rest) h
          ∙ rows-back rows (insert name (data_with d) pm) rest hs)

  pub read_property_map-write_property_map :
      (pm : PropertyMap) (rest : Bytes)
      → All (IsReadableData c) (save false pm)
      → length (save false pm) ≤ max_rows
      → read_property_map c context in_kc (write_property_map c false context pm ++ rest)
        ≡ ok (set_rows (save false pm) []) rest
  unfolding read_property_map write_property_map
  read_property_map-write_property_map pm rest h l =
      let rows = save false pm in
      rw
        (
          append_assoc (c.write_uint (length rows)) (write_rows c (map (write_row c context) rows))
              rest,
          c.uint_back (length rows) (write_rows c (map (write_row c context) rows) ++ rest),
          few (length rows) l,
        )
        (rows-back rows [] rest h)
    where
      few : (n : ℕ) → n ≤ max_rows → ltb max_rows n ≡ false
      few n l = ground (arith, l)
