-- ===== src/Datastore/PropertyMap.antt =====
-- service/datastore/properties.go: the properties of an entity by name, with the metadata under the
-- names that start with a dollar sign.
pub mod Metadata
use gae.Prelude.{
  ℕ, ◌+◌, Bool, true, false, not, ◌&&◌, ◌||◌, Option, none, some, List, [], ◌∷◌, length, ◌==◌,
  if◌then◌else◌, Bytes, lookup, insert,
}
use gae.Datastore.Property.{
  Value, PropertyOf, Input, Checked, ok, err, set_value, property_type_of, rank,
}
use gae.Datastore.KeyProperty
use gae.Datastore.KeyProperty.{Property}
use gae.Datastore.Key.{Key}

-- A property, or a slice of them.
pub data PropertyData : Type 0 where
  single : Property → PropertyData
  multiple : List Property → PropertyData

abbrev pub PropertyMap : Type 0
PropertyMap = List (Bytes × PropertyData)

unfoldable pub slice_of_data : PropertyData → List Property
slice_of_data (single p) = p ∷ []
slice_of_data (multiple s) = s

unfoldable pub clone : PropertyData → PropertyData
clone (single p) = single p
clone (multiple s) = multiple (slice_of_data (multiple s))

abbrev sum_sizes : List Property → ℕ
sum_sizes [] = 0
sum_sizes (p ∷ ps) = KeyProperty.estimate_size p + sum_sizes ps

unfoldable pub size_of_data : PropertyData → ℕ
size_of_data (single p) = KeyProperty.estimate_size p
size_of_data (multiple s) = sum_sizes s

unfoldable pub is_meta_key : Bytes → Bool
is_meta_key [] = true
is_meta_key (c ∷ r) = c == b'$'

abbrev pub meta_name : Bytes → Bytes
meta_name key = b'$' ∷ key

unfoldable pub load : PropertyMap → PropertyMap → PropertyMap
load [] pm = pm
load ((k, v) ∷ props) pm = load props (insert k (clone v) pm)

unfoldable pub save : Bool → PropertyMap → PropertyMap
save with_meta [] = []
save with_meta ((k, v) ∷ pm) =
    let rest = save with_meta pm in
    if with_meta || not (is_meta_key k) then (k, clone v) ∷ rest else rest

unfoldable pub get_all_meta : PropertyMap → PropertyMap
get_all_meta [] = []
get_all_meta ((k, v) ∷ pm) =
    let rest = get_all_meta pm in if is_meta_key k then (k, clone v) ∷ rest else rest

abbrev data_slice : Option PropertyData → List Property
data_slice none = []
data_slice (some d) = slice_of_data d

unfoldable pub slice : Bytes → PropertyMap → List Property
slice key pm = data_slice (lookup key pm)

abbrev first_value : List Property → Option (Value Key)
first_value [] = none
first_value (p ∷ ps) = some p.value

unfoldable pub get_meta : Bytes → PropertyMap → Option (Value Key)
get_meta key pm = first_value (slice (meta_name key) pm)

abbrev put_meta : Bytes → Checked Property → PropertyMap → Bool × PropertyMap
put_meta key (err e) pm = (false, pm)
put_meta key (ok p) pm = (true, insert (meta_name key) (single p) pm)

unfoldable pub set_meta : Bytes → Input Key → PropertyMap → Bool × PropertyMap
set_meta key val pm = put_meta key (set_value val true) pm

unfoldable pub estimate_size : PropertyMap → ℕ
estimate_size [] = 0
estimate_size ((k, vals) ∷ pm) =
    let rest = estimate_size pm in
    if not (is_meta_key k) then length k + size_of_data vals + rest else rest

-- The types of two values of the valid Go types.
abbrev pub same_type : Value Key → Value Key → Bool
same_type a b = rank (property_type_of a) == rank (property_type_of b)

abbrev is_nil : Value Key → Bool
is_nil Value.null = true
is_nil _ = false

abbrev or_default : Value Key → Option (Value Key) → Value Key
or_default dflt none = dflt
or_default dflt (some cur) = if not (is_nil dflt) && not (same_type cur dflt) then dflt else cur

unfoldable pub get_meta_default : Bytes → Value Key → PropertyMap → Value Key
get_meta_default key dflt pm = or_default dflt (get_meta key pm)
