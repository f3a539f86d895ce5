-- ===== src/Datastore/PropertyMap/Metadata.antt =====
-- Metadata and data do not meet.
use gae.Prelude.{
  ◌≡◌, refl, arith, true, false, none, some, [], ◌∷◌, if◌then◌else◌, Bytes, lookup, insert,
  lookup-insert, same_bytes, same_bytes_iff,
}
use gae.Datastore.Property.{Input, ok, set_value}
use gae.Datastore.KeyProperty.{Property}
use gae.Datastore.Key.{Key}
use gae.Datastore.PropertyMap.{
  PropertyMap, PropertyData, single, multiple, clone, slice_of_data, is_meta_key, meta_name, save,
  get_all_meta, slice, get_meta, set_meta, estimate_size,
}

clone_same : (d : PropertyData) → clone d ≡ d
unfolding clone slice_of_data
clone_same (single p) = refl
clone_same (multiple s) = refl

save-lookup :
    (k : Bytes) (pm : PropertyMap)
    → lookup k (save false pm) ≡ (if is_meta_key k then none else lookup k pm)
unfolding save lookup
save-lookup k [] = ground arith
save-lookup k ((j, v) ∷ pm) = ground (arith, save-lookup k pm, clone_same v, same_bytes_iff j k)

all_meta-lookup :
    (k : Bytes) (pm : PropertyMap)
    → lookup k (get_all_meta pm) ≡ (if is_meta_key k then lookup k pm else none)
unfolding get_all_meta lookup
all_meta-lookup k [] = ground arith
all_meta-lookup k ((j, v) ∷ pm) =
    ground (arith, all_meta-lookup k pm, clone_same v, same_bytes_iff j k)

save-size : (pm : PropertyMap) → estimate_size (save false pm) ≡ estimate_size pm
unfolding save estimate_size
save-size [] = refl
save-size ((j, v) ∷ pm) = ground (arith, save-size pm, clone_same v)

-- `Save` without metadata and `GetAllMeta` part a map by its names: each name is found in one of the
-- two, with the data that the map has, and `EstimateSize` counts those of the first alone.
pub save-get_all_meta :
    (pm : PropertyMap) (k : Bytes)
    → (lookup k (save false pm) ≡ (if is_meta_key k then none else lookup k pm))
      × (lookup k (get_all_meta pm) ≡ (if is_meta_key k then lookup k pm else none))
      × (estimate_size (save false pm) ≡ estimate_size pm)
save-get_all_meta pm k = (save-lookup k pm, all_meta-lookup k pm, save-size pm)

save-insert_meta :
    (k : Bytes) (d : PropertyData) (pm : PropertyMap)
    → is_meta_key k ≡ true
    → save false (insert k d pm) ≡ save false pm
unfolding save insert
save-insert_meta k d [] h = ground (arith, h)
save-insert_meta k d ((j, v) ∷ pm) h =
    ground (arith, h, save-insert_meta k d pm h, same_bytes_iff j k)

-- After `SetMeta` with a value that is accepted, `GetMeta` answers that value for the key, and what it
-- answered before for any other key, and `Save` without metadata saves what it saved before.
pub set_meta-get_meta :
    (key name : Bytes) (i : Input Key) (p : Property) (pm : PropertyMap)
    → set_value i true ≡ ok p
    → ((set_meta key i pm).0 ≡ true)
      × (get_meta name (set_meta key i pm).1
          ≡ (if same_bytes key name then some p.value else get_meta name pm))
      × (save false (set_meta key i pm).1 ≡ save false pm)
unfolding set_meta get_meta slice slice_of_data is_meta_key
set_meta-get_meta key name i p pm a = rw a (
  refl,
  ground
      (arith, lookup-insert (meta_name key) (meta_name name) (single p) pm, same_dollar key name),
  save-insert_meta (meta_name key) (single p) pm refl,
)
  where
    same_dollar : (a b : Bytes) → same_bytes (meta_name a) (meta_name b) ≡ same_bytes a b
    same_dollar a b = ground (arith, same_bytes_iff (meta_name a) (meta_name b), same_bytes_iff a b)
