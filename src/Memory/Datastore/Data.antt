-- ===== src/Memory/Datastore/Data.antt =====
-- impl/memory/datastore_data.go: dataStoreData, as far as the collections of entities go; the collections of
-- the indexes are not modelled. An entity is held as the bytes that serialize.ToBytesWithContext makes of it.
pub mod Versions
use gae.Prelude.{
  ℕ, zero, suc, ◌+◌, ◌-◌, ◌^◌, ◌%◌, not, ◌&&◌, Bool, true, false, Option, none, some, List, [], ◌∷◌,
  ltb, leb, Bytes, codes, same_bytes, if◌then◌else◌, ℤ, pos, negsuc, ◌+ℤ◌, lookup, insert, delete,
  map,
}
use gae.Datastore.Property.{Value, PropertyOf}
use gae.Datastore.Key.{Key, KeyContext, kind, parent, new_key, root, is_incomplete}
use gae.Datastore.KeyProperty.{Property}
use gae.Datastore.PropertyMap.{PropertyMap, single, slice, save}
use gae.Serialize.Cmpbin.{Cmpbin}
use gae.Serialize.Reader
use gae.Serialize.Write.{write_property, write_property_map}
use gae.Serialize.Read.{read_property_map}

abbrev pub Collection : Type 0
Collection = List (Bytes × Bytes)

-- The collections of entities by their namespaces, in place of the prefix "ents:".
abbrev pub Store : Type 0
Store = List (Bytes × Collection)

abbrev or_empty : Option Collection → Collection
or_empty none = []
or_empty (some m) = m

unfoldable pub collection : Bytes → Store → Collection
collection ns s = or_empty (lookup ns s)

pub record DataStoreData : Type 0 where
  pub head : Store
  -- none where queries are always consistent
  pub snap : Option Store
  pub txn_fake_retry : ℤ
  pub auto_index : Bool
  pub disable_special_entities : Bool
  pub show_special_props : Bool

unfoldable pub new_data_store_data : DataStoreData
new_data_store_data = record {
  head = [];
  snap = some [];
  txn_fake_retry = pos 0;
  auto_index = false;
  disable_special_entities = false;
  show_special_props = false;
}

unfoldable pub set_consistent : Bool → DataStoreData → DataStoreData
set_consistent always d = record d { snap = if always then none else some d.head }

unfoldable pub set_txn_retry : ℤ → DataStoreData → DataStoreData
set_txn_retry count d = record d { txn_fake_retry = count }

unfoldable pub set_auto_index : Bool → DataStoreData → DataStoreData
set_auto_index enable d = record d { auto_index = enable }

unfoldable pub set_disable_special_entities : Bool → DataStoreData → DataStoreData
set_disable_special_entities disabled d = record d { disable_special_entities = disabled }

unfoldable pub set_show_special_properties : Bool → DataStoreData → DataStoreData
set_show_special_properties show d = record d { show_special_props = show }

-- The stores of a query: of the indexes, and of the entities.
abbrev snaps : Bool → Store → Option Store → Store × Store
snaps consistent head none = (head, head)
snaps consistent head (some snap) = (if consistent then head else snap, head)

unfoldable pub get_query_snaps : Bool → DataStoreData → Store × Store
get_query_snaps consistent d = snaps consistent d.head d.snap

abbrev replaced : Store → Option Store → Option Store
replaced s none = none
replaced s (some old) = some s

unfoldable pub set_snapshot : Store → DataStoreData → DataStoreData
set_snapshot s d = record d { snap = replaced s d.snap }

unfoldable pub catchup_indexes : DataStoreData → DataStoreData
catchup_indexes d = set_snapshot d.head d

abbrev pub word : ℕ
word = 2 ^ 64

-- An int64 that wraps.
unfoldable pub int64 : ℤ → ℤ
int64 (pos n) = let m = n % word in if ltb m (2 ^ 63) then pos m else negsuc (word - 1 - m)
int64 (negsuc n) = let m = n % word in if ltb m (2 ^ 63) then negsuc m else pos (word - 1 - m)

abbrev pub no_context : KeyContext
no_context = record { app_id = []; namespace = [] }

abbrev pub version_name : Bytes
version_name = codes "__version__"

-- The entity that holds a version.
abbrev pub version_map : ℤ → PropertyMap
version_map v = (version_name, single (record { value = Value.int v; no_index = true })) ∷ []

-- None is memory corruption, a panic.
abbrev pub version_of : List Property → Option ℤ
version_of [] = none
version_of (p ∷ ps) = elim p.value [ Value.int n ↦ some n | _ ↦ none ]

abbrev pub version_in_map : Option PropertyMap → Option ℤ
version_in_map none = none
version_in_map (some pm) = version_of (slice version_name pm)

-- None is an error.
abbrev pub read_or_none : Reader.Read PropertyMap → Option PropertyMap
read_or_none (Reader.ok pm rest) = some pm
read_or_none (Reader.err e) = none

abbrev pub was_read : Option PropertyMap → Bool
was_read none = false
was_read (some pm) = true

module _ (c : Cmpbin) where
  -- `serialize.ToBytes` and `serialize.ToBytesWithContext` of an entity.
  abbrev pub to_bytes : PropertyMap → Bytes
  to_bytes pm = write_property_map c false false pm

  abbrev pub to_bytes_with_context : PropertyMap → Bytes
  to_bytes_with_context pm = write_property_map c false true pm

  unfoldable pub read_prop_map : Bytes → Option PropertyMap
  read_prop_map b = read_or_none (read_property_map c true no_context b)

  abbrev pub version_in : Option Bytes → Option ℤ
  version_in none = some (pos 0)
  version_in (some b) = version_in_map (read_prop_map b)

  unfoldable pub cur_version : Collection → Bytes → Option ℤ
  cur_version ents key = version_in (lookup key ents)

  abbrev pub bump : Collection → Bytes → ℕ → Option ℤ → Option (ℤ × Collection)
  bump ents key amt none = none
  bump ents key amt (some v) =
      let ret = int64 (v +ℤ pos 1) in
      some (ret, insert key (to_bytes (version_map (int64 (ret +ℤ pos (amt - 1))))) ents)

  -- An amount of 0 panics.
  unfoldable pub increment_locked : Collection → Bytes → ℕ → Option (ℤ × Collection)
  increment_locked ents key amt =
      if leb amt 0 then none else bump ents key amt (cur_version ents key)

  -- There is no old entity, or it is read without an error.
  abbrev pub can_replace : Option Bytes → Bool
  can_replace none = true
  can_replace (some b) = was_read (read_prop_map b)

infixl 5 ◌>>=◌
abbrev pub ◌>>=◌ : {A B : Type 0} → Option A → (A → Option B) → Option B
none >>= f = none
some a >>= f = f a

unfoldable pub strip_special_props : PropertyMap → PropertyMap
strip_special_props pm = delete (codes "__scatter__") pm

abbrev at_least_half : Bytes → Bool
at_least_half [] = false
at_least_half (b ∷ bs) = leb 128 b

-- `sha256` is the hash; its first two bytes are at least 32768 where its first byte is at least 128.
unfoldable pub ensure_special_props : (Bytes → Bytes) → Bytes → PropertyMap → PropertyMap
ensure_special_props sha256 key_blob pm =
    let h = sha256 key_blob in
    if at_least_half h
    then insert (codes "__scatter__") (single (record { value = Value.bytes h; no_index = false }))
        pm
    else delete (codes "__scatter__") pm

-- What the callback of a get is told: that there is no such entity, another error, or the entity.
pub data Fetched : Type 0 where
  absent unreadable : Fetched
  present : PropertyMap → Fetched

-- What the callback of a put is told: the key, or the key and an error.
pub data Put : Type 0 where
  put : Key → Put
  not_put : Key → Put

abbrev pub set_collection : Bytes → Collection → DataStoreData → DataStoreData
set_collection ns ents d = record d { head = insert ns ents d.head }

abbrev pub go_on :
    Bool → Put × Collection → Option (List Put × Collection) → Option (List Put × Collection)
go_on true r more = some (r.0 ∷ [], r.1)
go_on false r more = more >>= λ s. some (r.0 ∷ s.0, s.1)

module _ (c : Cmpbin) (sha256 : Bytes → Bytes) where
  unfoldable pub key_bytes : Key → Bytes
  key_bytes k = write_property c false (record { value = Value.key k; no_index = false })

  unfoldable pub group_meta_key : Key → Bytes
  group_meta_key k =
      key_bytes (new_key no_context (codes "__entity_group__") [] (pos 1) (some (root k)))

  unfoldable pub group_ids_key : Key → Bytes
  group_ids_key k =
      key_bytes (new_key no_context (codes "__entity_group_ids__") [] (pos 1) (some (root k)))

  unfoldable pub root_ids_key : Bytes → Bytes
  root_ids_key kind = key_bytes (new_key no_context (codes "__entity_root_ids__") kind (pos 0) none)

  abbrev has_parent : Option Key → Bool
  has_parent none = false
  has_parent (some k) = true

  -- The first ID, or none where the special entities are disabled; the outer none is a panic.
  unfoldable pub allocate_ids_locked : Bool → Collection → Key → ℕ → Option (Option ℤ × Collection)
  allocate_ids_locked disabled ents k n =
      if disabled
      then some (none, ents)
      else (increment_locked c ents
            (if not (has_parent (parent k)) then root_ids_key (kind k) else group_ids_key k) n
          >>= λ r. some (some r.0, r.1))

  abbrev with_new_id : Key → Option ℤ × Collection → Put × Collection
  with_new_id k (none, ents) = (not_put k, ents)
  with_new_id k (some id, ents) = (put (new_key k.kc (kind k) [] id (parent k)), ents)

  unfoldable pub fix_key_locked : Bool → Collection → Key → Option (Put × Collection)
  fix_key_locked disabled ents k =
      if is_incomplete k
      then (allocate_ids_locked disabled ents k 1 >>= λ r. some (with_new_id k r))
      else some (put k, ents)

  -- The version of the group of a key goes up, unless the special entities are disabled.
  unfoldable pub touch_group : Bool → Key → Collection → Option Collection
  touch_group disabled k ents =
      if not disabled
      then (increment_locked c ents (group_meta_key k) 1 >>= λ r. some r.1)
      else some ents

  -- The entity is stored unless there is an old one that cannot be read.
  abbrev pub replace_entity : Key → PropertyMap → Collection → Put × Collection
  replace_entity k pm ents =
      let key_blob = key_bytes k in
      if can_replace c (lookup key_blob ents)
      then (
        put k,
        insert key_blob (to_bytes_with_context c (ensure_special_props sha256 key_blob pm)) ents,
      )
      else (not_put k, ents)

  abbrev pub put_fixed : Bool → PropertyMap → Put × Collection → Option (Put × Collection)
  put_fixed disabled pm (not_put k, ents) = some (not_put k, ents)
  put_fixed disabled pm (put k, ents) =
      touch_group disabled k ents >>= λ ents'. some (replace_entity k pm ents')

  -- An entity is put in the collection of the namespace.
  unfoldable pub put_one : Bool → Key → PropertyMap → Collection → Option (Put × Collection)
  put_one disabled k pm ents = fix_key_locked disabled ents k >>= put_fixed disabled (save false pm)

  abbrev pub delete_entity : Key → Collection → Bool × Collection
  delete_entity k ents =
      if can_replace c (lookup (key_bytes k) ents)
      then (true, delete (key_bytes k) ents)
      else (false, ents)

  -- False is the error for an entity that cannot be read.
  unfoldable pub delete_one : Bool → Key → Collection → Option (Bool × Collection)
  delete_one disabled k ents = touch_group disabled k ents >>= λ ents'. some (delete_entity k ents')

  -- The callback tells whether to stop.
  unfoldable pub put_loop :
      (Put → Bool) → Bool → List (Key × PropertyMap) → Collection → Option (List Put × Collection)
  put_loop stop disabled [] ents = some ([], ents)
  put_loop stop disabled ((k, pm) ∷ rest) ents =
      put_one disabled k pm ents >>= λ r. go_on (stop r.0) r (put_loop stop disabled rest r.1)

  -- The namespace of the first key is that of all.
  unfoldable pub put_multi :
      (Put → Bool) → List (Key × PropertyMap) → DataStoreData → Option (List Put × DataStoreData)
  put_multi stop [] d = none
  put_multi stop ((k, pm) ∷ rest) d =
      put_loop stop d.disable_special_entities ((k, pm) ∷ rest) (collection k.kc.namespace d.head)
      >>= λ r. some (r.0, set_collection k.kc.namespace r.1 d)

  abbrev pub deleted_before : Bool → List Bool × Collection → Option (List Bool × Collection)
  deleted_before ok s = some (ok ∷ s.0, s.1)

  -- What the callback is told of each key; it never stops.
  unfoldable pub delete_loop : Bool → List Key → Collection → Option (List Bool × Collection)
  delete_loop disabled [] ents = some ([], ents)
  delete_loop disabled (k ∷ ks) ents =
      delete_one disabled k ents >>= λ r. delete_loop disabled ks r.1 >>= deleted_before r.0

  unfoldable pub del_multi : List Key → DataStoreData → Option (List Bool × DataStoreData)
  del_multi [] d = none
  del_multi (k ∷ ks) d =
      delete_loop d.disable_special_entities (k ∷ ks) (collection k.kc.namespace d.head) >>= λ r.
      some (r.0, set_collection k.kc.namespace r.1 d)

  abbrev pub read_or_not : Option PropertyMap → Fetched
  read_or_not none = unreadable
  read_or_not (some pm) = present pm

  abbrev pub fetched : Option Bytes → Fetched
  fetched none = absent
  fetched (some b) = read_or_not (read_prop_map c b)

  abbrev pub shown : Bool → Fetched → Fetched
  shown show (present pm) = present (if show then pm else strip_special_props pm)
  shown show absent = absent
  shown show unreadable = unreadable

  unfoldable pub get_multi_inner : Bool → List Key → Collection → List Fetched
  get_multi_inner show [] ents = []
  get_multi_inner show (k ∷ ks) ents =
      shown show (fetched (lookup (key_bytes k) ents)) ∷ get_multi_inner show ks ents

  unfoldable pub get_multi : List Key → DataStoreData → Option (List Fetched)
  get_multi [] d = none
  get_multi (k ∷ ks) d =
      some (get_multi_inner d.show_special_props (k ∷ ks) (collection k.kc.namespace d.head))
