-- ===== src/Memory/DatastoreTests.antt =====
-- The theorem on the datastore's transactions at a concrete input.
use gae.Prelude.{none, some, [], ◌∷◌, false, pos, codes, Bytes, insert, delete, ◌+ℤ◌}
use gae.Datastore.KeyTok.{KeyTok}
use gae.Datastore.KeyTok
use gae.Datastore.KeyProperty.{Property}
use gae.Datastore.Property.{Value}
use gae.Datastore.Key.{Key}
use gae.Serialize.Cmpbin.Unary.{unary}
use gae.Memory.Datastore.Data.{
  Collection, DataStoreData, key_bytes, group_meta_key, version_map, to_bytes, int64,
  set_collection,
}
use gae.Memory.Datastore.Transaction.{Mutation, TxnDataStoreData, make_txn, write_mutation}

abbrev no_hash : Bytes → Bytes
no_hash b = []

abbrev start : DataStoreData
start = record {
  head = [];
  snap = some [];
  txn_fake_retry = pos 0;
  auto_index = false;
  disable_special_entities = false;
  show_special_props = false;
}

abbrev entity_key : Key
entity_key = record {
  kc = record { app_id = []; namespace = [] };
  first = record { kind = codes "T"; int_id = pos 1; string_id = [] };
  others = [];
}

abbrev removal : Mutation
removal = record { key = entity_key; value = none }

-- The transaction deletes the entity.
abbrev txn : TxnDataStoreData
txn = (write_mutation unary no_hash false removal (make_txn false start)).1

-- The datastore after another deletion of it.
abbrev after : DataStoreData
after =
    set_collection []
      (delete (key_bytes unary no_hash entity_key) (
        insert (group_meta_key unary no_hash entity_key)
          (to_bytes unary (version_map (int64 (int64 (pos 0 +ℤ pos 1) +ℤ pos 0)))) []))
      start

-- The key whose bytes are those of `group_meta_key`.
abbrev version_key : Key
version_key = record {
  kc = record { app_id = []; namespace = [] };
  first = record { kind = codes "T"; int_id = pos 1; string_id = [] };
  others = record { kind = codes "__entity_group__"; int_id = pos 1; string_id = [] } ∷ [];
}

abbrev property_of : Key → Property
property_of k = record { value = Value.key k; no_index = false }

-- The collection after the version of the group went up.
abbrev touched : Collection
touched =
    insert (group_meta_key unary no_hash entity_key)
      (to_bytes unary (version_map (int64 (int64 (pos 0 +ℤ pos 1) +ℤ pos 0)))) []
