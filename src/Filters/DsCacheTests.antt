-- ===== src/Filters/DsCacheTests.antt =====
-- The theorems on the datastore cache at concrete inputs, with numbers in unary for the library cmpbin,
-- and nothing compressed.
use gae.Prelude.{
  false, ℕ, ◌≡◌, ◌⊎◌, ◌↔◌, true, refl, Option, none, some, List, [], ◌∷◌, map, All, arith, codes,
  pos, ℤ, Bytes,
}
use gae.Datastore.Property.{Value, check_valid}
use gae.Datastore.Key.{Key, KeyContext}
use gae.Datastore.PropertyMap.{PropertyMap, single, save, is_meta_key, clone}
use gae.Serialize.Cmpbin.Unary.{unary}
use gae.Serialize.Read.Maps.{set_rows}
use gae.Memory.Memcache.{Item}
use gae.Filters.TxnBuf.Interface.{Got, got, no_such_entity}
use gae.Filters.DsCache.{Zlib, encode_item_value, decode_item_value, found, reset, add, has_key}
use gae.Filters.DsCache.Encoding.{decode_item_value-encode_item_value}
use gae.Filters.DsCache.Locks.{IsLocking, IsShardOf, add-Locks}
use gae.Filters.DsCache.Plan.{Row, answer_of, fill, make_fetch_plan, to_cas}
use gae.Filters.DsCache.Plan.Served.{expected, Saves, make_fetch_plan-serves, make_fetch_plan-Saves}

abbrev plain : Zlib
plain = record { compress = λ b. b; decompress = some; back = λ b. refl }

abbrev context : KeyContext
context = record { app_id = codes "a"; namespace = codes "n" }

abbrev entity_key : Key
entity_key = record {
  kc = context;
  first = record { kind = codes "T"; int_id = pos 1; string_id = [] };
  others = [];
}

abbrev entity : PropertyMap
entity = (codes "a", single (record { value = Value.int (pos 7); no_index = false })) ∷ []

decode_item_value-encode_item_value_example :
    decode_item_value unary plain context (encode_item_value unary plain entity)
    ≡ found (set_rows unary false context (save false (save false entity)) [])
unfolding save is_meta_key clone check_valid
decode_item_value-encode_item_value_example =
    decode_item_value-encode_item_value unary plain context entity ((tt, refl), tt) (omega arith)

-- A key that no item is for, and one whose item is locked by this call.
abbrev item : Item
item = record {
  key = codes "gae:1:0:k";
  value = codes "nonce";
  flags = 2;
  expiration = pos 31;
  cas_id = 4;
}

abbrev rows : List Row
rows = (entity_key, none) ∷ (entity_key, some item) ∷ []

abbrev in_datastore : Key → Got ℕ
in_datastore k = got entity

make_fetch_plan-serves_example :
    let p = make_fetch_plan unary plain context (codes "nonce") rows in
    fill p.idx_map (map in_datastore p.to_get) (map answer_of p.decoded)
    ≡ map (expected unary plain context in_datastore) rows
make_fetch_plan-serves_example =
    make_fetch_plan-serves unary plain context in_datastore (codes "nonce") rows

make_fetch_plan-Saves_example : All (Saves unary plain context (codes "nonce") rows) (
    to_cas unary plain context
      (make_fetch_plan unary plain context (codes "nonce") rows).to_save
      (pos 86400 ∷ pos 86400 ∷ [])
      (in_datastore entity_key ∷ no_such_entity ∷ []))
make_fetch_plan-Saves_example =
    make_fetch_plan-Saves unary plain context (codes "nonce") rows (pos 86400 ∷ pos 86400 ∷ [])
      (in_datastore entity_key ∷ no_such_entity ∷ [])

abbrev hash : Key → Bytes
hash k = codes "k"

abbrev hex : ℕ → Bytes
hex n = n ∷ []

abbrev two_shards : List (Key → Option ℤ)
two_shards = (λ k. some (pos 2)) ∷ []

reset-IsLocking : IsLocking hash hex two_shards (reset hash hex two_shards)
unfolding reset
reset-IsLocking = record { once = tt; same_keys = λ p. refl; same_count = refl }

add-Locks_example :
    IsLocking hash hex two_shards
      (add hash hex two_shards (entity_key ∷ []) (reset hash hex two_shards))
    × ((p : Bytes)
        → (has_key hash hex two_shards p
              (add hash hex two_shards (entity_key ∷ []) (reset hash hex two_shards)).to_lock
            ≡ true)
          ↔ (IsShardOf hash hex two_shards p (entity_key ∷ [])
              ⊎ (has_key hash hex two_shards p (reset hash hex two_shards).to_lock ≡ true)))
add-Locks_example =
    add-Locks hash hex two_shards (entity_key ∷ []) (reset hash hex two_shards) reset-IsLocking
