-- ===== src/Filters/DsCache.antt =====
-- filter/dscache: the filter that caches entities in memcache, as far as the items of memcache and what is
-- done with them go: dscache.go, serialize.go, support.go and plan.go.
pub mod Encoding
pub mod Locks
pub mod Plan
use gae.Prelude.{
  ◌≡◌, ℕ, zero, suc, ◌+◌, ◌/◌, ◌%◌, Bool, true, false, not, Option, none, some, List, [], ◌∷◌, ◌++◌,
  ltb, ◌==◌, length, if◌then◌else◌, ℤ, pos, ltb_ℤ, pos_part, Bytes, codes, same_bytes,
}
use gae.Datastore.Key.{Key, KeyContext, is_incomplete}
use gae.Datastore.PropertyMap.{PropertyMap, save}
use gae.Serialize.Cmpbin.{Cmpbin}
use gae.Serialize.Reader
use gae.Serialize.Write.{write_property_map}
use gae.Serialize.Read.{read_property_map}
use gae.Memory.Memcache.{Item}

-- compress/zlib: what is compressed is read back.
pub record Zlib : Type 0 where
  pub compress : Bytes → Bytes
  pub decompress : Bytes → Option Bytes
  pub back : (b : Bytes) → decompress (compress b) ≡ some b

abbrev pub no_compression : ℕ
no_compression = 0

abbrev pub zlib_compression : ℕ
zlib_compression = 1

abbrev pub compression_threshold : ℕ
compression_threshold = 860

abbrev pub max_shards : ℕ
max_shards = 256

abbrev pub default_shards : ℤ
default_shards = pos 1

abbrev pub item_has_data : ℕ
item_has_data = 1

abbrev pub item_has_lock : ℕ
item_has_lock = 2

abbrev pub apply_shards : List (Key → Option ℤ) → Key → ℤ → ℤ
apply_shards [] k ret = ret
apply_shards (fn ∷ fns) k ret = apply_shards fns k (elim (fn k) [ none ↦ ret | some amt ↦ amt ])

-- The last function that knows the key counts.
unfoldable pub num_shards : List (Key → Option ℤ) → Key → ℕ
num_shards fns k =
    let ret = apply_shards fns k default_shards in
    if ltb_ℤ ret (pos 1) then 0 else if ltb_ℤ (pos max_shards) ret then max_shards else pos_part ret

-- `hash` is HashKey, and `hex` prints a number for `%x`.
module _ (hash : Key → Bytes) (hex : ℕ → Bytes) (fns : List (Key → Option ℤ)) where
  unfoldable pub make_memcache_key : ℕ → Key → Bytes
  make_memcache_key shard k = codes "gae:1:" ++ hex shard ++ codes ":" ++ hash k

  -- The keys of the shards from `shard` on.
  abbrev pub shard_keys : ℕ → ℕ → Key → List Bytes
  shard_keys shard zero k = []
  shard_keys shard (suc n) k = make_memcache_key shard k ∷ shard_keys (shard + 1) n k

  unfoldable pub mk_all_keys : List Key → List Bytes
  mk_all_keys [] = []
  mk_all_keys (k ∷ ks) =
      let rest = mk_all_keys ks in
      if not (is_incomplete k) then shard_keys 0 (num_shards fns k) k ++ rest else rest

  -- The state of a transaction: the keys of its lock items, and the set of keys to delete.
  pub record DsTxnState : Type 0 where
    pub to_lock : List Bytes
    pub to_delete : List Bytes

  unfoldable pub reset : DsTxnState
  reset = record { to_lock = []; to_delete = [] }

  abbrev pub has_key : Bytes → List Bytes → Bool
  has_key k [] = false
  has_key k (j ∷ js) = if same_bytes k j then true else has_key k js

  unfoldable pub add_keys : List Bytes → DsTxnState → DsTxnState
  add_keys [] s = s
  add_keys (k ∷ ks) s = add_keys ks (
      if not (has_key k s.to_delete)
      then record { to_lock = s.to_lock ++ k ∷ []; to_delete = k ∷ s.to_delete }
      else s)

  unfoldable pub add : List Key → DsTxnState → DsTxnState
  add keys s = add_keys (mk_all_keys keys) s

-- ErrNoSuchEntity is `missing`; any other error is `broken`.
pub data Decoded : Type 0 where
  found : PropertyMap → Decoded
  missing broken : Decoded

abbrev pub decoded : Reader.Read PropertyMap → Decoded
decoded (Reader.ok pm rest) = found pm
decoded (Reader.err e) = broken

module _ (c : Cmpbin) (z : Zlib) where
  unfoldable pub encode_item_value : PropertyMap → Bytes
  encode_item_value pm =
      let bytes = write_property_map c false false (save false pm) in
      if ltb compression_threshold (1 + length bytes)
      then zlib_compression ∷ z.compress bytes
      else no_compression ∷ bytes

  abbrev decode_data : KeyContext → Option Bytes → Decoded
  decode_data kc none = broken
  decode_data kc (some bytes) = decoded (read_property_map c false kc bytes)

  unfoldable pub decode_item_value : KeyContext → Bytes → Decoded
  decode_item_value kc [] = missing
  decode_item_value kc (b ∷ buf) =
      decode_data kc (if b == zlib_compression then z.decompress buf else some buf)
