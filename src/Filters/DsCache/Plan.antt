-- ===== src/Filters/DsCache/Plan.antt =====
-- filter/dscache/plan.go: the plan of a GetMulti; ds.go: its GetMulti, from the items that memcache.Get
-- has filled to the items for the compare-and-swap.
pub mod Served
use gae.Prelude.{
  ℕ, zero, suc, ◌+◌, ◌*◌, Bool, true, false, Option, none, some, List, [], ◌∷◌, ltb, ◌==◌, length,
  if◌then◌else◌, ℤ, pos, Bytes, same_bytes,
}
use gae.Datastore.Key.{Key, KeyContext}
use gae.Datastore.PropertyMap.{PropertyMap}
use gae.Serialize.Cmpbin.{Cmpbin}
use gae.Memory.Memcache.{Item}
use gae.Filters.TxnBuf.Interface.{Got, got, no_such_entity, failed}
use gae.Filters.DsCache.{
  Zlib, Decoded, found, missing, broken, item_has_data, item_has_lock, encode_item_value,
  decode_item_value,
}

-- What is planned for one key: a fetch, with the item to save if there is one; or an answer.
pub data Choice : Type 0 where
  fetch : Option Item → Choice
  decoded : PropertyMap → Choice
  no_entity : Choice

pub record Plan : Type 0 where
  pub idx_map : List ℕ
  pub to_get : List Key
  pub to_save : List (Option Item)
  -- by the index of the key; none is a fetch
  pub decoded : List (Option (Option PropertyMap))

abbrev pub Row : Type 0
Row = Key × Option Item

-- (1000 * 1000) - InternalGAEPadding - MaxShardsLen
abbrev pub value_size_limit : ℕ
value_size_limit = 999_902

abbrev pub choice_of : Decoded → Choice
choice_of (found pm) = decoded pm
choice_of missing = no_entity
choice_of broken = fetch none

-- `p.add`, and the two assignments in its place.
abbrev pub add : ℕ → Key → Choice → Plan → Plan
add idx k (fetch save) p = record {
  idx_map = idx ∷ p.idx_map;
  to_get = k ∷ p.to_get;
  to_save = save ∷ p.to_save;
  decoded = none ∷ p.decoded;
}
add idx k (decoded pm) p = record p { decoded = some (some pm) ∷ p.decoded }
add idx k no_entity p = record p { decoded = some none ∷ p.decoded }

-- The value at an index.
unfoldable pub set_at : {A : Type 0} → ℕ → A → List A → List A
set_at i a [] = []
set_at zero a (x ∷ xs) = a ∷ xs
set_at (suc i) a (x ∷ xs) = x ∷ set_at i a xs

module _ {F : Type 0} where
  abbrev pub answer_of : Option (Option PropertyMap) → Option (Got F)
  answer_of none = none
  answer_of (some none) = some no_such_entity
  answer_of (some (some pm)) = some (got pm)

  -- The results of the fetch go to the indices of their keys.
  unfoldable pub fill : List ℕ → List (Got F) → List (Option (Got F)) → List (Option (Got F))
  fill (i ∷ is) (r ∷ rs) answers = fill is rs (set_at i (some r) answers)
  fill _ _ answers = answers

module _ (c : Cmpbin) (z : Zlib) (kc : KeyContext) where
  unfoldable pub choose : Bytes → Option Item → Choice
  choose nonce none = fetch none
  choose nonce (some item) =
      if item.flags == item_has_lock
      then (if same_bytes nonce item.value then fetch (some item) else fetch none)
      else if item.flags == item_has_data
      then choice_of (decode_item_value c z kc item.value)
      else fetch none

  -- The loop of `makeFetchPlan` from an index on.
  unfoldable pub plan_from : Bytes → ℕ → List Row → Plan
  plan_from nonce idx [] = record { idx_map = []; to_get = []; to_save = []; decoded = [] }
  plan_from nonce idx ((k, item) ∷ rows) =
      add idx k (choose nonce item) (plan_from nonce (idx + 1) rows)

  unfoldable pub make_fetch_plan : Bytes → List Row → Plan
  make_fetch_plan nonce rows = plan_from nonce 0 rows

  -- An entity that is too big locks its item for ever.
  abbrev pub saved : Item → ℤ → Bytes → Item
  saved item expiration bytes =
      if ltb value_size_limit (length bytes)
      then record item { flags = item_has_lock; expiration = pos 0; value = [] }
      else record item { flags = item_has_data; expiration = expiration; value = bytes }

  module _ {F : Type 0} where
    abbrev pub to_cas_one : Option Item → ℤ → Got F → List Item → List Item
    to_cas_one none expiration g rest = rest
    to_cas_one (some item) expiration (got pm) rest =
        saved item expiration (encode_item_value c z pm) ∷ rest
    to_cas_one (some item) expiration no_such_entity rest = saved item expiration [] ∷ rest
    to_cas_one (some item) expiration (failed e) rest = rest

    -- With the expirations that the metadata of the keys give.
    unfoldable pub to_cas : List (Option Item) → List ℤ → List (Got F) → List Item
    to_cas (item ∷ items) (e ∷ es) (g ∷ gs) = to_cas_one item e g (to_cas items es gs)
    to_cas _ _ _ = []
