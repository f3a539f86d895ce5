-- ===== src/Filters/TxnBuf/State.antt =====
-- filter/txnBuf/state.go: txnBufState, its methods over any datastore below it, and the nesting of
-- transactions. The locks are not modelled: the parent is locked while a child runs.
use gae.Prelude.{
  ℕ, zero, suc, ◌+◌, Bool, true, false, not, Option, none, some, List, [], ◌∷◌, ◌++◌, length, any,
  ltb, leb, Bytes, same_bytes, if◌then◌else◌, ℤ, pos, ◌+ℤ◌, negate,
}
use gae.Datastore.Key.{Key}
use gae.Datastore.PropertyMap.{PropertyMap}
use gae.Memory.Datastore.Data.{
  DataStoreData, new_data_store_data, set_consistent, set_auto_index, set_disable_special_entities,
  int64,
}
use gae.Filters.TxnBuf.SizeTracker.{SizeTracker, no_sizes, num_writes}
use gae.Filters.TxnBuf.Interface.{Got, got, no_such_entity, failed}

-- (10 * 1000 * 1000) * 0.95
abbrev pub default_size_budget : ℕ
default_size_budget = 9_500_000

abbrev pub default_write_count_budget : ℕ
default_write_count_budget = 500

abbrev pub xg_transaction_group_limit : ℕ
xg_transaction_group_limit = 25

-- A stringset.Set is a list in which no string stands twice.
unfoldable pub has : Bytes → List Bytes → Bool
has r rs = any (same_bytes r) rs

unfoldable pub add : Bytes → List Bytes → List Bytes
add r rs = if has r rs then rs else r ∷ rs

pub record TxnBufState : Type 0 where
  pub ent_state : SizeTracker
  pub buf_ds : DataStoreData
  pub roots : List Bytes
  pub root_limit : ℕ
  pub size_budget : ℤ
  pub write_count_budget : ℤ

-- `memory.NewDatastore`
unfoldable pub new_datastore : DataStoreData
new_datastore =
    set_disable_special_entities true
      (set_consistent true (set_auto_index true new_data_store_data))

unfoldable pub root_state : Bool → TxnBufState
root_state xg = record {
  ent_state = no_sizes;
  buf_ds = new_datastore;
  roots = [];
  root_limit = if xg then xg_transaction_group_limit else 1;
  size_budget = pos default_size_budget;
  write_count_budget = pos default_write_count_budget;
}

-- What `opts` say of a child is not respected.
unfoldable pub child_state : TxnBufState → TxnBufState
child_state p = record {
  ent_state = no_sizes;
  buf_ds = new_datastore;
  roots = p.roots;
  root_limit = p.root_limit;
  size_budget = int64 (p.size_budget +ℤ negate p.ent_state.total);
  write_count_budget = int64 (p.write_count_budget +ℤ negate (pos (num_writes p.ent_state)));
}

-- The loop over the given roots, which ends early where there are too many.
unfoldable pub propose : List Bytes → ℕ → List Bytes → List Bytes → List Bytes
propose cur limit proposed [] = proposed
propose cur limit proposed (r ∷ rs) =
    let proposed' = if not (has r cur) then add r proposed else proposed in
    let rest = propose cur limit proposed' rs in
    if leb (length proposed' + length cur) limit then rest else proposed'

unfoldable pub update_roots : List Bytes → TxnBufState → Option TxnBufState
update_roots roots t =
    let proposed = propose t.roots t.root_limit [] roots in
    if ltb t.root_limit (length proposed + length t.roots)
    then none
    else some (record t { roots = proposed ++ t.roots })

-- `item`, with the size that is tracked for its key; an item that has one is buffered.
pub record Item (F : Type 0) : Type 0 where
  pub key : Key
  pub size : Option ℕ
  pub data_of : Option PropertyMap
  pub err : Option F

abbrev pub is_positive : ℕ → Bool
is_positive zero = false
is_positive (suc n) = true

module _ {F : Type 0} where
  abbrev pub is_live : Item F → Bool
  is_live i = elim i.size [ none ↦ false | some n ↦ is_positive n ]

  abbrev pub is_unbuffered : Item F → Bool
  is_unbuffered i = elim i.size [ none ↦ true | some n ↦ false ]

  -- The keys of the items that are picked, in the place of `idxMap` and the keys beside it.
  unfoldable pub picked : (Item F → Bool) → List (Item F) → List Key
  picked p [] = []
  picked p (i ∷ is) = let rest = picked p is in if p i then i.key ∷ rest else rest

  -- The results of the keys that were picked go to their items.
  unfoldable pub assign :
      {R : Type 0}
      → (Item F → Bool)
      → (R → Item F → Item F)
      → List (Item F)
      → List R
      → List (Item F)
  assign p f [] rs = []
  assign p f (i ∷ is) [] = i ∷ is
  assign p f (i ∷ is) (r ∷ rs) =
      if p i then f r i ∷ assign p f is rs else i ∷ assign p f is (r ∷ rs)

  abbrev pub with_entity : PropertyMap → Item F → Item F
  with_entity pm i = record i { data_of = some pm }

  abbrev pub with_got : Got F → Item F → Item F
  with_got (got pm) i = record i { data_of = some pm }
  with_got no_such_entity i = i
  with_got (failed e) i = record i { err = some e }

  abbrev pub entity_or_none : Option PropertyMap → Got F
  entity_or_none none = no_such_entity
  entity_or_none (some pm) = got pm

  unfoldable pub answer : Item F → Got F
  answer i = elim i.err [ some e ↦ failed e | none ↦ entity_or_none i.data_of ]
