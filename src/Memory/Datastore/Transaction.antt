-- ===== src/Memory/Datastore/Transaction.antt =====
-- impl/memory/datastore_data.go: txnDataStoreData, and the commit of a transaction.
pub mod Writes
pub mod Conflict
use gae.Prelude.{
  ℕ, ◌+◌, not, Bool, true, false, Option, none, some, List, [], ◌∷◌, ◌++◌, length, ltb, Bytes,
  if◌then◌else◌, ℤ, eqb_ℤ, lookup, insert,
}
use gae.Datastore.Key.{Key, root, is_incomplete}
use gae.Datastore.PropertyMap.{PropertyMap}
use gae.Serialize.Cmpbin.{Cmpbin}
use gae.Memory.Datastore.Data.{
  Store, DataStoreData, Fetched, Put, put, not_put, collection, cur_version, group_meta_key,
  key_bytes, fix_key_locked, set_collection, put_multi, del_multi, get_multi_inner, ◌>>=◌,
}

-- No data is a deletion.
pub record Mutation : Type 0 where
  pub key : Key
  pub value : Option PropertyMap

pub record TxnDataStoreData : Type 0 where
  pub closed : Bool
  pub is_xg : Bool
  pub snap : Store
  -- by the bytes of the group's root
  pub muts : List (Bytes × List Mutation)

unfoldable pub make_txn : Bool → DataStoreData → TxnDataStoreData
make_txn xg d = record { closed = false; is_xg = xg; snap = d.head; muts = [] }

-- None is a panic.
unfoldable pub end_txn : TxnDataStoreData → Option TxnDataStoreData
end_txn t = if t.closed then none else some (record t { closed = true })

abbrev pub xg_eg_limit : ℕ
xg_eg_limit = 25

abbrev pub group_limit : TxnDataStoreData → ℕ
group_limit t = if t.is_xg then xg_eg_limit else 1

abbrev with_mutation : Bool → Mutation → List Mutation → List Mutation
with_mutation get_only m ms = if not get_only then ms ++ m ∷ [] else ms

abbrev write_found :
    Bool → Bytes → Mutation → Option (List Mutation) → TxnDataStoreData → Bool × TxnDataStoreData
write_found get_only rk m (some ms) t =
    (true, record t { muts = insert rk (with_mutation get_only m ms) t.muts })
write_found get_only rk m none t =
    if ltb (group_limit t) (length t.muts + 1)
    then (false, t)
    else (true, record t { muts = insert rk (with_mutation get_only m []) t.muts })

pub data Commit : Type 0 where
  committed : DataStoreData → Commit
  collision : Commit

abbrev pub is_refused : Put → Bool
is_refused (put k) = false
is_refused (not_put k) = true

module _ (c : Cmpbin) (sha256 : Bytes → Bytes) where
  -- False is the error for too many entity groups.
  unfoldable pub write_mutation : Bool → Mutation → TxnDataStoreData → Bool × TxnDataStoreData
  write_mutation get_only m t =
      let rk = key_bytes c sha256 (root m.key) in write_found get_only rk m (lookup rk t.muts) t

  -- `fixKey`, which takes an ID from the datastore itself; the outer none is a panic.
  unfoldable pub fix_key : Key → DataStoreData → Option (Put × DataStoreData)
  fix_key k d =
      if is_incomplete k
      then (fix_key_locked c sha256 d.disable_special_entities (collection k.kc.namespace d.head) k
          >>= λ r. some (r.0, set_collection k.kc.namespace r.1 d))
      else some (put k, d)

  abbrev write_put : PropertyMap → Put → TxnDataStoreData → Put × TxnDataStoreData
  write_put pm (not_put k) t = (not_put k, t)
  write_put pm (put k) t =
      let (ok, t') = write_mutation false (record { key = k; value = some pm }) t in
      (if ok then put k else not_put k, t')

  abbrev pub State : Type 0
  State = DataStoreData × TxnDataStoreData

  unfoldable pub put_multi_txn : List (Key × PropertyMap) → State → Option (List Put × State)
  put_multi_txn [] s = some ([], s)
  put_multi_txn ((k, pm) ∷ rest) (d, t) = fix_key k d >>= λ r.
      let w = write_put pm r.0 t in put_multi_txn rest (r.1, w.1) >>= λ s. some (w.0 ∷ s.0, s.1)

  -- Whether each mutation was taken.
  unfoldable pub del_multi_txn : List Key → TxnDataStoreData → List Bool × TxnDataStoreData
  del_multi_txn [] t = ([], t)
  del_multi_txn (k ∷ ks) t =
      let (ok, t') = write_mutation false (record { key = k; value = none }) t in
      let (oks, t'') = del_multi_txn ks t' in (ok ∷ oks, t'')

  -- The first error ends it.
  unfoldable pub touch_all : List Key → TxnDataStoreData → Bool × TxnDataStoreData
  touch_all [] t = (true, t)
  touch_all (k ∷ ks) t =
      let (ok, t') = write_mutation true (record { key = k; value = none }) t in
      let more = touch_all ks t' in if ok then more else (false, t')

  abbrev get_touched :
      Bool → Key → List Key → Bool × TxnDataStoreData → Option (List Fetched) × TxnDataStoreData
  get_touched show k ks (false, t) = (none, t)
  get_touched show k ks (true, t) =
      (some (get_multi_inner c sha256 show (k ∷ ks) (collection k.kc.namespace t.snap)), t)

  -- From the snapshot: what the transaction puts itself is not seen. No keys are a panic, here an error.
  unfoldable pub get_multi_txn :
      Bool → List Key → TxnDataStoreData → Option (List Fetched) × TxnDataStoreData
  get_multi_txn show [] t = (none, t)
  get_multi_txn show (k ∷ ks) t = get_touched show k ks (touch_all (k ∷ ks) t)

  -- Whether the version of the group is that of the snapshot; none is memory corruption.
  unfoldable pub same_version : Key → Store → Store → Option Bool
  same_version k head snap =
      cur_version c (collection (root k).kc.namespace head) (group_meta_key c sha256 (root k))
      >>= λ v_head.
          cur_version c (collection (root k).kc.namespace snap) (group_meta_key c sha256 (root k))
          >>= λ v_snap. some (eqb_ℤ v_head v_snap)

  abbrev pub and_also : Bool → Option Bool → Option Bool
  and_also false more = some false
  and_also true more = more

  -- The check for collisions, of the groups that are written.
  unfoldable pub no_collision : List (Bytes × List Mutation) → Store → Store → Option Bool
  no_collision [] head snap = some true
  no_collision ((rk, []) ∷ muts) head snap = no_collision muts head snap
  no_collision ((rk, m ∷ ms) ∷ muts) head snap =
      same_version m.key head snap >>= λ same. and_also same (no_collision muts head snap)

  abbrev unless_refused : List Put × DataStoreData → Option DataStoreData
  unless_refused (not_put k ∷ ps, d) = none
  unless_refused (_, d) = some d

  abbrev pub unless_unreadable : List Bool × DataStoreData → Option DataStoreData
  unless_unreadable (false ∷ oks, d) = none
  unless_unreadable (_, d) = some d

  -- An error is impossible, a panic.
  abbrev pub apply_value : Key → Option PropertyMap → DataStoreData → Option DataStoreData
  apply_value k none d = del_multi c sha256 (k ∷ []) d >>= unless_unreadable
  apply_value k (some pm) d = put_multi c sha256 is_refused ((k, pm) ∷ []) d >>= unless_refused

  unfoldable pub apply_one : Mutation → DataStoreData → Option DataStoreData
  apply_one m d = apply_value m.key m.value d

  unfoldable pub apply_all : List Mutation → DataStoreData → Option DataStoreData
  apply_all [] d = some d
  apply_all (m ∷ ms) d = apply_one m d >>= apply_all ms

  unfoldable pub apply_muts : List (Bytes × List Mutation) → DataStoreData → Option DataStoreData
  apply_muts [] d = some d
  apply_muts ((rk, ms) ∷ muts) d = apply_all ms d >>= apply_muts muts

  abbrev after_check : List (Bytes × List Mutation) → DataStoreData → Bool → Option Commit
  after_check muts d false = some collision
  after_check muts d true = apply_muts muts d >>= λ d'. some (committed d')

  unfoldable pub commit : TxnDataStoreData → DataStoreData → Option Commit
  commit t d = no_collision t.muts d.head t.snap >>= after_check t.muts d
