-- ===== src/Filters/TxnBuf/Mapping.antt =====
-- A datastore as a map from keys to entities: what a transaction expects of the datastore below it,
-- and what it promises itself.
use gae.Prelude.{◌≡◌, ◌≢◌, false, Option, List, [], ◌∷◌, map, All, any, Bytes, if◌then◌else◌}
use gae.Datastore.Key.{Key, KeyContext, equal}
use gae.Datastore.PropertyMap.{PropertyMap}
use gae.Serialize.Cmpbin.{Cmpbin}
use gae.Filters.TxnBuf.Interface.{
  Got, got, no_such_entity, Told, Error, panic, raise, ok, RawInterface,
}
use gae.Filters.TxnBuf.Methods.{is_error}
use gae.Filters.TxnBuf.Commit.{put_errors}
use gae.Filters.TxnBuf.Keys.{IsKey}
use gae.Filters.TxnBuf.Calls.{IsRow}

-- What a key shows after puts, the last of which counts.
unfoldable pub after_puts : {F : Type 0} → List (Key × PropertyMap) → Key → Got F → Got F
after_puts [] j g = g
after_puts ((k, pm) ∷ kvs) j g = after_puts kvs j (if equal k j then got pm else g)

unfoldable pub after_deletes : {F : Type 0} → List Key → Key → Got F → Got F
after_deletes [] j g = g
after_deletes (k ∷ ks) j g = after_deletes ks j (if equal k j then no_such_entity else g)

module _ (c : Cmpbin) (sha256 : Bytes → Bytes) (kc : KeyContext) where
  -- In the states of `Inv` the datastore shows `read`: a GetMulti answers it and changes nothing that is
  -- shown, also when it fails, and a PutMulti or a DeleteMulti without an error changes what its keys show.
  pub record IsMap {F : Type 0} (D : RawInterface F) (Inv : D.State → Type 0)
      (read : D.State → Key → Got F) : Type 0 where
    pub get_reads :
        (ks : List Key) (s : D.State) (gs : List (Got F)) (s' : D.State)
        → Inv s
        → All (IsKey c sha256 kc) ks
        → D.get_multi ks s ≡ ok gs s'
        → (gs ≡ map (read s) ks) × Inv s' × ((j : Key) → read s' j ≡ read s j)
    -- No call panics.
    pub get_returns :
        (ks : List Key) (s : D.State)
        → Inv s
        → All (IsKey c sha256 kc) ks
        → D.get_multi ks s ≢ panic
    pub put_returns :
        (kvs : List (Key × PropertyMap)) (s : D.State)
        → Inv s
        → All (IsRow c sha256 kc) kvs
        → D.put_multi kvs s ≢ panic
    pub delete_returns :
        (ks : List Key) (s : D.State)
        → Inv s
        → All (IsKey c sha256 kc) ks
        → D.delete_multi ks s ≢ panic
    pub get_fails :
        (ks : List Key) (s : D.State) (e : Error F) (s' : D.State)
        → Inv s
        → All (IsKey c sha256 kc) ks
        → D.get_multi ks s ≡ raise e s'
        → Inv s' × ((j : Key) → read s' j ≡ read s j)
    pub put_writes :
        (kvs : List (Key × PropertyMap)) (s : D.State) (ts : List (Told F)) (s' : D.State)
        → Inv s
        → All (IsRow c sha256 kc) kvs
        → D.put_multi kvs s ≡ ok ts s'
        → Inv s'
          × (any is_error (put_errors ts) ≡ false
              → (j : Key) → IsKey c sha256 kc j
              → read s' j ≡ after_puts kvs j (read s j))
    pub put_fails :
        (kvs : List (Key × PropertyMap)) (s : D.State) (e : Error F) (s' : D.State)
        → Inv s
        → All (IsRow c sha256 kc) kvs
        → D.put_multi kvs s ≡ raise e s'
        → Inv s'
    pub delete_removes :
        (ks : List Key) (s : D.State) (es : List (Option F)) (s' : D.State)
        → Inv s
        → All (IsKey c sha256 kc) ks
        → D.delete_multi ks s ≡ ok es s'
        → Inv s'
          × (any is_error es ≡ false
              → (j : Key) → IsKey c sha256 kc j
              → read s' j ≡ after_deletes ks j (read s j))
    pub delete_fails :
        (ks : List Key) (s : D.State) (e : Error F) (s' : D.State)
        → Inv s
        → All (IsKey c sha256 kc) ks
        → D.delete_multi ks s ≡ raise e s'
        → Inv s'
