-- ===== src/Filters/TxnBuf/Methods.antt =====
-- filter/txnBuf/state.go: the methods of txnBufState. The state of a method is that of the
-- transaction beside that of the datastore below, which for a nested transaction is the parent.
use gae.Prelude.{
  Bool, true, false, not, Option, none, some, List, [], ◌∷◌, map, any, Bytes, if◌then◌else◌,
}
use gae.Datastore.Key.{Key, root, is_incomplete}
use gae.Datastore.PropertyMap.{PropertyMap, estimate_size}
use gae.Serialize.Cmpbin.{Cmpbin}
use gae.Serialize.Write.{write_key}
use gae.Memory.Datastore.Data.{
  DataStoreData, Collection, Fetched, absent, unreadable, present, Put, put, not_put,
  strip_special_props, collection,
}
use gae.Memory.Datastore.Data
use gae.Filters.TxnBuf.SizeTracker
use gae.Filters.TxnBuf.SizeTracker.{SizeTracker, num_writes, dup}
use gae.Filters.TxnBuf.Interface.{
  Got, Told, told, refused, too_many_roots, multi, Outcome, panic, raise, ok, Method, ◌>>=◌,
  RawInterface,
}
use gae.Filters.TxnBuf.State.{
  TxnBufState, Item, update_roots, add, is_live, is_unbuffered, picked, assign, with_entity,
  with_got, answer,
}

-- What is done with the keys that need new IDs.
pub data Fixed (F : Type 0) : Type 0 where
  fixed : List Key → Fixed F
  not_fixed : List (Option F) → Fixed F

module _ {F : Type 0} where
  -- The results of AllocateIDs in the places of the incomplete keys; a nil key with no error is met by
  -- a method call later, a panic.
  unfoldable pub fill_ids : List Key → List (Told F) → Option (List Key × List (Option F))
  fill_ids [] ts = some ([], [])
  fill_ids (k ∷ ks) [] = elim (fill_ids ks []) [
    | none ↦ none
    | some (ks', es) ↦ some (k ∷ ks', none ∷ es)
  ]
  fill_ids (k ∷ ks) (t ∷ ts) = elim (is_incomplete k) [
    | false ↦ elim (fill_ids ks (t ∷ ts)) [
      | none ↦ none
      | some (ks', es) ↦ some (k ∷ ks', none ∷ es)
    ]
    | true ↦ elim t [
      | told k' ↦ elim (fill_ids ks ts) [
        | none ↦ none
        | some (ks', es) ↦ some (k' ∷ ks', none ∷ es)
      ]
      | refused none ↦ none
      | refused (some e) ↦ elim (fill_ids ks ts) [
        | none ↦ none
        | some (ks', es) ↦ some (k ∷ ks', some e ∷ es)
      ]
    ]
  ]

  abbrev pub is_error : Option F → Bool
  is_error none = false
  is_error (some e) = true

  -- `outerErr.Get()`
  abbrev pub fixed_or_not : List Key × List (Option F) → Fixed F
  fixed_or_not (ks, es) = if any is_error es then not_fixed es else fixed ks

unfoldable pub incompletes : List Key → List Key
incompletes [] = []
incompletes (k ∷ ks) = let rest = incompletes ks in if is_incomplete k then k ∷ rest else rest

unfoldable pub with_keys : List Key → List (Key × PropertyMap) → List (Key × PropertyMap)
with_keys [] kvs = []
with_keys (k ∷ ks) [] = []
with_keys (k ∷ ks) ((j, pm) ∷ kvs) = (k, pm) ∷ with_keys ks kvs

abbrev pub key_of : Key × PropertyMap → Key
key_of (k, pm) = k

abbrev pub first_put : List Put → Bool
first_put [] = false
first_put (put k ∷ ps) = first_put ps
first_put (not_put k ∷ ps) = true

abbrev pub all_entities : List Fetched → Option (List PropertyMap)
all_entities [] = some []
all_entities (absent ∷ os) = none
all_entities (unreadable ∷ os) = none
all_entities (present pm ∷ os) = elim (all_entities os) [ none ↦ none | some pms ↦ some (pm ∷ pms) ]

module _ (c : Cmpbin) (sha256 : Bytes → Bytes) where
  -- `serialize.ToBytes` of a key
  abbrev pub encode : Key → Bytes
  encode k = write_key c false k

  unfoldable pub roots_of : List Key → List Bytes
  roots_of [] = []
  roots_of (k ∷ ks) = add (encode (root k)) (roots_of ks)

  -- The calls of the buffer, whose errors are impossible, a panic; without keys they are not made.
  unfoldable pub buf_get : List Key → DataStoreData → Option (List PropertyMap)
  buf_get [] d = some []
  buf_get (k ∷ ks) d = elim (Data.get_multi c sha256 (k ∷ ks) d) [
    | none ↦ none
    | some os ↦ all_entities os
  ]

  unfoldable pub buf_put : List (Key × PropertyMap) → DataStoreData → Option DataStoreData
  buf_put [] d = some d
  buf_put (kv ∷ kvs) d = elim (Data.put_multi c sha256 (λ p. false) (kv ∷ kvs) d) [
    | none ↦ none
    | some (ps, d') ↦ if first_put ps then none else some d'
  ]

  unfoldable pub buf_delete : List Key → DataStoreData → Option DataStoreData
  buf_delete [] d = some d
  buf_delete (k ∷ ks) d = elim (Data.del_multi c sha256 (k ∷ ks) d) [
    | none ↦ none
    | some (oks, d') ↦ if any not oks then none else some d'
  ]

  unfoldable pub set_puts : List (Key × PropertyMap) → SizeTracker → SizeTracker
  set_puts [] s = s
  set_puts ((k, pm) ∷ kvs) s = set_puts kvs (SizeTracker.set (encode k) (estimate_size pm) s)

  unfoldable pub set_deletes : List Key → SizeTracker → SizeTracker
  set_deletes [] s = s
  set_deletes (k ∷ ks) s = set_deletes ks (SizeTracker.set (encode k) 0 s)

  abbrev pub item_of : {F : Type 0} → TxnBufState → Key → Item F
  item_of t k = record {
    key = k;
    size = SizeTracker.get (encode k) t.ent_state;
    data_of = none;
    err = none;
  }

  module _ {F : Type 0} (D : RawInterface F) where
    abbrev pub States : Type 0
    States = TxnBufState × D.State

    abbrev pub lift : {A : Type 0} → TxnBufState → Outcome F D.State A → Outcome F States A
    lift t panic = panic
    lift t (raise e s) = raise e (t, s)
    lift t (ok a s) = ok a (t, s)

    -- The parent is asked for the items that are not buffered, if there are any.
    unfoldable pub ask_parent : List (Item F) → List Key → Method F D.State (List (Item F))
    ask_parent is [] s = ok is s
    ask_parent is (k ∷ ks) s =
        D.get_multi (k ∷ ks) s >>= λ gs. ok (assign is_unbuffered with_got is gs)

    unfoldable pub get_items :
        List (Item F) → TxnBufState → D.State → Outcome F States (List (Got F))
    get_items is t s = elim (buf_get (picked is_live is) t.buf_ds) [
      | none ↦ panic
      | some pms ↦
          let is' = assign is_live with_entity is pms in
          lift t (ask_parent is' (picked is_unbuffered is') s >>= λ is''. ok (map answer is''))
    ]

    unfoldable pub get_multi : List Key → Method F States (List (Got F))
    get_multi keys (t, s) = elim (update_roots (roots_of keys) t) [
      | none ↦ raise too_many_roots (t, s)
      | some t' ↦ get_items (map (item_of t') keys) t' s
    ]

    unfoldable pub delete_multi : List Key → Method F States (List (Option F))
    delete_multi keys (t, s) = elim (update_roots (roots_of keys) t) [
      | none ↦ raise too_many_roots (t, s)
      | some t' ↦ elim (buf_delete keys t'.buf_ds) [
        | none ↦ panic
        | some d ↦
            ok (map (λ k. none) keys)
              (record t' { buf_ds = d; ent_state = set_deletes keys t'.ent_state }, s)
      ]
    ]

    -- With the incomplete keys among them. An error of AllocateIDs that is no MultiError fails the type
    -- assertion in `putMulti`, a panic.
    unfoldable pub fix_incomplete : List Key → List Key → Method F D.State (Fixed F)
    fix_incomplete keys [] s = ok (fixed keys) s
    fix_incomplete keys (k ∷ ks) s = elim (D.allocate_ids (k ∷ ks) s) [
      | panic ↦ panic
      | raise (multi es) s' ↦ ok (not_fixed es) s'
      | raise e s' ↦ panic
      | ok ts s' ↦ elim (fill_ids keys ts) [ none ↦ panic | some r ↦ ok (fixed_or_not r) s' ]
    ]

    unfoldable pub fix_keys : List Key → Method F D.State (Fixed F)
    fix_keys keys s = fix_incomplete keys (incompletes keys) s

    unfoldable pub put_fixed : List (Key × PropertyMap) → Method F States (List (Told F))
    put_fixed kvs (t, s) = elim (update_roots (roots_of (map key_of kvs)) t) [
      | none ↦ raise too_many_roots (t, s)
      | some t' ↦ elim (buf_put kvs t'.buf_ds) [
        | none ↦ panic
        | some d ↦
            ok (map (λ kv. told (key_of kv)) kvs)
              (record t' { buf_ds = d; ent_state = set_puts kvs t'.ent_state }, s)
      ]
    ]

    unfoldable pub put_multi : List (Key × PropertyMap) → Method F States (List (Told F))
    put_multi kvs (t, s) = lift t (fix_keys (map key_of kvs) s) >>= λ r. elim r [
      | not_fixed es ↦ ok (map refused es)
      | fixed keys ↦ put_fixed (with_keys keys kvs)
    ]

    unfoldable pub allocate_ids : List Key → Method F States (List (Told F))
    allocate_ids keys (t, s) = lift t (D.allocate_ids keys s)

    -- The datastore that a nested transaction finds below it.
    abbrev pub txn_buf : RawInterface F
    txn_buf = record {
      State = States;
      get_multi = get_multi;
      put_multi = put_multi;
      delete_multi = delete_multi;
      allocate_ids = allocate_ids;
    }
