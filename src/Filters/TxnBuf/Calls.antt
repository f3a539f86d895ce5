-- ===== src/Filters/TxnBuf/Calls.antt =====
-- The calls of the buffer by a transaction, whose keys are complete and whose buffer has no special entities.
use gae.Prelude.{
  Bool, not, any, Bool-cases, inl, inr, same_bytes, lookup, lookup-insert, lookup-delete, ◌≡◌, refl,
  ap, ◌∙◌, true, false, Option, none, some, List, [], ◌∷◌, map, All, Bytes, delete,
  lookup-insert_self, if◌then◌else◌,
}
use gae.Datastore.Key.{Key, KeyContext}
use gae.Datastore.PropertyMap.{PropertyMap}
use gae.Serialize.Cmpbin.{Cmpbin}
use gae.Memory.Datastore.Data.{
  DataStoreData, Collection, read_prop_map, was_read, can_replace, Put, put, collection,
  set_collection, key_bytes, put_one, put_loop, put_multi, fix_key_locked, touch_group, delete_one,
  delete_loop, del_multi, get_multi_inner, get_multi, ◌>>=◌,
}
use gae.Filters.TxnBuf.Methods.{buf_get, buf_put, buf_delete, all_entities, first_put, key_of}
use gae.Filters.TxnBuf.Keys.{IsKey}
use gae.Filters.TxnBuf.Buffer.{IsPlain, buf_put_one, entity_of}

-- The settings of the buffer.
pub record IsBuffer (d : DataStoreData) : Type 0 where
  pub disabled : d.disable_special_entities ≡ true
  pub hidden : d.show_special_props ≡ false

module _ (c : Cmpbin) (sha256 : Bytes → Bytes) (kc : KeyContext) where
  abbrev pub contents : DataStoreData → Collection
  contents d = collection kc.namespace d.head

  unfoldable pub put_each : List (Key × PropertyMap) → Collection → Collection
  put_each [] m = m
  put_each ((k, pm) ∷ kvs) m = put_each kvs (buf_put_one c sha256 kc k pm m)

  unfoldable pub delete_each : List Key → Collection → Collection
  delete_each [] m = m
  delete_each (k ∷ ks) m = delete_each ks (delete (key_bytes c sha256 k) m)

  -- Of a key and its entity: both are good.
  abbrev pub IsRow : Key × PropertyMap → Type 0
  IsRow (k, pm) = IsKey c sha256 kc k × IsPlain c sha256 kc pm

  -- Every entity can be read.
  abbrev pub Replaceable : Collection → Type 0
  Replaceable m = (b : Bytes) → can_replace c (lookup b m) ≡ true

  pub replace_either :
      (b : Bool) (e : Bytes) (o : Option Bytes) (x : PropertyMap)
      → read_prop_map c e ≡ some x
      → can_replace c o ≡ true
      → can_replace c (if b then some e else o) ≡ true
  replace_either true e o x is h = ap was_read is
  replace_either false e o x is h = h

  put-Replaceable :
      (k : Key) (pm : PropertyMap) (m : Collection)
      → IsPlain c sha256 kc pm
      → Replaceable m
      → Replaceable (buf_put_one c sha256 kc k pm m)
  put-Replaceable k pm m p r b =
      let (x, e, _) = p.got_back (key_bytes c sha256 k) in
      rw (lookup-insert (key_bytes c sha256 k) b (entity_of c sha256 kc k pm) m) (
        replace_either (same_bytes (key_bytes c sha256 k) b) (entity_of c sha256 kc k pm)
          (lookup b m) x e (r b))

  delete-Replaceable :
      (k : Key) (m : Collection) → Replaceable m → Replaceable (delete (key_bytes c sha256 k) m)
  delete-Replaceable k m r b =
      rw (lookup-delete (key_bytes c sha256 k) b m)
        (elim (Bool-cases (same_bytes (key_bytes c sha256 k) b)) [
          | inl s ↦ rw s refl
          | inr s ↦ rw s (r b)
        ])

  one-put :
      (k : Key) (pm : PropertyMap) (m : Collection)
      → IsKey c sha256 kc k
      → Replaceable m
      → put_one c sha256 true k pm m ≡ some (put k, buf_put_one c sha256 kc k pm m)
  unfolding put_one fix_key_locked touch_group
  one-put k pm m h r = rw (h.complete, r (key_bytes c sha256 k)) refl

  loop-puts :
      (kvs : List (Key × PropertyMap)) (m : Collection)
      → All IsRow kvs
      → Replaceable m
      → put_loop c sha256 (λ p. false) true kvs m
        ≡ some (map (λ kv. put (key_of kv)) kvs, put_each kvs m)
  unfolding put_loop put_each
  loop-puts [] m h r = refl
  loop-puts ((k, pm) ∷ kvs) m (h, hs) r =
      rw
        (
          one-put k pm m h.0 r,
          loop-puts kvs (buf_put_one c sha256 kc k pm m) hs (put-Replaceable k pm m h.1 r),
        )
        refl

  no_refusal :
      (kvs : List (Key × PropertyMap)) → first_put (map (λ kv. put (key_of kv)) kvs) ≡ false
  no_refusal [] = refl
  no_refusal (kv ∷ kvs) = no_refusal kvs

  collection-set :
      (m : Collection) (d : DataStoreData) → contents (set_collection kc.namespace m d) ≡ m
  unfolding collection
  collection-set m d = rw (lookup-insert_self kc.namespace m d.head) refl

  -- A call leaves a buffer with the given contents.
  abbrev pub Leaves : Option DataStoreData → Collection → Type 0
  Leaves o m = (d : DataStoreData) × (o ≡ some d) × IsBuffer d × (contents d ≡ m)

  -- What a put and a deletion do, in the namespace of the first key.
  abbrev put_in : Bytes → List (Key × PropertyMap) → DataStoreData → DataStoreData
  put_in ns kvs d = set_collection ns (put_each kvs (collection ns d.head)) d

  abbrev delete_in : Bytes → List Key → DataStoreData → DataStoreData
  delete_in ns ks d = set_collection ns (delete_each ks (collection ns d.head)) d

  abbrev finish_put : Bytes → DataStoreData → Option (List Put × Collection) → Option DataStoreData
  finish_put ns d o =
      elim (◌>>=◌ {B = List Put × DataStoreData} o (λ r. some (r.0, set_collection ns r.1 d))) [
        | none ↦ none
        | some (ps, d') ↦ if first_put ps then none else some d'
      ]

  buf_put-in :
      (k : Key) (pm : PropertyMap) (kvs : List (Key × PropertyMap)) (d : DataStoreData)
      → IsBuffer d
      → All IsRow ((k, pm) ∷ kvs)
      → Replaceable (collection k.kc.namespace d.head)
      → buf_put c sha256 ((k, pm) ∷ kvs) d ≡ some (put_in k.kc.namespace ((k, pm) ∷ kvs) d)
  unfolding buf_put put_multi
  buf_put-in k pm kvs d b h r =
      let ns = k.kc.namespace in
      let all = (k, pm) ∷ kvs in
      let m = collection ns d.head in
      ap (λ x. finish_put ns d (put_loop c sha256 (λ p. false) x all m)) b.disabled
      ∙ ap (finish_put ns d) (loop-puts all m h r)
      ∙ ap (λ x. if x then none else some (put_in ns all d)) (no_refusal kvs)

  -- The settings stay, and the contents of the collection are the given ones.
  set-Leaves :
      {o : Option DataStoreData} (k : Key) (f : Collection → Collection) (d : DataStoreData)
      → k.kc ≡ kc
      → IsBuffer d
      → o ≡ some (set_collection k.kc.namespace (f (collection k.kc.namespace d.head)) d)
      → Leaves o (f (contents d))
  set-Leaves k f d e b h = (
    set_collection kc.namespace (f (contents d)) d,
    h
        ∙ ap
            (λ (x : KeyContext).
              some (set_collection x.namespace (f (collection x.namespace d.head)) d))
            e,
    record { disabled = b.disabled; hidden = b.hidden },
    collection-set (f (contents d)) d,
  )

  in_context :
      (k : Key) (d : DataStoreData)
      → k.kc ≡ kc
      → Replaceable (contents d)
      → Replaceable (collection k.kc.namespace d.head)
  in_context k d e r b =
      ap (λ (x : KeyContext). can_replace c (lookup b (collection x.namespace d.head))) e ∙ r b

  pub buf_put-each :
      (kvs : List (Key × PropertyMap)) (d : DataStoreData)
      → IsBuffer d
      → All IsRow kvs
      → Replaceable (contents d)
      → Leaves (buf_put c sha256 kvs d) (put_each kvs (contents d))
  unfolding buf_put put_each
  buf_put-each [] d b h r = (d, refl, b, refl)
  buf_put-each ((k, pm) ∷ kvs) d b h r =
      set-Leaves k (put_each ((k, pm) ∷ kvs)) d h.0.0.context b
        (buf_put-in k pm kvs d b h (in_context k d h.0.0.context r))

  one-delete :
      (k : Key) (m : Collection)
      → Replaceable m
      → delete_one c sha256 true k m ≡ some (true, delete (key_bytes c sha256 k) m)
  unfolding delete_one touch_group
  one-delete k m r = rw (r (key_bytes c sha256 k)) refl

  loop-deletes :
      (ks : List Key) (m : Collection)
      → Replaceable m
      → delete_loop c sha256 true ks m ≡ some (map (λ k. true) ks, delete_each ks m)
  unfolding delete_loop delete_each
  loop-deletes [] m r = refl
  loop-deletes (k ∷ ks) m r =
      rw
        (
          one-delete k m r,
          loop-deletes ks (delete (key_bytes c sha256 k) m) (delete-Replaceable k m r),
        )
        refl

  no_failure : (ks : List Key) → any not (map (λ (k : Key). true) ks) ≡ false
  no_failure [] = refl
  no_failure (k ∷ ks) = no_failure ks

  abbrev finish_delete :
      Bytes → DataStoreData → Option (List Bool × Collection) → Option DataStoreData
  finish_delete ns d o =
      elim (◌>>=◌ {B = List Bool × DataStoreData} o (λ r. some (r.0, set_collection ns r.1 d))) [
        | none ↦ none
        | some (oks, d') ↦ if any not oks then none else some d'
      ]

  buf_delete-in :
      (k : Key) (ks : List Key) (d : DataStoreData)
      → IsBuffer d
      → Replaceable (collection k.kc.namespace d.head)
      → buf_delete c sha256 (k ∷ ks) d ≡ some (delete_in k.kc.namespace (k ∷ ks) d)
  unfolding buf_delete del_multi
  buf_delete-in k ks d b r =
      let ns = k.kc.namespace in
      let m = collection ns d.head in
      ap (λ x. finish_delete ns d (delete_loop c sha256 x (k ∷ ks) m)) b.disabled
      ∙ ap (finish_delete ns d) (loop-deletes (k ∷ ks) m r)
      ∙ ap (λ x. if x then none else some (delete_in ns (k ∷ ks) d)) (no_failure (k ∷ ks))

  pub buf_delete-each :
      (ks : List Key) (d : DataStoreData)
      → IsBuffer d
      → All (IsKey c sha256 kc) ks
      → Replaceable (contents d)
      → Leaves (buf_delete c sha256 ks d) (delete_each ks (contents d))
  unfolding buf_delete delete_each
  buf_delete-each [] d b h r = (d, refl, b, refl)
  buf_delete-each (k ∷ ks) d b h r =
      set-Leaves k (delete_each (k ∷ ks)) d h.0.context b
        (buf_delete-in k ks d b (in_context k d h.0.context r))

  pub buf_get-inner :
      (ks : List Key) (d : DataStoreData)
      → IsBuffer d
      → All (IsKey c sha256 kc) ks
      → buf_get c sha256 ks d ≡ all_entities (get_multi_inner c sha256 false ks (contents d))
  unfolding buf_get get_multi get_multi_inner
  buf_get-inner [] d b h = refl
  buf_get-inner (k ∷ ks) d b h =
      ap
        (λ x. all_entities (get_multi_inner c sha256 x (k ∷ ks) (collection k.kc.namespace d.head)))
        b.hidden
      ∙ ap
          (λ (x : KeyContext).
            all_entities (get_multi_inner c sha256 false (k ∷ ks) (collection x.namespace d.head)))
          h.0.context
