-- ===== src/Memory/Datastore/Transaction/Writes.antt =====
-- What a mutation does to the version of an entity group.
use gae.Prelude.{
  lookup, Bool, codes, ltb, ℕ, suc, ◌+◌, ◌^◌, ◌<◌, ◌≡◌, ◌≢◌, refl, sym, ap, ◌∙◌, true, false,
  Option, none, some, List, [], ◌∷◌, length, arith, Bytes, same_bytes, same_bytes_iff,
  if◌then◌else◌, ℤ, pos, insert, delete, lookup-insert, Bool-cases, inl, inr,
}
use gae.Datastore.Key.{Key, KeyContext, new_key, root, is_incomplete}
use gae.Datastore.PropertyMap.{PropertyMap, save}
use gae.Serialize.Cmpbin.{Cmpbin}
use gae.Memory.Datastore.Data.{
  no_context, Collection, DataStoreData, Put, collection, cur_version, touch_group, key_bytes,
  group_meta_key, ensure_special_props, set_collection, put_multi, put_loop, put_one,
  to_bytes_with_context, can_replace, replace_entity, delete_entity, deleted_before, fix_key_locked,
  go_on, del_multi, delete_loop, delete_one, ◌>>=◌,
}
use gae.Memory.Datastore.Data.Versions.{
  Moves, touch-Moves, cur_version-insert_ne, cur_version-delete_ne,
}
use gae.Memory.Datastore.Transaction.{
  Mutation, apply_value, apply_one, is_refused, unless_refused, unless_unreadable,
}

module _ (c : Cmpbin) (sha256 : Bytes → Bytes) where
  -- The entity that a mutation leaves.
  abbrev written : Key → Option PropertyMap → Collection → Collection
  written k none m = delete (key_bytes c sha256 k) m
  written k (some pm) m =
      insert (key_bytes c sha256 k)
        (to_bytes_with_context c
          (ensure_special_props sha256 (key_bytes c sha256 k) (save false pm)))
        m

  -- With an old entity that cannot be read it is a panic.
  abbrev stored_over :
      Bool → DataStoreData → Key → Option PropertyMap → Collection → Option DataStoreData
  stored_over false d k v m = none
  stored_over true d k v m = some (set_collection k.kc.namespace (written k v m) d)

  abbrev stored :
      DataStoreData → Key → Option PropertyMap → Option Collection → Option DataStoreData
  stored d k v none = none
  stored d k v (some m) = stored_over (can_replace c (lookup (key_bytes c sha256 k) m)) d k v m

  -- The loops over one key.
  abbrev kept : {A : Type 0} → (Collection → A) → Option Collection → Option A
  kept f none = none
  kept f (some m) = some (f m)

  abbrev delete_told : Key → Collection → List Bool × Collection
  delete_told k m = let r = delete_entity c sha256 k m in (r.0 ∷ [], r.1)

  abbrev put_told : Key → PropertyMap → Collection → List Put × Collection
  put_told k pm m = let r = replace_entity c sha256 k (save false pm) m in (r.0 ∷ [], r.1)

  deletes-one :
      (k : Key) (m : Collection)
      → delete_loop c sha256 false (k ∷ []) m
        ≡ kept (delete_told k) (touch_group c sha256 false k m)
  unfolding delete_loop delete_one
  deletes-one k m = of (touch_group c sha256 false k m)
    where
      of :
          (o : Option Collection)
          → ((o >>= λ m. some (delete_entity c sha256 k m)) >>= λ r.
              some ([], r.1) >>= deleted_before c sha256 r.0)
            ≡ kept (delete_told k) o
      of none = refl
      of (some m) = refl

  puts-one :
      (k : Key) (pm : PropertyMap) (m : Collection)
      → is_incomplete k ≡ false
      → put_loop c sha256 is_refused false ((k, pm) ∷ []) m
        ≡ kept (put_told k pm) (touch_group c sha256 false k m)
  unfolding put_loop put_one fix_key_locked
  puts-one k pm m i = rw i (of (touch_group c sha256 false k m))
    where
      of :
          (o : Option Collection)
          → ((o >>= λ m. some (replace_entity c sha256 k (save false pm) m)) >>= λ r.
              go_on (is_refused r.0) r (some ([], r.1)))
            ≡ kept (put_told k pm) o
      of none = refl
      of (some m) = elim (Bool-cases (can_replace c (lookup (key_bytes c sha256 k) m))) [
        | inl b ↦ rw b refl
        | inr b ↦ rw b refl
      ]

  apply-stored :
      (k : Key) (v : Option PropertyMap) (d : DataStoreData)
      → is_incomplete k ≡ false
      → d.disable_special_entities ≡ false
      → apply_value c sha256 k v d
        ≡ stored d k v (touch_group c sha256 false k (collection k.kc.namespace d.head))
  unfolding del_multi put_multi
  apply-stored k none d i e =
      ap (λ b. after_delete (delete_loop c sha256 b (k ∷ []) (collection k.kc.namespace d.head))) e
      ∙ ap after_delete (deletes-one k (collection k.kc.namespace d.head))
      ∙ of (touch_group c sha256 false k (collection k.kc.namespace d.head))
    where
      with_head : List Bool × Collection → Option (List Bool × DataStoreData)
      with_head r = some (r.0, set_collection k.kc.namespace r.1 d)

      after_delete : Option (List Bool × Collection) → Option DataStoreData
      after_delete o = (o >>= with_head) >>= unless_unreadable c sha256

      of : (o : Option Collection) → after_delete (kept (delete_told k) o) ≡ stored d k none o
      of none = refl
      of (some m) = elim (Bool-cases (can_replace c (lookup (key_bytes c sha256 k) m))) [
        | inl b ↦ rw b refl
        | inr b ↦ rw b refl
      ]
  apply-stored k (some pm) d i e =
      ap
        (λ b.
          after_put
            (put_loop c sha256 is_refused b ((k, pm) ∷ []) (collection k.kc.namespace d.head)))
        e
      ∙ ap after_put (puts-one k pm (collection k.kc.namespace d.head) i)
      ∙ of (touch_group c sha256 false k (collection k.kc.namespace d.head))
    where
      with_head : List Put × Collection → Option (List Put × DataStoreData)
      with_head r = some (r.0, set_collection k.kc.namespace r.1 d)

      after_put : Option (List Put × Collection) → Option DataStoreData
      after_put o = (o >>= with_head) >>= unless_refused c sha256

      of : (o : Option Collection) → after_put (kept (put_told k pm) o) ≡ stored d k (some pm) o
      of none = refl
      of (some m) = elim (Bool-cases (can_replace c (lookup (key_bytes c sha256 k) m))) [
        | inl b ↦ rw b refl
        | inr b ↦ rw b refl
      ]

  -- The version of the entity group of a key.
  abbrev pub version : Key → DataStoreData → Option ℤ
  version r d =
      cur_version c (collection (root r).kc.namespace d.head) (group_meta_key c sha256 (root r))

  -- A complete key whose entity is not the one that holds the version.
  abbrev pub IsOrdinary : Key → Mutation → Type 0
  IsOrdinary r w =
      (is_incomplete w.key ≡ false) × (key_bytes c sha256 w.key ≢ group_meta_key c sha256 (root r))

  abbrev pub Steps : Key → Key → ℕ → DataStoreData → Type 0
  Steps r k n d = Moves n (root k ≢ root r) (version r d)

  collection-set :
      (ns k : Bytes) (m : Collection) (d : DataStoreData)
      → collection ns (set_collection k m d).head
        ≡ (if same_bytes k ns then m else collection ns d.head)
  unfolding collection
  collection-set ns k m d = ground (arith, lookup-insert k ns m d.head)

  written-version :
      (j : Bytes) (k : Key) (v : Option PropertyMap) (m : Collection)
      → key_bytes c sha256 k ≢ j
      → cur_version c (written k v m) j ≡ cur_version c m j
  written-version j k none m h = cur_version-delete_ne c (key_bytes c sha256 k) j m h
  written-version j k (some pm) m h =
      cur_version-insert_ne c (key_bytes c sha256 k) j
        (to_bytes_with_context c
          (ensure_special_props sha256 (key_bytes c sha256 k) (save false pm)))
        m h

  root_context : (k : Key) → (root k).kc ≡ k.kc
  unfolding root
  root_context k = elim (Bool-cases (ltb 1 (suc (length k.others)))) [
    | inl e ↦ rw e refl
    | inr e ↦ rw e refl
  ]

  root-root : (k : Key) → root (root k) ≡ root k
  unfolding root
  root-root k = elim (Bool-cases (ltb 1 (suc (length k.others)))) [
    | inl e ↦ rw e refl
    | inr e ↦ rw (e, e) refl
  ]

  same_group :
      (r k : Key) → root k ≡ root r → group_meta_key c sha256 k ≡ group_meta_key c sha256 (root r)
  unfolding group_meta_key
  same_group r k e =
      ap
        (λ k.
          key_bytes c sha256 (new_key no_context (codes "__entity_group__") [] (pos 1) (some k)))
        (e ∙ sym (root-root r))

  same_namespace : (r k : Key) → root k ≡ root r → k.kc.namespace ≡ (root r).kc.namespace
  same_namespace r k e =
      sym (ap (λ (x : KeyContext). x.namespace) (root_context k))
      ∙ ap (λ (k : Key). k.kc.namespace) e

  stored-Steps :
      (r k : Key) (v : Option PropertyMap) (n : ℕ) (d : DataStoreData) (m : Collection)
      → touch_group c sha256 false k (collection k.kc.namespace d.head) ≡ some m
      → key_bytes c sha256 k ≢ group_meta_key c sha256 (root r)
      → version r d ≡ some (pos n)
      → n + 1 < 2 ^ 63
      → Steps r k n (set_collection k.kc.namespace (written k v m) d)
  stored-Steps r k v n d m t b h l =
      elim (Bool-cases (same_bytes k.kc.namespace (root r).kc.namespace)) [
        | inl s ↦
            rw
              (
                collection-set (root r).kc.namespace k.kc.namespace (written k v m) d,
                s,
                written-version j k v m b,
              )
              (group (touch-Moves c sha256 k j n (collection k.kc.namespace d.head) m t (here s) l))
        | inr s ↦ inl (
          elsewhere s,
          rw (collection-set (root r).kc.namespace k.kc.namespace (written k v m) d, s) h,
        )
      ]
    where
      j : Bytes
      j = group_meta_key c sha256 (root r)

      here :
          same_bytes k.kc.namespace (root r).kc.namespace ≡ true
          → cur_version c (collection k.kc.namespace d.head) j ≡ some (pos n)
      here s =
          ap (λ ns. cur_version c (collection ns d.head) j)
            ((same_bytes_iff k.kc.namespace (root r).kc.namespace).0 s)
          ∙ h

      elsewhere : same_bytes k.kc.namespace (root r).kc.namespace ≡ false → root k ≢ root r
      elsewhere s e =
          ground
            (arith, same_namespace r k e, same_bytes_iff k.kc.namespace (root r).kc.namespace, s)

      group :
          {o : Option ℤ} → Moves n (group_meta_key c sha256 k ≢ j) o → Moves n (root k ≢ root r) o
      group (inl (d, e)) = inl ((λ x. d (same_group r k x)), e)
      group (inr e) = inr e

  pub apply-Steps :
      (r : Key) (w : Mutation) (n : ℕ) (d d' : DataStoreData)
      → d.disable_special_entities ≡ false
      → IsOrdinary r w
      → version r d ≡ some (pos n)
      → n + 1 < 2 ^ 63
      → apply_one c sha256 w d ≡ some d'
      → Steps r w.key n d' × (d'.disable_special_entities ≡ false)
  unfolding apply_one
  apply-Steps r w n d d' e (i, b) h l a =
      of (touch_group c sha256 false w.key (collection w.key.kc.namespace d.head)) refl
        (sym (apply-stored w.key w.value d i e) ∙ a)
    where
      result :
          (m : Collection)
          → d' ≡ set_collection w.key.kc.namespace (written w.key w.value m) d
          → touch_group c sha256 false w.key (collection w.key.kc.namespace d.head) ≡ some m
          → Steps r w.key n d' × (d'.disable_special_entities ≡ false)
      result m x t = rw x (stored-Steps r w.key w.value n d m t b h l, e)

      some-injective : (x y : DataStoreData) → some x ≡ some y → y ≡ x
      some-injective x y z = cc

      over :
          (m : Collection)
          → touch_group c sha256 false w.key (collection w.key.kc.namespace d.head) ≡ some m
          → (b : Bool) → stored_over b d w.key w.value m ≡ some d'
          → Steps r w.key n d' × (d'.disable_special_entities ≡ false)
      over m t false x = absurd (cc)
      over m t true x = result m (some-injective _ d' x) t

      of :
          (o : Option Collection)
          → touch_group c sha256 false w.key (collection w.key.kc.namespace d.head) ≡ o
          → stored d w.key w.value o ≡ some d'
          → Steps r w.key n d' × (d'.disable_special_entities ≡ false)
      of none t x = absurd (cc)
      of (some m) t x = over m t (can_replace c (lookup (key_bytes c sha256 w.key) m)) x
