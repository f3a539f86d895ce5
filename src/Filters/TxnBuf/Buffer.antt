-- ===== src/Filters/TxnBuf/Buffer.antt =====
-- What the sizes and the entities of a buffered transaction say of a key together.
use gae.Prelude.{
  ℕ, zero, suc, ◌≡◌, ◌≢◌, refl, ap, false, Option, none, some, List, Bytes, if◌then◌else◌, lookup,
  insert, delete, lookup-insert, lookup-delete, Bool-cases, inl, inr,
}
use gae.Datastore.Key.{Key, KeyContext, equal}
use gae.Datastore.PropertyMap.{PropertyMap, save, estimate_size}
use gae.Serialize.Cmpbin.{Cmpbin}
use gae.Memory.Datastore.Data.{
  Collection, key_bytes, strip_special_props, ensure_special_props, read_prop_map,
  to_bytes_with_context,
}
use gae.Filters.TxnBuf.Interface.{Got, got, no_such_entity}
use gae.Filters.TxnBuf.Methods.{encode}
use gae.Filters.TxnBuf.Commit.{read_queried}
use gae.Filters.TxnBuf.Keys.{IsKey, same-encode, same-key_bytes}

abbrev pub Sizes : Type 0
Sizes = List (Bytes × ℕ)

-- What is read is the entity, but for the special properties.
abbrev pub Reads : Option PropertyMap → PropertyMap → Type 0
Reads o pm = (r : PropertyMap) × (o ≡ some r) × (strip_special_props r ≡ pm)

-- A size above 0 goes with an entity that can be read, any other with none.
abbrev pub Agree : Cmpbin → Option ℕ → Option Bytes → Type 0
Agree c none o = o ≡ none
Agree c (some zero) o = o ≡ none
Agree c (some (suc n)) o =
    (b : Bytes) × (pm : PropertyMap) × (o ≡ some b) × (read_prop_map c b ≡ some pm)

abbrev pub entity_at : Cmpbin → Option Bytes → Option PropertyMap
entity_at c none = none
entity_at c (some b) = read_prop_map c b

abbrev pub stripped : Option PropertyMap → {F : Type 0} → Got F
stripped none = no_such_entity
stripped (some pm) = got (strip_special_props pm)

-- What a transaction shows of a key, over what is shown below it.
abbrev pub shown : {F : Type 0} → Option ℕ → Option PropertyMap → Got F → Got F
shown none o g = g
shown (some zero) o g = no_such_entity
shown (some (suc n)) o g = stripped o

module _ (c : Cmpbin) (sha256 : Bytes → Bytes) (kc : KeyContext) where
  abbrev pub Aligned : Sizes → Collection → Type 0
  Aligned sizes buf =
      (k : Key)
      → IsKey c sha256 kc k
      → Agree c (lookup (encode c sha256 k) sizes) (lookup (key_bytes c sha256 k) buf)

  abbrev pub shown_at : {F : Type 0} → Sizes → Collection → Key → Got F → Got F
  shown_at sizes buf k =
      shown (lookup (encode c sha256 k) sizes) (entity_at c (lookup (key_bytes c sha256 k) buf))

  -- The bytes of an entity under those of a key.
  abbrev pub entity_bytes : Bytes → PropertyMap → Bytes
  entity_bytes b pm = to_bytes_with_context c (ensure_special_props sha256 b (save false pm))

  -- An entity that has a property at least, and that comes back from its bytes but for the special properties:
  -- read with the contexts of the keys among its properties, and read with the context of the transaction
  -- for them. So it has no metadata, no special property and no epoch, and its keys are of that context.
  pub record IsPlain (pm : PropertyMap) : Type 0 where
    pub got_back : (b : Bytes) → Reads (read_prop_map c (entity_bytes b pm)) pm
    pub queried_back : (b : Bytes) → Reads (read_queried c sha256 kc (entity_bytes b pm)) pm
    pub counted : estimate_size pm ≢ 0

  abbrev pub entity_of : Key → PropertyMap → Bytes
  entity_of k pm = entity_bytes (key_bytes c sha256 k) pm

  -- A put of one key, in the sizes and in the entities.
  abbrev pub sizes_put : Key → PropertyMap → Sizes → Sizes
  sizes_put k pm sizes = insert (encode c sha256 k) (estimate_size pm) sizes

  abbrev pub buf_put_one : Key → PropertyMap → Collection → Collection
  buf_put_one k pm buf = insert (key_bytes c sha256 k) (entity_of k pm) buf

  put-Agree :
      (n : ℕ) (k : Key) (pm : PropertyMap)
      → n ≢ 0
      → IsPlain pm
      → Agree c (some n) (some (entity_of k pm))
  put-Agree zero k pm h p = absurd (h refl)
  put-Agree (suc n) k pm h p =
      let (r, e, _) = p.got_back (key_bytes c sha256 k) in (entity_of k pm, r, refl, e)

  put-shown :
      {F : Type 0} (n : ℕ) (k : Key) (pm : PropertyMap) (g : Got F)
      → n ≢ 0
      → IsPlain pm
      → shown (some n) (entity_at c (some (entity_of k pm))) g ≡ got pm
  put-shown zero k pm g h p = absurd (h refl)
  put-shown (suc n) k pm g h p =
      let (r, e, s) = p.got_back (key_bytes c sha256 k) in rw e (ap got s)

  pub put-Aligned :
      (k : Key) (pm : PropertyMap) (sizes : Sizes) (buf : Collection)
      → IsKey c sha256 kc k
      → IsPlain pm
      → Aligned sizes buf
      → Aligned (sizes_put k pm sizes) (buf_put_one k pm buf)
  put-Aligned k pm sizes buf h p a j l =
      rw
        (
          lookup-insert (encode c sha256 k) (encode c sha256 j) (estimate_size pm) sizes,
          lookup-insert (key_bytes c sha256 k) (key_bytes c sha256 j) (entity_of k pm) buf,
          same-encode c sha256 kc k j h l,
          same-key_bytes c sha256 kc k j h l,
        )
        (elim (Bool-cases (equal k j)) [
          | inl e ↦ rw e (put-Agree (estimate_size pm) k pm p.counted p)
          | inr e ↦ rw e (a j l)
        ])

  pub put-shown_at :
      {F : Type 0} (k : Key) (pm : PropertyMap) (sizes : Sizes) (buf : Collection) (j : Key)
      (g : Got F)
      → IsKey c sha256 kc k
      → IsKey c sha256 kc j
      → IsPlain pm
      → shown_at (sizes_put k pm sizes) (buf_put_one k pm buf) j g
        ≡ (if equal k j then got pm else shown_at sizes buf j g)
  put-shown_at k pm sizes buf j g h l p =
      rw
        (
          lookup-insert (encode c sha256 k) (encode c sha256 j) (estimate_size pm) sizes,
          lookup-insert (key_bytes c sha256 k) (key_bytes c sha256 j) (entity_of k pm) buf,
          same-encode c sha256 kc k j h l,
          same-key_bytes c sha256 kc k j h l,
        )
        (elim (Bool-cases (equal k j)) [
          | inl e ↦ rw e (put-shown (estimate_size pm) k pm g p.counted p)
          | inr e ↦ rw e refl
        ])

  pub delete-Aligned :
      (k : Key) (sizes : Sizes) (buf : Collection)
      → IsKey c sha256 kc k
      → Aligned sizes buf
      → Aligned (insert (encode c sha256 k) 0 sizes) (delete (key_bytes c sha256 k) buf)
  delete-Aligned k sizes buf h a j l =
      rw
        (
          lookup-insert (encode c sha256 k) (encode c sha256 j) 0 sizes,
          lookup-delete (key_bytes c sha256 k) (key_bytes c sha256 j) buf,
          same-encode c sha256 kc k j h l,
          same-key_bytes c sha256 kc k j h l,
        )
        (elim (Bool-cases (equal k j)) [ inl e ↦ rw e refl | inr e ↦ rw e (a j l) ])

  pub delete-shown_at :
      {F : Type 0} (k : Key) (sizes : Sizes) (buf : Collection) (j : Key) (g : Got F)
      → IsKey c sha256 kc k
      → IsKey c sha256 kc j
      → shown_at (insert (encode c sha256 k) 0 sizes) (delete (key_bytes c sha256 k) buf) j g
        ≡ (if equal k j then no_such_entity else shown_at sizes buf j g)
  delete-shown_at k sizes buf j g h l =
      rw
        (
          lookup-insert (encode c sha256 k) (encode c sha256 j) 0 sizes,
          lookup-delete (key_bytes c sha256 k) (key_bytes c sha256 j) buf,
          same-encode c sha256 kc k j h l,
          same-key_bytes c sha256 kc k j h l,
        )
        (elim (Bool-cases (equal k j)) [ inl e ↦ rw e refl | inr e ↦ rw e refl ])
