-- ===== src/Filters/TxnBuf/Rows.antt =====
-- The rows of the sizes and of the entities of a transaction: each stands for a good key, and no key
-- stands twice.
use gae.Prelude.{
  ℕ, ◌≡◌, refl, none, List, [], ◌∷◌, All, arith, Bytes, same_bytes, same_bytes_iff, lookup, insert,
  delete, lookup-insert, lookup-delete, Bool-cases, inl, inr,
}
use gae.Datastore.Key.{Key, KeyContext}
use gae.Datastore.PropertyMap.{PropertyMap, estimate_size}
use gae.Serialize.Cmpbin.{Cmpbin}
use gae.Memory.Datastore.Data.{Collection, key_bytes, read_prop_map}
use gae.Filters.TxnBuf.SizeTracker.{SizeTracker, set}
use gae.Filters.TxnBuf.Interface.{Got}
use gae.Filters.TxnBuf.Methods.{encode, set_puts, set_deletes}
use gae.Filters.TxnBuf.Commit.{read_queried}
use gae.Filters.TxnBuf.Keys.{IsKey}
use gae.Filters.TxnBuf.Buffer.{
  IsPlain, Reads, Sizes, Aligned, shown_at, entity_of, buf_put_one, put-Aligned, put-shown_at,
  delete-Aligned, delete-shown_at,
}
use gae.Filters.TxnBuf.Calls.{IsRow, Replaceable, replace_either, put_each, delete_each}
use gae.Filters.TxnBuf.Mapping.{after_puts, after_deletes}

module _ {V : Type 0} where
  abbrev pub IsDistinct : List (Bytes × V) → Type 0
  IsDistinct [] = Unit
  IsDistinct ((b, v) ∷ m) = (lookup b m ≡ none) × IsDistinct m

  insert-IsDistinct :
      (k : Bytes) (v : V) (m : List (Bytes × V)) → IsDistinct m → IsDistinct (insert k v m)
  unfolding insert lookup
  insert-IsDistinct k v [] h = (refl, tt)
  insert-IsDistinct k v ((b, w) ∷ m) h = ground (
    arith,
    same_bytes_iff b k,
    same_bytes_iff k b,
    lookup-insert k b v m,
    insert-IsDistinct k v m h.1,
  )

  delete-IsDistinct : (k : Bytes) (m : List (Bytes × V)) → IsDistinct m → IsDistinct (delete k m)
  unfolding delete lookup
  delete-IsDistinct k [] h = tt
  delete-IsDistinct k ((b, w) ∷ m) h =
      ground (arith, lookup-delete k b m, delete-IsDistinct k m h.1)

  insert-All :
      (P : Bytes × V → Type 0) (k : Bytes) (v : V) (m : List (Bytes × V))
      → P (k, v)
      → All P m
      → All P (insert k v m)
  unfolding insert
  insert-All P k v [] p h = (p, tt)
  insert-All P k v ((b, w) ∷ m) p h = elim (Bool-cases (same_bytes b k)) [
    | inl e ↦ rw e (p, h.1)
    | inr e ↦ rw e (h.0, insert-All P k v m p h.1)
  ]

  delete-All :
      (P : Bytes × V → Type 0) (k : Bytes) (m : List (Bytes × V)) → All P m → All P (delete k m)
  unfolding delete
  delete-All P k [] h = tt
  delete-All P k ((b, w) ∷ m) h = elim (Bool-cases (same_bytes b k)) [
    | inl e ↦ rw e (delete-All P k m h.1)
    | inr e ↦ rw e (h.0, delete-All P k m h.1)
  ]

module _ (c : Cmpbin) (sha256 : Bytes → Bytes) (kc : KeyContext) where
  pub record IsSizeRow (r : Bytes × ℕ) : Type 0 where
    pub key : Key
    pub is_key : IsKey c sha256 kc key
    pub encoded : r.0 ≡ encode c sha256 key

  pub record IsBufRow (r : Bytes × Bytes) : Type 0 where
    pub key : Key
    pub is_key : IsKey c sha256 kc key
    pub encoded : r.0 ≡ key_bytes c sha256 key
    pub entity : PropertyMap
    pub got_back : Reads (read_prop_map c r.1) entity
    pub queried_back : Reads (read_queried c sha256 kc r.1) entity
    pub plain : IsPlain c sha256 kc entity

  pub record IsWellFormed (sizes : Sizes) (buf : Collection) : Type 0 where
    pub aligned : Aligned c sha256 kc sizes buf
    pub size_rows : All IsSizeRow sizes
    pub buf_rows : All IsBufRow buf
    pub sizes_distinct : IsDistinct sizes
    pub buf_distinct : IsDistinct buf

  pub rows-Replaceable : (buf : Collection) → All IsBufRow buf → Replaceable c sha256 kc buf
  unfolding lookup
  rows-Replaceable [] h b = refl
  rows-Replaceable ((j, e) ∷ buf) (r, h) b =
      let (x, is, _) = r.got_back in
      replace_either c sha256 kc (same_bytes j b) e (lookup b buf) x is (rows-Replaceable buf h b)

  put-IsWellFormed :
      (k : Key) (pm : PropertyMap) (sizes : Sizes) (buf : Collection)
      → IsRow c sha256 kc (k, pm)
      → IsWellFormed sizes buf
      → IsWellFormed
          (insert (encode c sha256 k) (estimate_size pm) sizes)
          (buf_put_one c sha256 kc k pm buf)
  put-IsWellFormed k pm sizes buf (h, p) w = record {
    aligned = put-Aligned c sha256 kc k pm sizes buf h p w.aligned;
    size_rows =
        insert-All IsSizeRow (encode c sha256 k) (estimate_size pm) sizes
          (record { key = k; is_key = h; encoded = refl }) w.size_rows;
    buf_rows =
        insert-All IsBufRow (key_bytes c sha256 k) (entity_of c sha256 kc k pm) buf
          (record {
            key = k;
            is_key = h;
            encoded = refl;
            entity = pm;
            got_back = p.got_back (key_bytes c sha256 k);
            queried_back = p.queried_back (key_bytes c sha256 k);
            plain = p;
          })
          w.buf_rows;
    sizes_distinct =
        insert-IsDistinct (encode c sha256 k) (estimate_size pm) sizes w.sizes_distinct;
    buf_distinct =
        insert-IsDistinct (key_bytes c sha256 k) (entity_of c sha256 kc k pm) buf w.buf_distinct;
  }

  delete-IsWellFormed :
      (k : Key) (sizes : Sizes) (buf : Collection)
      → IsKey c sha256 kc k
      → IsWellFormed sizes buf
      → IsWellFormed (insert (encode c sha256 k) 0 sizes) (delete (key_bytes c sha256 k) buf)
  delete-IsWellFormed k sizes buf h w = record {
    aligned = delete-Aligned c sha256 kc k sizes buf h w.aligned;
    size_rows =
        insert-All IsSizeRow (encode c sha256 k) 0 sizes
          (record { key = k; is_key = h; encoded = refl }) w.size_rows;
    buf_rows = delete-All IsBufRow (key_bytes c sha256 k) buf w.buf_rows;
    sizes_distinct = insert-IsDistinct (encode c sha256 k) 0 sizes w.sizes_distinct;
    buf_distinct = delete-IsDistinct (key_bytes c sha256 k) buf w.buf_distinct;
  }

  pub puts-IsWellFormed :
      (kvs : List (Key × PropertyMap)) (s : SizeTracker) (buf : Collection)
      → All (IsRow c sha256 kc) kvs
      → IsWellFormed s.key_to_size buf
      → IsWellFormed (set_puts c sha256 kvs s).key_to_size (put_each c sha256 kc kvs buf)
  unfolding set_puts put_each set
  puts-IsWellFormed [] s buf h w = w
  puts-IsWellFormed ((k, pm) ∷ kvs) s buf (h, hs) w =
      puts-IsWellFormed kvs (set (encode c sha256 k) (estimate_size pm) s)
        (buf_put_one c sha256 kc k pm buf) hs (put-IsWellFormed k pm s.key_to_size buf h w)

  pub deletes-IsWellFormed :
      (ks : List Key) (s : SizeTracker) (buf : Collection)
      → All (IsKey c sha256 kc) ks
      → IsWellFormed s.key_to_size buf
      → IsWellFormed (set_deletes c sha256 ks s).key_to_size (delete_each c sha256 kc ks buf)
  unfolding set_deletes delete_each set
  deletes-IsWellFormed [] s buf h w = w
  deletes-IsWellFormed (k ∷ ks) s buf (h, hs) w =
      deletes-IsWellFormed ks (set (encode c sha256 k) 0 s) (delete (key_bytes c sha256 k) buf) hs
        (delete-IsWellFormed k s.key_to_size buf h w)

  pub puts-shown :
      {F : Type 0} (kvs : List (Key × PropertyMap)) (s : SizeTracker) (buf : Collection) (j : Key)
      (g : Got F)
      → All (IsRow c sha256 kc) kvs
      → IsKey c sha256 kc j
      → shown_at c sha256 kc
          (set_puts c sha256 kvs s).key_to_size
          (put_each c sha256 kc kvs buf)
          j
          g
        ≡ after_puts kvs j (shown_at c sha256 kc s.key_to_size buf j g)
  unfolding set_puts put_each set after_puts
  puts-shown [] s buf j g h l = refl
  puts-shown ((k, pm) ∷ kvs) s buf j g (h, hs) l =
      rw (← put-shown_at c sha256 kc k pm s.key_to_size buf j g h.0 l h.1) (
        puts-shown kvs (set (encode c sha256 k) (estimate_size pm) s)
          (buf_put_one c sha256 kc k pm buf) j g hs l)

  pub deletes-shown :
      {F : Type 0} (ks : List Key) (s : SizeTracker) (buf : Collection) (j : Key) (g : Got F)
      → All (IsKey c sha256 kc) ks
      → IsKey c sha256 kc j
      → shown_at c sha256 kc
          (set_deletes c sha256 ks s).key_to_size
          (delete_each c sha256 kc ks buf)
          j
          g
        ≡ after_deletes ks j (shown_at c sha256 kc s.key_to_size buf j g)
  unfolding set_deletes delete_each set after_deletes
  deletes-shown [] s buf j g h l = refl
  deletes-shown (k ∷ ks) s buf j g (h, hs) l =
      rw (← delete-shown_at c sha256 kc k s.key_to_size buf j g h l) (
        deletes-shown ks (set (encode c sha256 k) 0 s) (delete (key_bytes c sha256 k) buf) j g hs l)
