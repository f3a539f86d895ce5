-- ===== src/Memory/Datastore/Data/Versions.antt =====
-- The version of an entity group goes up with each write to the group.
use gae.Prelude.{
  true, [], ◌++◌, ℕ, ◌+◌, ◌^◌, ◌<◌, ◌≡◌, ◌≢◌, refl, sym, ap, ◌∙◌, false, Option, none, some, arith,
  Bytes, same_bytes, same_bytes_iff, if◌then◌else◌, ℤ, pos, ◌+ℤ◌, lookup, insert, delete,
  lookup-insert, lookup-delete, Bool-cases, inl, inr, ◌⊎◌, cmp_bytes,
}
use gae.Datastore.Key.{Key}
use gae.Datastore.Property.{index_type_and_value, check_valid}
use gae.Datastore.PropertyMap.{slice, slice_of_data, save, is_meta_key, clone}
use mathlib.Core.List.{append-nil}
use gae.Serialize.Reader.{ok}
use gae.Serialize.Write.{
  write_property_map, write_row, write_rows, write_property_data, write_property,
  write_property_impl, write_index_value,
}
use gae.Serialize.Read.{read_property_map}
use gae.Serialize.Read.Maps.{set_rows, read_property_map-write_property_map}
use gae.Serialize.Cmpbin.{Cmpbin}
use gae.Memory.Datastore.Data.{
  Collection, int64, version_map, version_in, cur_version, bump, increment_locked, touch_group,
  group_meta_key, ◌>>=◌, to_bytes, to_bytes_with_context, read_prop_map, read_or_none, no_context,
  version_in_map,
}

int64_small : (n : ℕ) → n < 2 ^ 63 → int64 (pos n) ≡ pos n
unfolding int64
int64_small n h = ground (arith, h)

bumped_twice : (n : ℕ) → n + 1 < 2 ^ 63 → int64 (int64 (pos n +ℤ pos 1) +ℤ pos 0) ≡ pos (n + 1)
bumped_twice n h =
    ap (λ v. int64 (int64 v +ℤ pos 0)) (sum n)
    ∙ ap (λ v. int64 (v +ℤ pos 0)) (int64_small (n + 1) h)
    ∙ ap int64 (zero_more (n + 1))
    ∙ int64_small (n + 1) h
  where
    sum : (n : ℕ) → pos n +ℤ pos 1 ≡ pos (n + 1)
    sum n = ground arith

    zero_more : (n : ℕ) → pos n +ℤ pos 0 ≡ pos n
    zero_more n = ground arith

module _ (c : Cmpbin) where
  version_bytes-same :
      (v : ℤ) → to_bytes c (version_map v) ≡ to_bytes_with_context c (version_map v)
  unfolding write_property_map write_row write_rows write_property_data write_property
      write_property_impl index_type_and_value write_index_value save is_meta_key clone
  version_bytes-same v = refl

  version-read :
      (v : ℤ)
      → read_property_map c true no_context (to_bytes_with_context c (version_map v) ++ [])
        ≡ ok (set_rows c true no_context (save false (version_map v)) []) []
  unfolding save is_meta_key clone check_valid
  version-read v =
      read_property_map-write_property_map c true no_context (version_map v) [] ((tt, refl), tt)
        (omega arith)

  version-found :
      (v : ℤ)
      → version_in_map (some (set_rows c true no_context (save false (version_map v)) [])) ≡ some v
  unfolding set_rows save is_meta_key clone insert slice slice_of_data lookup same_bytes cmp_bytes
  version-found v = refl

  version_back : (v : ℤ) → version_in c (some (to_bytes c (version_map v))) ≡ some v
  unfolding read_prop_map
  version_back v =
      ap (λ b. version_in_map (read_or_none (read_property_map c true no_context b)))
        (version_bytes-same v ∙ sym (append-nil (to_bytes_with_context c (version_map v))))
      ∙ ap (λ r. version_in_map (read_or_none r)) (version-read v)
      ∙ version-found v

  cur_version-insert :
      (k j : Bytes) (b : Bytes) (m : Collection)
      → cur_version c (insert k b m) j
        ≡ (if same_bytes k j then version_in c (some b) else cur_version c m j)
  unfolding cur_version
  cur_version-insert k j b m = ground (arith, lookup-insert k j b m)

  pub cur_version-insert_ne :
      (k j : Bytes) (b : Bytes) (m : Collection)
      → k ≢ j
      → cur_version c (insert k b m) j ≡ cur_version c m j
  cur_version-insert_ne k j b m n = ground (arith, cur_version-insert k j b m, same_bytes_iff k j)

  pub cur_version-delete_ne :
      (k j : Bytes) (m : Collection) → k ≢ j → cur_version c (delete k m) j ≡ cur_version c m j
  unfolding cur_version
  cur_version-delete_ne k j m n = ground (arith, lookup-delete k j m, same_bytes_iff k j)

  bumped-version :
      (j : Bytes) (n : ℕ) (m : Collection)
      → n + 1 < 2 ^ 63
      → cur_version c
          (insert j (to_bytes c (version_map (int64 (int64 (pos n +ℤ pos 1) +ℤ pos 0)))) m)
          j
        ≡ some (pos (n + 1))
  bumped-version j n m h =
      ap (λ v. cur_version c (insert j (to_bytes c (version_map v)) m) j) (bumped_twice n h)
      ∙ cur_version-insert j j (to_bytes c (version_map (pos (n + 1)))) m
      ∙ ap
          (λ b.
            if b
            then version_in c (some (to_bytes c (version_map (pos (n + 1)))))
            else cur_version c m j)
          ((same_bytes_iff j j).1 refl)
      ∙ version_back (pos (n + 1))

-- What a step does to a version: it goes up by one, or stays where the keys differ.
abbrev pub Moves : ℕ → Type 0 → Option ℤ → Type 0
Moves n Other v = (Other × (v ≡ some (pos n))) ⊎ (v ≡ some (pos (n + 1)))

-- The collection of a result.
abbrev snd_of : Option (ℤ × Collection) → Option Collection
snd_of none = none
snd_of (some r) = some r.1

abbrev version_at : Cmpbin → Bytes → Option Collection → Option ℤ
version_at c j none = none
version_at c j (some m) = cur_version c m j

module _ (c : Cmpbin) where
  bump-Moves :
      (k j : Bytes) (n : ℕ) (m m' : Collection)
      → snd_of (bump c m k 1 (cur_version c m k)) ≡ some m'
      → cur_version c m j ≡ some (pos n)
      → n + 1 < 2 ^ 63
      → Moves n (k ≢ j) (cur_version c m' j)
  bump-Moves k j n m m' e v h = elim (Bool-cases (same_bytes k j)) [
    | inl same ↦ inr (up ((same_bytes_iff k j).0 same))
    | inr other ↦ inl (differ other, stays other (cur_version c m k) e)
  ]
    where
      differ : same_bytes k j ≡ false → k ≢ j
      differ o = ground (arith, same_bytes_iff k j)

      stays :
          same_bytes k j ≡ false
          → (o : Option ℤ) → snd_of (bump c m k 1 o) ≡ some m'
          → cur_version c m' j ≡ some (pos n)
      stays d none e = absurd (cc)
      stays d (some w) e =
          ap (version_at c j) (sym e)
          ∙ cur_version-insert_ne c k j
              (to_bytes c (version_map (int64 (int64 (w +ℤ pos 1) +ℤ pos 0)))) m (differ d)
          ∙ v

      up : k ≡ j → cur_version c m' j ≡ some (pos (n + 1))
      up s =
          ap (version_at c j) (
            sym e
            ∙ ap (λ k. snd_of (bump c m k 1 (cur_version c m k))) s
            ∙ ap (λ o. snd_of (bump c m j 1 o)) v)
          ∙ bumped-version c j n m h

module _ (c : Cmpbin) (sha256 : Bytes → Bytes) where
  pub touch-Moves :
      (k : Key) (j : Bytes) (n : ℕ) (m m' : Collection)
      → touch_group c sha256 false k m ≡ some m'
      → cur_version c m j ≡ some (pos n)
      → n + 1 < 2 ^ 63
      → Moves n (group_meta_key c sha256 k ≢ j) (cur_version c m' j)
  unfolding touch_group increment_locked
  touch-Moves k j n m m' e v h =
      bump-Moves c (group_meta_key c sha256 k) j n m m'
        (same (cur_version c m (group_meta_key c sha256 k)) ∙ e) v h
    where
      same :
          (o : Option ℤ)
          → snd_of (bump c m (group_meta_key c sha256 k) 1 o)
            ≡ (bump c m (group_meta_key c sha256 k) 1 o >>= λ r. some r.1)
      same none = refl
      same (some w) = refl
