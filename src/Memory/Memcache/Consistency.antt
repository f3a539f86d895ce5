-- ===== src/Memory/Memcache/Consistency.antt =====
-- The statistics of the cache count its items and their bytes, whatever is done to it.
use gae.Prelude.{
  ℕ, ◌+◌, ◌%◌, ◌≡◌, refl, sym, ◌∙◌, Option, none, some, List, [], ◌∷◌, length, arith, Bytes, lookup,
  insert, delete, same_bytes, same_bytes_iff, lookup-insert, lookup-delete, inl, inr, Bool-cases,
}
use gae.Memory.Memcache.Steps.{Op, step, run, step_keeps}
use gae.Memory.Memcache.{
  Item, DataItem, MemcacheData, word, forget, set_item_locked, del_item_locked, mk_data_item_locked,
  reset,
}

abbrev Items : Type 0
Items = List (Bytes × DataItem)

-- The bytes of all values.
abbrev pub total : Items → ℕ
total [] = 0
total ((k, d) ∷ m) = length d.value + total m

abbrev pub Unique : Items → Type 0
Unique [] = Unit
Unique ((k, d) ∷ m) = (lookup k m ≡ none) × Unique m

-- The statistics hold modulo 2^64, the width of their fields.
pub record IsConsistent (m : MemcacheData) : Type 0 where
  pub unique : Unique m.items
  pub counted : m.stats.items ≡ length m.items % word
  pub sized : m.stats.bytes ≡ total m.items % word

abbrev count_of : Option DataItem → ℕ
count_of none = 0
count_of (some d) = 1

abbrev size_of : Option DataItem → ℕ
size_of none = 0
size_of (some d) = length d.value

length-insert :
    (k : Bytes) (d : DataItem) (m : Items)
    → length (insert k d m) + count_of (lookup k m) ≡ length m + 1
unfolding insert lookup
length-insert k d [] = omega arith
length-insert k d ((j, e) ∷ m) = ground (arith, length-insert k d m)

total-insert :
    (k : Bytes) (d : DataItem) (m : Items)
    → total (insert k d m) + size_of (lookup k m) ≡ total m + length d.value
unfolding insert lookup
total-insert k d [] = omega arith
total-insert k d ((j, e) ∷ m) = ground (arith, total-insert k d m)

insert-Unique : (k : Bytes) (d : DataItem) (m : Items) → Unique m → Unique (insert k d m)
unfolding insert lookup
insert-Unique k d [] u = (refl, tt)
insert-Unique k d ((j, e) ∷ m) (n, u) = elim (Bool-cases (same_bytes j k)) [
  | inl h ↦ rw h (ground (arith, same_bytes_iff j k), u)
  | inr h ↦ rw h (
    ground (arith, lookup-insert k j d m, same_bytes_iff j k, same_bytes_iff k j),
    insert-Unique k d m u,
  )
]

delete-none : (k : Bytes) (m : Items) → lookup k m ≡ none → delete k m ≡ m
unfolding delete lookup
delete-none k [] h = refl
delete-none k ((j, e) ∷ m) h = ground (arith, delete-none k m)

length-delete :
    (k : Bytes) (m : Items) → Unique m → length (delete k m) + count_of (lookup k m) ≡ length m
unfolding delete lookup
length-delete k [] u = omega arith
length-delete k ((j, e) ∷ m) (n, u) =
    ground (arith, length-delete k m u, same_bytes_iff j k, delete-none k m)

total-delete :
    (k : Bytes) (m : Items) → Unique m → total (delete k m) + size_of (lookup k m) ≡ total m
unfolding delete lookup
total-delete k [] u = omega arith
total-delete k ((j, e) ∷ m) (n, u) =
    ground (arith, total-delete k m u, same_bytes_iff j k, delete-none k m)

delete-Unique : (k : Bytes) (m : Items) → Unique m → Unique (delete k m)
unfolding delete lookup
delete-Unique k [] u = tt
delete-Unique k ((j, e) ∷ m) (n, u) = elim (Bool-cases (same_bytes j k)) [
  | inl h ↦ rw h (delete-Unique k m u)
  | inr h ↦ rw h (ground (arith, lookup-delete k j m), delete-Unique k m u)
]

set_item_locked-IsConsistent :
    (now : ℕ) (i : Item) (m : MemcacheData)
    → IsConsistent m
    → IsConsistent (set_item_locked now i m)
unfolding set_item_locked forget mk_data_item_locked
set_item_locked-IsConsistent now i m c = record {
  unique = insert-Unique i.key _ m.items c.unique;
  counted = ground (arith, length-insert i.key (mk_data_item_locked now i m).0 m.items);
  sized = ground (arith, total-insert i.key (mk_data_item_locked now i m).0 m.items);
}

del_item_locked-IsConsistent :
    (k : Bytes) (m : MemcacheData) → IsConsistent m → IsConsistent (del_item_locked k m)
unfolding del_item_locked forget
del_item_locked-IsConsistent k m c = record {
  unique = delete-Unique k m.items c.unique;
  counted = ground (arith, length-delete k m.items c.unique);
  sized = ground (arith, total-delete k m.items c.unique);
}

reset-IsConsistent : (m : MemcacheData) → IsConsistent m → IsConsistent (reset m)
unfolding reset
reset-IsConsistent m c = record { unique = tt; counted = refl; sized = refl }

step-IsConsistent :
    (now : ℕ) (op : Op) (m : MemcacheData) → IsConsistent m → IsConsistent (step now op m)
step-IsConsistent =
    step_keeps IsConsistent IsConsistent set_item_locked-IsConsistent del_item_locked-IsConsistent
      (λ s m c e. record {
        unique = c.unique;
        counted = sym e.0 ∙ c.counted;
        sized = sym e.1 ∙ c.sized;
      })
      reset-IsConsistent (λ m c. c)

-- Whatever is done to a cache, its statistics count its items and their bytes, and no key stands
-- twice in it: from a cache where that holds, after any steps at any times, it holds.
pub run-IsConsistent :
    (ops : List (ℕ × Op)) (m : MemcacheData) → IsConsistent m → IsConsistent (run ops m)
unfolding run
run-IsConsistent [] m c = c
run-IsConsistent ((now, op) ∷ ops) m c =
    run-IsConsistent ops (step now op m) (step-IsConsistent now op m c)
