-- ===== src/Memory/Memcache/Swap.antt =====
-- Compare-and-swap: the CAS IDs of writes are all different, so a swap with the ID of an item that
-- was read succeeds only if that item has not been written since.
use gae.Prelude.{
  ℕ, ◌+◌, ◌≤◌, ◌<◌, ◌≡◌, none, some, List, [], ◌∷◌, length, arith, Bytes, lookup, same_bytes,
  lookup-insert, lookup-delete, ◌⊎◌, inl, inr, Bool-cases, Option-cases,
}
use gae.Memory.Memcache.Steps.{Op, step, run, step_keeps}
use gae.Memory.Memcache.{
  Item, DataItem, MemcacheData, empty, word, set_item_locked, del_item_locked, mk_data_item_locked,
  drop_expired, find_locked, count_access, retrieve_locked, swap_found, swap_one, reset,
}

-- `n` writes at most lie between the caches `m₀` and `m`.
pub record IsLater (m₀ : MemcacheData) (n : ℕ) (m : MemcacheData) : Type 0 where
  pub low : m₀.cas_id ≤ m.cas_id
  pub high : m.cas_id ≤ m₀.cas_id + n
  pub old : (k : Bytes) (d : DataItem) → lookup k m.items ≡ some d → d.cas_id ≤ m.cas_id
  pub fresh :
      (k : Bytes) (d : DataItem)
      → lookup k m.items ≡ some d
      → (lookup k m₀.items ≡ some d) ⊎ (m₀.cas_id < d.cas_id)

module _ (m₀ : MemcacheData) (n : ℕ) (room : m₀.cas_id + n + 1 < word) where
  set-IsLater :
      (now : ℕ) (i : Item) (m : MemcacheData)
      → IsLater m₀ n m
      → IsLater m₀ (n + 1) (set_item_locked now i m)
  unfolding set_item_locked mk_data_item_locked
  set-IsLater now i m l = record {
    low = ground (arith, l.low, l.high);
    high = ground (arith, l.low, l.high);
    old = λ k d h. ground (
      arith,
      l.low,
      l.high,
      l.old k d,
      lookup-insert i.key k (mk_data_item_locked now i m).0 m.items,
    );
    fresh = λ k d h. elim (Bool-cases (same_bytes i.key k)) [
      | inl e ↦ inr (
          ground (
            arith,
            e,
            l.low,
            l.high,
            lookup-insert i.key k (mk_data_item_locked now i m).0 m.items,
          ))
      | inr e ↦
          l.fresh k d
            (ground (arith, e, lookup-insert i.key k (mk_data_item_locked now i m).0 m.items))
    ];
  }

  delete-IsLater :
      (k : Bytes) (m : MemcacheData) → IsLater m₀ n m → IsLater m₀ n (del_item_locked k m)
  unfolding del_item_locked
  delete-IsLater k m l = record {
    low = l.low;
    high = l.high;
    old = λ j d h. l.old j d (ground (arith, lookup-delete k j m.items));
    fresh = λ j d h. l.fresh j d (ground (arith, lookup-delete k j m.items));
  }

  reset-IsLater : (m : MemcacheData) → IsLater m₀ n m → IsLater m₀ n (reset m)
  unfolding reset lookup
  reset-IsLater m l = record {
    low = l.low;
    high = l.high;
    old = λ j d h. absurd (cc);
    fresh = λ j d h. absurd (cc);
  }

  step-IsLater :
      (now : ℕ) (op : Op) (m : MemcacheData) → IsLater m₀ n m → IsLater m₀ (n + 1) (step now op m)
  step-IsLater =
      step_keeps (IsLater m₀ n) (IsLater m₀ (n + 1)) set-IsLater delete-IsLater
        (λ s m l e. record { low = l.low; high = l.high; old = l.old; fresh = l.fresh })
        reset-IsLater
        (λ m l. record { low = l.low; high = omega (arith, l.high); old = l.old; fresh = l.fresh })

run-IsLater :
    (ops : List (ℕ × Op)) (m₀ : MemcacheData) (n : ℕ) (m : MemcacheData)
    → m₀.cas_id + n + length ops < word
    → IsLater m₀ n m
    → IsLater m₀ (n + length ops) (run ops m)
unfolding run
run-IsLater [] m₀ n m room l = record {
  low = l.low;
  high = omega (arith, l.high);
  old = l.old;
  fresh = l.fresh;
}
run-IsLater ((now, op) ∷ ops) m₀ n m room l =
    let r =
      run-IsLater ops m₀ (n + 1) (step now op m) (omega arith)
        (step-IsLater m₀ n (omega arith) now op m l) in
    record { low = r.low; high = omega (arith, r.high); old = r.old; fresh = r.fresh }

-- What a swap that succeeds has found.
swap_found_item :
    (now : ℕ) (i : Item) (m : MemcacheData)
    → (swap_one now i m).0 ≡ none
    → (d : DataItem) × (lookup i.key m.items ≡ some d) × (d.cas_id ≡ i.cas_id)
unfolding swap_one swap_found retrieve_locked find_locked drop_expired count_access
swap_found_item now i m h = elim (Option-cases (lookup i.key m.items)) [
  | inl e ↦ absurd (ground (arith, e, h))
  | inr (d, e) ↦ (d, e, ground (arith, e, h))
]

empty-IsLater : IsLater empty 0 empty
unfolding lookup
empty-IsLater = record {
  low = omega arith;
  high = omega arith;
  old = λ j d h. absurd (cc);
  fresh = λ j d h. absurd (cc);
}

-- A swap that carries the CAS ID of an item that was in the cache succeeds only if that very item is
-- still under the key, whatever was done to the cache in between. The cache was empty at first, and
-- saw fewer than 2^64 steps in all.
pub swap-detects_writes :
    (before after : List (ℕ × Op)) (now : ℕ) (i : Item) (d : DataItem)
    → length before + length after < word
    → lookup i.key (run before empty).items ≡ some d
    → i.cas_id ≡ d.cas_id
    → (swap_one now i (run after (run before empty))).0 ≡ none
    → lookup i.key (run after (run before empty)).items ≡ some d
swap-detects_writes before after now i d room there same done =
    let m = run before empty in
    let first = run-IsLater before empty 0 empty (omega arith) empty-IsLater in
    let start : IsLater m 0 m = record {
      low = omega arith;
      high = omega arith;
      old = first.old;
      fresh = λ k e h. inl h;
    } in
    let later = run-IsLater after m 0 m (omega (arith, first.high)) start in
    let (e, found, id) = swap_found_item now i (run after m) done in
    elim (later.fresh i.key e found) [
      | inl was ↦ ground (arith, found, was, there)
      | inr new ↦ absurd (omega (arith, new, id, same, first.old i.key d there))
    ]
