-- ===== src/Memory/Tests.antt =====
-- Runs of the cache model, and its theorems at concrete inputs.
use gae.Prelude.{
  ℕ, ◌≡◌, refl, arith, ◌+◌, ◌-◌, ◌%◌, ◌^◌, none, some, List, [], ◌∷◌, pos, negsuc, codes, lookup,
  insert, same_bytes, cmp_bytes,
}
use gae.Memory.Memcache.{
  Item, DataItem, ok, cas_conflict, empty, increment, swap_one, add_delta, set_one, set_item_locked,
  mk_data_item_locked, forget, expiration_of, get_one, retrieve_locked, find_locked, drop_expired,
  count_access, user_result, swap_found, store_sum, current_value, expired,
}
use gae.Memory.Memcache.Steps.{Op, set, get, run, step}
use gae.Memory.Memcache.Consistency.{IsConsistent, run-IsConsistent}
use gae.Memory.Memcache.Swap.{swap-detects_writes}
use gae.Memory.Memcache.Counter.{increment-increment}

abbrev item_of : ℕ → ℕ → Item
item_of v c = record { key = codes "k"; value = v ∷ []; flags = 0; expiration = pos 0; cas_id = c }

abbrev stored : DataItem
stored = record { value = 1 ∷ []; flags = 0; expiration = 0; cas_id = 1 }

abbrev first_write : List (ℕ × Op)
first_write = (5, set (item_of 1 0)) ∷ []

abbrev one_read : List (ℕ × Op)
one_read = (6, get (codes "k")) ∷ []

-- A second write makes the swap of what was read first fail.
swap_after_write :
    (swap_one 8 (item_of 3 1) (run ((5, set (item_of 1 0)) ∷ (7, set (item_of 2 0)) ∷ []) empty)).0
    ≡ some cas_conflict
unfolding run step swap_one swap_found set_one set_item_locked mk_data_item_locked forget
    expiration_of retrieve_locked find_locked drop_expired count_access expired lookup insert
    cmp_bytes same_bytes
swap_after_write = refl

run-IsConsistent_example : IsConsistent (run (first_write) empty)
run-IsConsistent_example =
    run-IsConsistent first_write empty (record { unique = tt; counted = refl; sized = refl })

swap-detects_writes_example :
    lookup (codes "k") (run one_read (run first_write empty)).items ≡ some stored
unfolding run step swap_one swap_found set_one get_one user_result set_item_locked
    mk_data_item_locked forget expiration_of retrieve_locked find_locked drop_expired count_access
    expired lookup insert cmp_bytes same_bytes
swap-detects_writes_example =
    swap-detects_writes first_write one_read 8 (item_of 3 1) stored (omega arith) refl refl refl

increment-increment_example :
    (increment 9 (codes "n") (negsuc 2) none (increment 8 (codes "n") (pos 2) (some 5) empty).1).0
    ≡ ok ((7 + 0 - 3) % 2 ^ 64)
unfolding increment retrieve_locked find_locked drop_expired count_access current_value store_sum
    add_delta lookup
increment-increment_example =
    increment-increment 8 9 (codes "n") (pos 2) (negsuc 2) (some 5) none empty 7 refl (omega arith)
