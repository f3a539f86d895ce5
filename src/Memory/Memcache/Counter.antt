-- ===== src/Memory/Memcache/Counter.antt =====
-- `Increment`: counters are kept as eight bytes, and read back as the number that was stored.
use gae.Prelude.{
  ℕ, zero, suc, ◌+◌, ◌-◌, ◌%◌, ◌/◌, ◌^◌, ◌<◌, pos, negsuc, pos_part, neg_part, ◌≡◌, refl, ap,
  Option, some, length, arith, ℤ, Bytes, lookup, lookup-insert_self,
}
use gae.Memory.Memcache.{
  DataItem, MemcacheData, Result, ok, err, word, set_item_locked, mk_data_item_locked, drop_expired,
  find_locked, count_access, retrieve_locked, store_sum, increment, current_value, put_bytes,
  get_bytes, add_delta, new_item, expired, expiration_of,
}

get_bytes-put_bytes : (k n : ℕ) → n < 256 ^ k → get_bytes (put_bytes k n) ≡ n
unfolding get_bytes put_bytes
get_bytes-put_bytes zero n h = omega arith
get_bytes-put_bytes (suc k) n h = omega (arith, get_bytes-put_bytes k (n / 256) (omega arith))

length-put_bytes : (k n : ℕ) → length (put_bytes k n) ≡ k
unfolding put_bytes
length-put_bytes zero n = refl
length-put_bytes (suc k) n = ap suc (length-put_bytes k (n / 256))

-- The counter `v` stands under the key, without an expiry.
Holds : Bytes → ℕ → MemcacheData → Type 0
Holds k v m =
    (d : DataItem) × (lookup k m.items ≡ some d) × (d.value ≡ put_bytes 8 v) × (d.expiration ≡ 0)

store_sum-Holds :
    (now : ℕ) (k : Bytes) (delta : ℤ) (r : Result ℕ) (m : MemcacheData) (v : ℕ)
    → (store_sum now k delta r m).0 ≡ ok v
    → Holds k v (store_sum now k delta r m).1
unfolding store_sum set_item_locked mk_data_item_locked Holds new_item expiration_of
store_sum-Holds now k delta (err e) m v h = absurd (cc)
store_sum-Holds now k delta (ok cur) m v h = (_, lookup-insert_self k _ m.items, ground arith, refl)

retrieve-Holds :
    (now : ℕ) (k : Bytes) (init : Option ℕ) (v : ℕ) (m : MemcacheData)
    → v < word
    → Holds k v m
    → current_value (retrieve_locked now k m).0 init ≡ ok v
unfolding retrieve_locked find_locked drop_expired count_access current_value Holds expired
retrieve-Holds now k init v m room (d, there, val, exp) =
    ground (arith, there, val, exp, length-put_bytes 8 v, get_bytes-put_bytes 8 v)

-- The wrap-around has no part in a negative delta, as the counter is below 2^64.
add_delta-sum : (b : ℤ) (v : ℕ) → v < word → add_delta b v ≡ (v + pos_part b - neg_part b) % word
unfolding add_delta
add_delta-sum (pos n) v room = omega arith
add_delta-sum (negsuc n) v room = ground (arith, room)

-- An `Increment` right after one that answered `v` answers `v` and its own delta, whatever the times
-- and the initial values: a negative delta stops at 0, and a sum wraps at 2^64. `v` is below 2^64.
pub increment-increment :
    (now now' : ℕ) (k : Bytes) (a b : ℤ) (init init' : Option ℕ) (m : MemcacheData) (v : ℕ)
    → (increment now k a init m).0 ≡ ok v
    → v < word
    → (increment now' k b init' (increment now k a init m).1).0
      ≡ ok ((v + pos_part b - neg_part b) % word)
unfolding increment
increment-increment now now' k a b init init' m v h room =
    let (r, m') = retrieve_locked now k m in
    rw
      (retrieve-Holds now' k init' v _ room (store_sum-Holds now k a (current_value r init) m' v h))
      (unfold store_sum in ap ok (add_delta-sum b v room))
