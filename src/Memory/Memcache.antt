-- ===== src/Memory/Memcache.antt =====
-- impl/memory/memcache.go: the data of one namespace and the operations on it.
-- A time is a count of nanoseconds from the zero `time.Time`; a `time.Duration` is an integer. The
-- lock is held for one item at a time, so one item is one step here.
pub mod Steps
pub mod Consistency
pub mod Swap
pub mod Counter
use gae.Prelude.{
  ℕ, zero, suc, ◌+◌, ◌-◌, ◌*◌, ◌/◌, ◌%◌, ◌^◌, Bool, true, false, not, ◌&&◌, ◌||◌, Option, none,
  some, List, [], ◌∷◌, length, ltb, ◌==◌, if◌then◌else◌, ℤ, pos, negsuc, pos_part, neg_part, Bytes,
  lookup, insert, delete,
}

-- `mcItem`, which is the `mc.Item` of this implementation.
pub record Item : Type 0 where
  pub key : Bytes
  pub value : Bytes
  pub flags : ℕ
  pub expiration : ℤ
  pub cas_id : ℕ

-- `mcDataItem`
pub record DataItem : Type 0 where
  pub value : Bytes
  pub flags : ℕ
  pub expiration : ℕ
  pub cas_id : ℕ

pub record Statistics : Type 0 where
  pub hits : ℕ
  pub misses : ℕ
  pub byte_hits : ℕ
  pub items : ℕ
  pub bytes : ℕ

pub record MemcacheData : Type 0 where
  pub items : List (Bytes × DataItem)
  pub cas_id : ℕ
  pub stats : Statistics

pub data Error : Type 0 where
  cache_miss not_stored cas_conflict bad_value : Error

pub data Result (A : Type 0) : Type 0 where
  ok : A → Result A
  err : Error → Result A

abbrev pub no_stats : Statistics
no_stats = record { hits = 0; misses = 0; byte_hits = 0; items = 0; bytes = 0 }

abbrev pub empty : MemcacheData
empty = record { items = []; cas_id = 0; stats = no_stats }

abbrev pub word : ℕ
word = 2 ^ 64

abbrev pub second : ℕ
second = 1_000_000_000

abbrev pub inc64 : ℕ → ℕ
inc64 n = (n + 1) % word

abbrev pub dec64 : ℕ → ℕ
dec64 n = (n + word - 1) % word

abbrev pub add64 : ℕ → ℕ → ℕ
add64 a b = (a + b) % word

abbrev pub sub64 : ℕ → ℕ → ℕ
sub64 a b = (a + word - b % word) % word

unfoldable pub new_item : Bytes → Item
new_item k = record { key = k; value = []; flags = 0; expiration = pos 0; cas_id = 0 }

-- `SetAll`: everything but the key is taken from the other item, if there is one.
unfoldable pub set_all : Item → Option Item → Item
set_all m none = new_item m.key
set_all m (some other) = record other { key = m.key }

unfoldable pub to_user_item : Bytes → DataItem → Item
to_user_item k m = record {
  key = k;
  value = m.value;
  flags = m.flags;
  expiration = pos 0;
  cas_id = m.cas_id;
}

-- `now.Add(d).Truncate(time.Second)`; the zero duration means no expiration, the zero time.
unfoldable pub expiration_of : ℕ → ℤ → ℕ
expiration_of now (pos zero) = 0
expiration_of now d = let t = now + pos_part d - neg_part d in t - t % second

unfoldable pub mk_data_item_locked : ℕ → Item → MemcacheData → DataItem × MemcacheData
mk_data_item_locked now i m =
    let c = inc64 m.cas_id in
    (
      record {
        value = i.value;
        flags = i.flags;
        expiration = expiration_of now i.expiration;
        cas_id = c;
      },
      record m { cas_id = c },
    )

-- The statistics without an item that is replaced or deleted.
unfoldable pub forget : Option DataItem → Statistics → Statistics
forget none s = s
forget (some cur) s = record s { items = dec64 s.items; bytes = sub64 s.bytes (length cur.value) }

unfoldable pub set_item_locked : ℕ → Item → MemcacheData → MemcacheData
set_item_locked now i m =
    let s = forget (lookup i.key m.items) m.stats in
    let s' = record s { items = inc64 s.items; bytes = add64 s.bytes (length i.value) } in
    let (d, m') = mk_data_item_locked now i (record m { stats = s' }) in
    record m' { items = insert i.key d m'.items }

unfoldable pub del_item_locked : Bytes → MemcacheData → MemcacheData
del_item_locked k m = record m {
  stats = forget (lookup k m.items) m.stats;
  items = delete k m.items;
}

unfoldable pub reset : MemcacheData → MemcacheData
reset m = record m { stats = no_stats; items = [] }

unfoldable pub expired : ℕ → DataItem → Bool
expired now d = not (d.expiration == 0) && ltb d.expiration now

-- The item under the key, unless it has expired: then it is deleted.
unfoldable pub drop_expired :
    ℕ → Bytes → Option DataItem → MemcacheData → Option DataItem × MemcacheData
drop_expired now k none m = (none, m)
drop_expired now k (some d) m = if expired now d then (none, del_item_locked k m) else (some d, m)

unfoldable pub find_locked : ℕ → Bytes → MemcacheData → Option DataItem × MemcacheData
find_locked now k m = drop_expired now k (lookup k m.items) m

abbrev is_found : Option DataItem → Bool
is_found none = false
is_found (some d) = true

unfoldable pub has_item_locked : ℕ → Bytes → MemcacheData → Bool × MemcacheData
has_item_locked now k m = let (found, m') = find_locked now k m in (is_found found, m')

unfoldable pub count_access : Option DataItem × MemcacheData → Result DataItem × MemcacheData
count_access (none, m) =
    (err cache_miss, record m { stats = record m.stats { misses = inc64 m.stats.misses } })
count_access (some d, m) = (
  ok d,
  record m {
    stats = record m.stats {
      hits = inc64 m.stats.hits;
      byte_hits = add64 m.stats.byte_hits (length d.value);
    };
  },
)

unfoldable pub retrieve_locked : ℕ → Bytes → MemcacheData → Result DataItem × MemcacheData
retrieve_locked now k m = count_access (find_locked now k m)

-- One item of `AddMulti`; the answer is the error, if any.
unfoldable pub add_unless : ℕ → Item → Bool × MemcacheData → Option Error × MemcacheData
add_unless now i (false, m) = (none, set_item_locked now i m)
add_unless now i (true, m) = (some not_stored, m)

unfoldable pub add_one : ℕ → Item → MemcacheData → Option Error × MemcacheData
add_one now i m = add_unless now i (has_item_locked now i.key m)

-- One item of `CompareAndSwapMulti`.
unfoldable pub swap_found : ℕ → Item → Result DataItem × MemcacheData → Option Error × MemcacheData
swap_found now i (err e, m) = (some not_stored, m)
swap_found now i (ok cur, m) =
    if cur.cas_id == i.cas_id then (none, set_item_locked now i m) else (some cas_conflict, m)

unfoldable pub swap_one : ℕ → Item → MemcacheData → Option Error × MemcacheData
swap_one now i m = swap_found now i (retrieve_locked now i.key m)

-- One item of `SetMulti`.
unfoldable pub set_one : ℕ → Item → MemcacheData → Option Error × MemcacheData
set_one now i m = (none, set_item_locked now i m)

-- One key of `GetMulti`.
unfoldable pub user_result : Bytes → Result DataItem × MemcacheData → Result Item × MemcacheData
user_result k (err e, m) = (err e, m)
user_result k (ok d, m) = (ok (to_user_item k d), m)

unfoldable pub get_one : ℕ → Bytes → MemcacheData → Result Item × MemcacheData
get_one now k m = user_result k (retrieve_locked now k m)

-- One key of `DeleteMulti`.
unfoldable pub delete_found : Bytes → Result DataItem × MemcacheData → Option Error × MemcacheData
delete_found k (err e, m) = (some e, m)
delete_found k (ok d, m) = (none, del_item_locked k m)

unfoldable pub delete_one : ℕ → Bytes → MemcacheData → Option Error × MemcacheData
delete_one now k m = delete_found k (retrieve_locked now k m)

unfoldable pub flush : MemcacheData → MemcacheData
flush = reset

-- `doCBs`, and the loops of `GetMulti` and `DeleteMulti`: one step for each item in order, and the
-- answers in order for the callbacks.
module _ {A B : Type 0} (inner : A → MemcacheData → B × MemcacheData) where
  unfoldable pub do_cbs : List A → MemcacheData → List B × MemcacheData
  do_cbs [] m = ([], m)
  do_cbs (i ∷ is) m = let (e, m') = inner i m in let (es, m'') = do_cbs is m' in (e ∷ es, m'')

unfoldable pub add_multi : ℕ → List Item → MemcacheData → List (Option Error) × MemcacheData
add_multi now = do_cbs (add_one now)

unfoldable pub compare_and_swap_multi :
    ℕ → List Item → MemcacheData → List (Option Error) × MemcacheData
compare_and_swap_multi now = do_cbs (swap_one now)

unfoldable pub set_multi : ℕ → List Item → MemcacheData → List (Option Error) × MemcacheData
set_multi now = do_cbs (set_one now)

unfoldable pub get_multi : ℕ → List Bytes → MemcacheData → List (Result Item) × MemcacheData
get_multi now = do_cbs (get_one now)

unfoldable pub delete_multi : ℕ → List Bytes → MemcacheData → List (Option Error) × MemcacheData
delete_multi now = do_cbs (delete_one now)

-- `binary.LittleEndian`: the bytes of a number, lowest first, and back.
unfoldable pub put_bytes : ℕ → ℕ → Bytes
put_bytes zero n = []
put_bytes (suc k) n = n % 256 ∷ put_bytes k (n / 256)

unfoldable pub get_bytes : Bytes → ℕ
get_bytes [] = 0
get_bytes (b ∷ r) = b + 256 * get_bytes r

-- The number that `Increment` starts from.
unfoldable pub current_value : Result DataItem → Option ℕ → Result ℕ
current_value (err cache_miss) (some v) = ok v
current_value (err e) initial = err e
current_value (ok d) initial =
    if not (length d.value == 8) then err bad_value else ok (get_bytes d.value)

unfoldable pub add_delta : ℤ → ℕ → ℕ
add_delta (negsuc n) cur = if ltb cur (suc n) then 0 else cur - suc n
add_delta (pos n) cur = add64 cur n

unfoldable pub store_sum : ℕ → Bytes → ℤ → Result ℕ → MemcacheData → Result ℕ × MemcacheData
store_sum now k delta (err e) m = (err e, m)
store_sum now k delta (ok cur) m =
    let v = add_delta delta cur in
    (ok v, set_item_locked now (record (new_item k) { value = put_bytes 8 v }) m)

unfoldable pub increment : ℕ → Bytes → ℤ → Option ℕ → MemcacheData → Result ℕ × MemcacheData
increment now k delta initial m =
    let (r, m') = retrieve_locked now k m in store_sum now k delta (current_value r initial) m'

unfoldable pub stats : MemcacheData → Statistics
stats m = m.stats
