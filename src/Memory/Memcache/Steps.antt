-- ===== src/Memory/Memcache/Steps.antt =====
-- The operations of the cache as steps, and the rule for invariants of all of them.
use gae.Prelude.{
  ℕ, ◌≡◌, refl, Bool, true, false, Option, none, some, List, [], ◌∷◌, if◌then◌else◌, ℤ, Bytes,
  lookup,
}
use gae.Memory.Memcache.{
  Item, DataItem, Statistics, MemcacheData, Result, ok, err, set_item_locked, del_item_locked,
  drop_expired, find_locked, has_item_locked, count_access, retrieve_locked, add_unless, add_one,
  swap_found, swap_one, set_one, user_result, get_one, delete_found, delete_one, flush, reset,
  store_sum, increment,
}

pub data Op : Type 0 where
  add swap set : Item → Op
  get delete : Bytes → Op
  flush_all : Op
  incr : Bytes → ℤ → Option ℕ → Op

-- The cache after one operation at a time.
unfoldable pub step : ℕ → Op → MemcacheData → MemcacheData
step now (add i) m = (add_one now i m).1
step now (swap i) m = (swap_one now i m).1
step now (set i) m = (set_one now i m).1
step now (get k) m = (get_one now k m).1
step now (delete k) m = (delete_one now k m).1
step now flush_all m = flush m
step now (incr k d v) m = (increment now k d v m).1

unfoldable pub run : List (ℕ × Op) → MemcacheData → MemcacheData
run [] m = m
run ((now, op) ∷ ops) m = run ops (step now op m)

-- The counts of hits and misses change, and nothing else does.
abbrev pub SameCounts : Statistics → Statistics → Type 0
SameCounts s t = (s.items ≡ t.items) × (s.bytes ≡ t.bytes)

-- `P` before a step gives `Q` after it, if a write turns `P` into `Q` and all else keeps `P`.
module _ (P Q : MemcacheData → Type 0)
    (on_set : (now : ℕ) (i : Item) (m : MemcacheData) → P m → Q (set_item_locked now i m))
    (on_delete : (k : Bytes) (m : MemcacheData) → P m → P (del_item_locked k m))
    (on_access : (s : Statistics) (m : MemcacheData)
      → P m
      → SameCounts m.stats s
      → P (record m { stats = s }))
    (on_reset : (m : MemcacheData) → P m → P (reset m))
    (weaken : (m : MemcacheData) → P m → Q m) where
  branch :
      {A : Type 0} (R : MemcacheData → Type 0) (b : Bool) (x y : A × MemcacheData)
      → R x.1
      → R y.1
      → R (if b then x else y).1
  branch R true x y p q = p
  branch R false x y p q = q

  find_keeps :
      (now : ℕ) (k : Bytes) (o : Option DataItem) (m : MemcacheData)
      → P m
      → P (drop_expired now k o m).1
  unfolding drop_expired
  find_keeps now k none m p = p
  find_keeps now k (some d) m p = branch P _ _ _ (on_delete k m p) p

  access_keeps : (r : Option DataItem × MemcacheData) → P r.1 → P (count_access r).1
  unfolding count_access
  access_keeps (none, m) p = on_access _ m p (refl, refl)
  access_keeps (some d, m) p = on_access _ m p (refl, refl)

  retrieve_keeps : (now : ℕ) (k : Bytes) (m : MemcacheData) → P m → P (retrieve_locked now k m).1
  unfolding retrieve_locked find_locked
  retrieve_keeps now k m p = access_keeps _ (find_keeps now k (lookup k m.items) m p)

  add_keeps : (now : ℕ) (i : Item) (r : Bool × MemcacheData) → P r.1 → Q (add_unless now i r).1
  unfolding add_unless
  add_keeps now i (false, m) p = on_set now i m p
  add_keeps now i (true, m) p = weaken m p

  swap_keeps :
      (now : ℕ) (i : Item) (r : Result DataItem × MemcacheData) → P r.1 → Q (swap_found now i r).1
  unfolding swap_found
  swap_keeps now i (err e, m) p = weaken m p
  swap_keeps now i (ok d, m) p = branch Q _ _ _ (on_set now i m p) (weaken m p)

  get_keeps : (k : Bytes) (r : Result DataItem × MemcacheData) → P r.1 → P (user_result k r).1
  unfolding user_result
  get_keeps k (err e, m) p = p
  get_keeps k (ok d, m) p = p

  delete_keeps : (k : Bytes) (r : Result DataItem × MemcacheData) → P r.1 → P (delete_found k r).1
  unfolding delete_found
  delete_keeps k (err e, m) p = p
  delete_keeps k (ok d, m) p = on_delete k m p

  sum_keeps :
      (now : ℕ) (k : Bytes) (delta : ℤ) (r : Result ℕ) (m : MemcacheData)
      → P m
      → Q (store_sum now k delta r m).1
  unfolding store_sum
  sum_keeps now k delta (err e) m p = weaken m p
  sum_keeps now k delta (ok v) m p = on_set now _ m p

  pub step_keeps : (now : ℕ) (op : Op) (m : MemcacheData) → P m → Q (step now op m)
  unfolding step add_one swap_one set_one get_one delete_one flush increment has_item_locked
      find_locked
  step_keeps now (add i) m p = add_keeps now i _ (find_keeps now i.key (lookup i.key m.items) m p)
  step_keeps now (swap i) m p = swap_keeps now i _ (retrieve_keeps now i.key m p)
  step_keeps now (set i) m p = on_set now i m p
  step_keeps now (get k) m p = weaken _ (get_keeps k _ (retrieve_keeps now k m p))
  step_keeps now (delete k) m p = weaken _ (delete_keeps k _ (retrieve_keeps now k m p))
  step_keeps now flush_all m p = weaken _ (on_reset m p)
  step_keeps now (incr k d v) m p = sum_keeps now k d _ _ (retrieve_keeps now k m p)
