-- ===== src/Memory/TaskQueue/Queue.antt =====
-- impl/memory/taskqueue_data.go: sortedQueue. A pointer to a task of a queue is the task: where Go
-- changes the ETA of a task, the task is in no index, and it is put back into all that hold it.
pub mod Indexes
pub mod Taking
pub mod Returning
pub mod Steps
pub mod Storing
pub mod Consistency
pub mod Granting
pub mod Leasing
pub mod Tombstones
pub mod Oldest
use gae.Prelude.{
  ℕ, zero, suc, ◌+◌, ◌/◌, ◌%◌, ◌*◌, ◌^◌, ◌||◌, ◌&&◌, not, Bool, true, false, Option, none, some,
  List, [], ◌∷◌, ◌++◌, Bytes, same_bytes, ltb, leb, ◌==◌, if◌then◌else◌, ℤ, pos, negsuc, ltb_ℤ,
  eqb_ℤ, ◌+ℤ◌, lookup, insert, delete, length,
}
use gae.Memory.TaskQueue.Task.{
  Task, Error, pull, bad_request, tombstoned_task, unknown_task, invalid_queue_mode,
  task_lease_expired, task_already_added, impossible_call,
}
use gae.Memory.TaskQueue.Index.{add, remove, peek, extract}

pub record Queue : Type 0 where
  pub name : Bytes
  pub is_pull_queue : Bool
  pub next_auto_gen_id : ℕ
  pub tasks : List (Bytes × Task)
  pub archived : List (Bytes × Task)
  pub sorted : List Task
  pub sorted_per_tag : List (Bytes × List Task)

-- `sum64` is the hash of hash/fnv.
unfoldable pub new_sorted_queue : (Bytes → ℕ) → Bytes → Bool → Queue
new_sorted_queue sum64 name is_pull_queue = record {
  name = name;
  is_pull_queue = is_pull_queue;
  next_auto_gen_id = sum64 name;
  tasks = [];
  archived = [];
  sorted = [];
  sorted_per_tag = [];
}

-- The decimal digits of a number below 10^20, with `left` digits left to write at most.
unfoldable pub digits : ℕ → ℕ → Bytes → Bytes
digits zero n acc = acc
digits (suc left) n acc = elim (ltb n 10) [
  | true ↦ (48 + n) ∷ acc
  | false ↦ digits left (n / 10) ((48 + n % 10) ∷ acc)
]

-- A 64-bit number has at most 20 digits.
unfoldable pub gen_task_name : Queue → Bytes × Queue
gen_task_name q =
    let id = (q.next_auto_gen_id + 1) % (2 ^ 64) in
    (digits 20 id [], record q { next_auto_gen_id = id })

abbrev pub is_some : {A : Type 0} → Option A → Bool
is_some none = false
is_some (some a) = true

abbrev or_nil : Option (List Task) → List Task
or_nil none = []
or_nil (some ts) = ts

-- The index of a tag, empty if there is none. Go removes from the index of a tag only where there is one.
unfoldable pub per_tag : Bytes → Queue → List Task
per_tag tag q = or_nil (lookup tag q.sorted_per_tag)

-- Both indexes of a task.
unfoldable pub add_to_indexes : Task → Queue → Queue
add_to_indexes t q = record q {
  sorted = add t q.sorted;
  sorted_per_tag = insert t.tag (add t (per_tag t.tag q)) q.sorted_per_tag;
}

unfoldable pub remove_per_tag : Task → Queue → Queue
remove_per_tag t q = record q {
  sorted_per_tag = insert t.tag (remove t (per_tag t.tag q)) q.sorted_per_tag;
}

unfoldable pub remove_from_indexes : Task → Queue → Queue
remove_from_indexes t q = remove_per_tag t (record q { sorted = remove t q.sorted })

abbrev pub stored : Task → Queue → Queue
stored t q = record q { tasks = insert t.name t q.tasks }

abbrev store : Task → Queue → Option Error × Queue
store t q = if q.is_pull_queue then (none, add_to_indexes t (stored t q)) else (none, stored t q)

abbrev add_named : Task → Queue → Option Error × Queue
add_named t q =
    if is_some (lookup t.name q.archived)
    then (some task_already_added, q)
    else if is_some (lookup t.name q.tasks)
    then (some task_already_added, q)
    else store t q

unfoldable pub add_task : Task → Queue → Option Error × Queue
add_task t q =
    if same_bytes t.method pull && not q.is_pull_queue
    then (some invalid_queue_mode, q)
    else if not (same_bytes t.method pull) && q.is_pull_queue
    then (some invalid_queue_mode, q)
    else add_named t q

abbrev archive : Bytes → Option Task → Queue → Option Error × Queue
archive name none q = (some unknown_task, q)
archive name (some t) q =
    let q' = record q { archived = insert name t q.archived; tasks = delete name q.tasks } in
    if q.is_pull_queue then (none, remove_from_indexes t q') else (none, q')

unfoldable pub delete_task : Task → Queue → Option Error × Queue
delete_task task q =
    if is_some (lookup task.name q.archived)
    then (some tombstoned_task, q)
    else archive task.name (lookup task.name q.tasks) q

abbrev pub second : ℕ
second = 1000000000

-- `int(leaseTime / time.Second)`, unless it is negative.
unfoldable pub lease_sec : ℤ → Option ℕ
lease_sec (pos n) = some (n / second)
lease_sec (negsuc n) = if ltb (n + 1) second then some 0 else none

abbrev pub lease_end : ℤ → ℕ → ℤ
lease_end now sec = now +ℤ pos (sec * second)

-- The ETA of a task is its pointer's: of the task that is stored, too.
unfoldable pub set_eta : ℤ → Task → Queue → Queue
set_eta eta t q =
    let t' = record t { eta = eta } in
    add_to_indexes t' (record q { tasks = insert t.name t' q.tasks })

unfoldable pub push_back : ℤ → List Task → Queue → Queue
push_back eta [] q = q
push_back eta (t ∷ ts) q = push_back eta ts (set_eta eta t q)

unfoldable pub remove_all_sorted : List Task → Queue → Queue
remove_all_sorted [] q = q
remove_all_sorted (t ∷ ts) q = remove_all_sorted ts (record q { sorted = remove t q.sorted })

unfoldable pub remove_all_per_tag : List Task → Queue → Queue
remove_all_per_tag [] q = q
remove_all_per_tag (t ∷ ts) q = remove_all_per_tag ts (remove_per_tag t q)

abbrev take_tagged : ℤ → ℕ → Bytes → Option (List Task) → Queue → List Task × Queue
take_tagged now max tag none q = ([], q)
take_tagged now max tag (some index) q =
    let (out, rest) = extract now max index in
    (out, remove_all_sorted out (record q { sorted_per_tag = insert tag rest q.sorted_per_tag }))

-- The tasks taken out of all indexes, of the tag if one is given.
unfoldable pub take_out : ℤ → ℕ → Option Bytes → Queue → List Task × Queue
take_out now max none q =
    let (out, rest) = extract now max q.sorted in
    (out, remove_all_per_tag out (record q { sorted = rest }))
take_out now max (some tag) q = take_tagged now max tag (lookup tag q.sorted_per_tag) q

pub data Leased : Type 0 where
  leased : List Task → Leased
  refused : Error → Leased

abbrev with_etas : ℤ → List Task → List Task
with_etas eta [] = []
with_etas eta (t ∷ ts) = record t { eta = eta } ∷ with_etas eta ts

unfoldable pub lease_all : ℤ → ℕ → ℕ → Option Bytes → Queue → Leased × Queue
lease_all now max sec tag q =
    let (out, q') = take_out now max tag q in
    (leased (with_etas (lease_end now sec) out), push_back (lease_end now sec) out q')

-- The tag of the first ready task is taken where none is given.
abbrev lease_first_tag : ℤ → ℕ → ℕ → Option Task → Queue → Leased × Queue
lease_first_tag now max sec none q = (leased [], q)
lease_first_tag now max sec (some t) q =
    if ltb_ℤ now t.eta then (leased [], q) else lease_all now max sec (some t.tag) q

abbrev lease_for : ℤ → ℤ → Option ℕ → Bool → Bytes → Queue → Leased × Queue
lease_for now max none use_tag tag q = (refused bad_request, q)
lease_for now (negsuc max) (some sec) use_tag tag q = (refused bad_request, q)
lease_for now (pos max) (some sec) use_tag tag q =
    if not use_tag && not (same_bytes tag [])
    then (refused impossible_call, q)
    else if not use_tag
    then lease_all now max sec none q
    else if same_bytes tag []
    then lease_first_tag now max sec (peek q.sorted) q
    else lease_all now max sec (some tag) q

-- `impossible_call` is a panic.
unfoldable pub lease_tasks : ℤ → ℤ → ℤ → Bool → Bytes → Queue → Leased × Queue
lease_tasks now max_tasks lease_time use_tag tag q =
    if not q.is_pull_queue
    then (refused invalid_queue_mode, q)
    else if not (ltb_ℤ (pos 0) max_tasks)
    then (refused bad_request, q)
    else lease_for now max_tasks (lease_sec lease_time) use_tag tag q

-- The ETA that the caller's task gets, or the error.
pub data Modified : Type 0 where
  modified : ℤ → Modified
  not_modified : Error → Modified

abbrev modify_found : ℤ → ℤ → ℕ → Option Task → Queue → Modified × Queue
modify_found now cookie sec none q = (not_modified unknown_task, q)
modify_found now cookie sec (some t) q =
    if not (eqb_ℤ t.eta cookie)
    then (not_modified task_lease_expired, q)
    else if ltb_ℤ t.eta now
    then (not_modified task_lease_expired, q)
    else (modified (lease_end now sec), set_eta (lease_end now sec) t (remove_from_indexes t q))

abbrev modify_for : ℤ → Task → Option ℕ → Queue → Modified × Queue
modify_for now t none q = (not_modified bad_request, q)
modify_for now t (some sec) q =
    if is_some (lookup t.name q.archived)
    then (not_modified tombstoned_task, q)
    else modify_found now t.eta sec (lookup t.name q.tasks) q

unfoldable pub modify_task_lease : ℤ → Task → ℤ → Queue → Modified × Queue
modify_task_lease now t lease_time q =
    if not q.is_pull_queue
    then (not_modified invalid_queue_mode, q)
    else modify_for now t (lease_sec lease_time) q

unfoldable pub purge : Queue → Queue
purge q = record q { tasks = []; archived = []; sorted = []; sorted_per_tag = [] }

pub record Statistics : Type 0 where
  pub tasks : ℕ
  pub oldest_eta : ℤ

-- The loop of `getStats`.
unfoldable pub oldest_from : ℤ → List (Bytes × Task) → ℤ
oldest_from oldest [] = oldest
oldest_from oldest ((n, t) ∷ ts) =
    oldest_from
      (if eqb_ℤ oldest (pos 0) then t.eta else if ltb_ℤ t.eta oldest then t.eta else oldest) ts

unfoldable pub get_stats : Queue → Statistics
get_stats q = record { tasks = length q.tasks; oldest_eta = oldest_from (pos 0) q.tasks }
