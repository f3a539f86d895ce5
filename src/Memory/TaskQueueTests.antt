-- ===== src/Memory/TaskQueueTests.antt =====
-- Runs of the task queue, and its theorems at concrete inputs.
use gae.Prelude.{
  ◌&&◌, not, ℕ, ◌≡◌, ◌≤◌, ◌+◌, refl, none, some, List, [], ◌∷◌, length, true, false, pos, codes,
  lookup, insert, arith, Bytes, if◌then◌else◌, same_bytes, cmp_bytes,
}
use gae.Memory.TaskQueue.Task.{
  valid_task_name, check_tasks, check_task, with_eta, with_method, with_http, Task, pull,
  invalid_queue_mode, task_already_added, tombstoned_task, check_many_tasks, prep_task,
}
use gae.Memory.TaskQueue.Index.{add, remove, extract, less}
use gae.Memory.TaskQueue.Index.Find.{find}
use gae.Memory.TaskQueue.Queue.{
  Queue, leased, new_sorted_queue, add_task, delete_task, lease_tasks, lease_all, lease_sec,
  take_out, add_to_indexes, remove_from_indexes, remove_per_tag, per_tag, gen_task_name, digits,
}
use gae.Memory.TaskQueue.Queue.Steps.{Op, run}
use gae.Memory.TaskQueue.Queue.Storing.{IsConsistent}
use gae.Memory.TaskQueue.Queue.Consistency.{run-AreIndexes}
use gae.Memory.TaskQueue.Queue.Granting.{tasks_of}
use gae.Memory.TaskQueue.Queue.Leasing.{lease-excludes}
use gae.Memory.TaskQueue.Queue.Oldest.{lease-takes_oldest}
use gae.Memory.TaskQueue.Queue.Tombstones.{delete_task-stays_deleted}
use gae.Memory.TaskQueue.Data.{get_queue_locked}
use gae.Memory.TaskQueue.Transaction.{
  gen_names, add_locked, add_names, commit_queues, commit_tasks, Both, make_txn, count_tasks,
  add_multi, commit,
}
use gae.Memory.TaskQueue.Transaction.Limit.{answers_of, added_count, add_multi-limit}

abbrev task : Bytes → ℕ → Task
task name eta = record {
  path = [];
  payload = [];
  header = [];
  method = pull;
  name = name;
  delay = pos 0;
  eta = pos eta;
  tag = codes "t";
}

abbrev early : Task
early = task (codes "a") 5

abbrev late : Task
late = task (codes "b") 7

abbrev new_queue : Queue
new_queue = new_sorted_queue length (codes "q") true

-- Two tasks were added, the later first.
abbrev queue : Queue
queue = run (Op.put late ∷ Op.put early ∷ []) new_queue

run-AreIndexes_example : IsConsistent queue
run-AreIndexes_example = run-AreIndexes length (codes "q") true (Op.put late ∷ Op.put early ∷ [])

-- For two seconds.
abbrev leased_early : Task
leased_early = task (codes "a") 2000000006

leases_early :
    (lease_tasks (pos 6) (pos 1) (pos 2000000000) false [] queue).0 ≡ leased (leased_early ∷ [])
unfolding lease_tasks lease_all lease_sec take_out extract run add_task add_to_indexes add less
    per_tag insert lookup same_bytes cmp_bytes new_sorted_queue
leases_early = refl

found_early :
    find (codes "a") (tasks_of (lease_tasks (pos 6) (pos 1) (pos 2000000000) false [] queue).0)
    ≡ some leased_early
unfolding find same_bytes cmp_bytes
found_early = rw leases_early refl

lease-excludes_example :
    find (codes "a") (
      tasks_of
        (lease_tasks (pos 100) (pos 9) (pos 0) true (codes "t") (
          run
            (Op.lease (pos 8) (pos 9) (pos 0) false [] ∷ Op.discard late ∷ [])
            (lease_tasks (pos 6) (pos 1) (pos 2000000000) false [] queue).1)).0)
    ≡ none
lease-excludes_example =
    lease-excludes queue (pos 6) (pos 1) (pos 2000000000) false [] (codes "a") leased_early
      (Op.lease (pos 8) (pos 9) (pos 0) false [] ∷ Op.discard late ∷ []) (pos 100) (pos 9) (pos 0)
      true (codes "t") (run-AreIndexes length (codes "q") true (Op.put late ∷ Op.put early ∷ []))
      found_early (refl, (tt, tt)) refl

stores_late : lookup (codes "b") queue.tasks ≡ some late
unfolding run add_task add_to_indexes add less per_tag insert lookup same_bytes cmp_bytes
    new_sorted_queue
stores_late = refl

leases_one :
    (lease_tasks (pos 9) (pos 1) (pos 0) false [] queue).0 ≡ leased (task (codes "a") 9 ∷ [])
unfolding lease_tasks lease_all lease_sec take_out extract run add_task add_to_indexes add less
    per_tag insert lookup same_bytes cmp_bytes new_sorted_queue
leases_one = refl

not_late : find (codes "b") (tasks_of (lease_tasks (pos 9) (pos 1) (pos 0) false [] queue).0) ≡ none
unfolding find same_bytes cmp_bytes
not_late = rw leases_one refl

is_pull : queue.is_pull_queue ≡ true
unfolding run add_task add_to_indexes add less per_tag insert lookup same_bytes cmp_bytes
    new_sorted_queue
is_pull = refl

lease-takes_oldest_example :
    (length (tasks_of (lease_tasks (pos 9) (pos 1) (pos 0) false [] queue).0) ≡ 1)
    × ((m : Bytes) (u v : Task)
        → find m (tasks_of (lease_tasks (pos 9) (pos 1) (pos 0) false [] queue).0) ≡ some u
        → lookup m queue.tasks ≡ some v
        → less late v ≡ false)
unfolding lease_sec
lease-takes_oldest_example =
    lease-takes_oldest (pos 9) (pos 0) 0 0 queue (codes "b") late
      (run-AreIndexes length (codes "q") true (Op.put late ∷ Op.put early ∷ [])) is_pull refl
      stores_late refl not_late

deletes_late : (delete_task late queue).0 ≡ none
unfolding delete_task remove_from_indexes remove_per_tag remove run add_task add_to_indexes add less
    per_tag insert lookup same_bytes cmp_bytes new_sorted_queue
deletes_late = refl

delete_task-stays_deleted_example :
    (add_task (task (codes "b") 1) (run (Op.gen_name ∷ []) (delete_task late queue).1) ≡ (
      (if same_bytes pull pull
            && not (run (Op.gen_name ∷ []) (delete_task late queue).1).is_pull_queue
          then some invalid_queue_mode
          else if not (same_bytes pull pull)
              && (run (Op.gen_name ∷ []) (delete_task late queue).1).is_pull_queue
          then some invalid_queue_mode
          else some task_already_added),
      run (Op.gen_name ∷ []) (delete_task late queue).1,
    ))
    × (delete_task (task (codes "b") 1) (run (Op.gen_name ∷ []) (delete_task late queue).1)
        ≡ (some tombstoned_task, run (Op.gen_name ∷ []) (delete_task late queue).1))
delete_task-stays_deleted_example =
    delete_task-stays_deleted late (task (codes "b") 1) queue (Op.gen_name ∷ []) deletes_late refl
      (tt, tt)

abbrev both : Both
both = record {
  parent = record {
    queues = (codes "q", queue) ∷ [];
    constraints = record { max_add_size = pos 0; max_delete_size = pos 0 };
  };
  txn = make_txn;
}

abbrev post : Task
post = record (task [] 0) { method = codes "POST" }

-- Seven tasks; two are too many.
abbrev seven : List Task
seven = post ∷ post ∷ post ∷ post ∷ post ∷ post ∷ post ∷ []

add_multi-limit_example :
    (count_tasks (add_multi (pos 3) [] seven (codes "q") both).1.txn.anony
      ≡ count_tasks both.txn.anony
        + added_count (answers_of (add_multi (pos 3) [] seven (codes "q") both).0))
    × (count_tasks (add_multi (pos 3) [] seven (codes "q") both).1.txn.anony ≤ 5)
add_multi-limit_example =
    add_multi-limit (pos 3) [] seven (codes "q") both (unfold count_tasks in omega arith)

-- A task that is no pull task is taken by the transaction for a pull queue, and the commit panics.
commit_panics :
    (count_tasks (add_multi (pos 3) [] (post ∷ []) (codes "q") both).1.txn.anony ≡ 1)
    × (commit (add_multi (pos 3) [] (post ∷ []) (codes "q") both).1 ≡ none)
unfolding add_multi commit count_tasks check_many_tasks check_tasks check_task same_bytes
    get_queue_locked lookup add_names gen_names add_locked prep_task gen_task_name digits run
    add_task new_sorted_queue with_eta with_method with_http commit_queues commit_tasks insert
    cmp_bytes valid_task_name add_to_indexes add less per_tag
commit_panics = (refl, refl)
