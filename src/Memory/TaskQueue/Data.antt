-- ===== src/Memory/TaskQueue/Data.antt =====
-- impl/memory/taskqueue_data.go: taskQueueData, and impl/memory/taskqueue.go: the service outside of
-- transactions. Each operation takes the time and the namespace where Go reads them from the context, and
-- returns what it answers with the new data.
use gae.Prelude.{
  ℕ, Bool, true, false, Option, none, some, List, [], ◌∷◌, Bytes, codes, same_bytes, if◌then◌else◌,
  ℤ, pos, lookup, insert,
}
use gae.Memory.TaskQueue.Task.{
  Task, Error, Failure, one, unknown_queue, check_many_tasks, prep_task, task_namespace,
}
use gae.Memory.TaskQueue.Queue.{
  Queue, Leased, Modified, Statistics, new_sorted_queue, gen_task_name, add_task, delete_task,
  lease_tasks, modify_task_lease, purge, get_stats, is_some,
}

pub record Constraints : Type 0 where
  pub max_add_size : ℤ
  pub max_delete_size : ℤ

pub record TaskQueueData : Type 0 where
  pub queues : List (Bytes × Queue)
  pub constraints : Constraints

-- The constraints of production are an argument.
unfoldable pub new_task_queue_data : (Bytes → ℕ) → Constraints → TaskQueueData
new_task_queue_data sum64 constraints = record {
  queues = (codes "default", new_sorted_queue sum64 (codes "default") false) ∷ [];
  constraints = constraints;
}

abbrev pub queue_key : Bytes → Bytes
queue_key name = if same_bytes name [] then codes "default" else name

unfoldable pub get_queue_locked : Bytes → TaskQueueData → Option Queue
get_queue_locked name d = lookup (queue_key name) d.queues

-- The queue that was found is changed in place.
abbrev pub set_queue : Bytes → Queue → TaskQueueData → TaskQueueData
set_queue name q d = record d { queues = insert (queue_key name) q d.queues }

-- What the callback of `AddMulti` is told of a task; a panic ends the loop.
pub data Added : Type 0 where
  added : Task → Added
  not_added : Error → Added
  panicked : Added

abbrev pub answer : Option Error → Task → Added
answer none t = added t
answer (some e) t = not_added e

abbrev pub task_name : Task → Queue → Bytes × Queue
task_name t q = if same_bytes t.name [] then gen_task_name q else (t.name, q)

abbrev add_prepared : Option Task → Queue → Added × Queue
add_prepared none q = (panicked, q)
add_prepared (some t) q = let (e, q') = add_task t q in (answer e t, q')

unfoldable pub add_one : ℤ → Bytes → Task → Queue → Added × Queue
add_one now ns t q =
    let (name, q') = task_name t q in add_prepared (prep_task now t name q.name ns) q'

abbrev go_on : Added × Queue → (Queue → List Added × Queue) → List Added × Queue
go_on (panicked, q) f = (panicked ∷ [], q)
go_on (a, q) f = let (rest, q') = f q in (a ∷ rest, q')

unfoldable pub add_loop : ℤ → Bytes → List Task → Queue → List Added × Queue
add_loop now ns [] q = ([], q)
add_loop now ns (t ∷ ts) q = go_on (add_one now ns t q) (add_loop now ns ts)

pub data Answers (A : Type 0) : Type 0 where
  answers : A → Answers A
  failed : Failure → Answers A

abbrev add_to_queue :
    ℤ
    → Bytes
    → List Task
    → Bytes
    → Option Queue
    → TaskQueueData
    → Answers (List Added) × TaskQueueData
add_to_queue now ns tasks name none d = (failed (one unknown_queue), d)
add_to_queue now ns tasks name (some q) d =
    let (rs, q') = add_loop now ns tasks q in (answers rs, set_queue name q' d)

abbrev add_checked :
    ℤ
    → Bytes
    → List Task
    → Bytes
    → Option Failure
    → TaskQueueData
    → Answers (List Added) × TaskQueueData
add_checked now ns tasks name (some f) d = (failed f, d)
add_checked now ns tasks name none d = add_to_queue now ns tasks name (get_queue_locked name d) d

unfoldable pub add_multi :
    ℤ → Bytes → List Task → Bytes → TaskQueueData → Answers (List Added) × TaskQueueData
add_multi now ns tasks queue_name d =
    add_checked now ns tasks queue_name (check_many_tasks false tasks) d

unfoldable pub delete_loop : List Task → Queue → List (Option Error) × Queue
delete_loop [] q = ([], q)
delete_loop (t ∷ ts) q =
    let (e, q') = delete_task t q in let (es, q'') = delete_loop ts q' in (e ∷ es, q'')

-- An operation on one queue of the data.
abbrev pub on_queue :
    {A : Type 0}
    → Bytes
    → (Queue → A × Queue)
    → Option Queue
    → TaskQueueData
    → Answers A × TaskQueueData
on_queue name f none d = (failed (one unknown_queue), d)
on_queue name f (some q) d = let (a, q') = f q in (answers a, set_queue name q' d)

unfoldable pub delete_multi :
    List Task → Bytes → TaskQueueData → Answers (List (Option Error)) × TaskQueueData
delete_multi tasks queue_name d =
    on_queue queue_name (delete_loop tasks) (get_queue_locked queue_name d) d

unfoldable pub lease : ℤ → ℤ → Bytes → ℤ → TaskQueueData → Answers Leased × TaskQueueData
lease now max_tasks queue_name lease_time d =
    on_queue queue_name (lease_tasks now max_tasks lease_time false [])
      (get_queue_locked queue_name d) d

unfoldable pub lease_by_tag :
    ℤ → ℤ → Bytes → ℤ → Bytes → TaskQueueData → Answers Leased × TaskQueueData
lease_by_tag now max_tasks queue_name lease_time tag d =
    on_queue queue_name (lease_tasks now max_tasks lease_time true tag)
      (get_queue_locked queue_name d) d

unfoldable pub modify_lease :
    ℤ → Task → Bytes → ℤ → TaskQueueData → Answers Modified × TaskQueueData
modify_lease now t queue_name lease_time d =
    on_queue queue_name (modify_task_lease now t lease_time) (get_queue_locked queue_name d) d

unfoldable pub purge_locked : Bytes → TaskQueueData → Answers (Unit {0}) × TaskQueueData
purge_locked queue_name d =
    on_queue queue_name (λ q. (tt, purge q)) (get_queue_locked queue_name d) d

abbrev stats_of : Option Queue → Option Statistics
stats_of none = none
stats_of (some q) = some (get_stats q)

-- None stands for errUnknownQueue.
unfoldable pub stats : List Bytes → TaskQueueData → List (Option Statistics)
stats [] d = []
stats (name ∷ names) d = stats_of (get_queue_locked name d) ∷ stats names d

-- None is a panic.
unfoldable pub create_queue_internal :
    (Bytes → ℕ) → Bytes → Bool → TaskQueueData → Option TaskQueueData
create_queue_internal sum64 name is_pull_queue d =
    if is_some (lookup name d.queues)
    then none
    else some
        (record d { queues = insert name (new_sorted_queue sum64 name is_pull_queue) d.queues })

unfoldable pub create_queue : (Bytes → ℕ) → Bytes → TaskQueueData → Option TaskQueueData
create_queue sum64 name d = create_queue_internal sum64 name false d

unfoldable pub create_pull_queue : (Bytes → ℕ) → Bytes → TaskQueueData → Option TaskQueueData
create_pull_queue sum64 name d = create_queue_internal sum64 name true d

abbrev purge_all : List (Bytes × Queue) → List (Bytes × Queue)
purge_all [] = []
purge_all ((n, q) ∷ qs) = (n, purge q) ∷ purge_all qs

unfoldable pub reset_tasks : TaskQueueData → TaskQueueData
reset_tasks d = record d { queues = purge_all d.queues }

abbrev of_namespace : Bytes → List (Bytes × Task) → List (Bytes × Task)
of_namespace ns [] = []
of_namespace ns ((n, t) ∷ ts) =
    let rest = of_namespace ns ts in
    if same_bytes (task_namespace t) ns then (n, t) ∷ rest else rest

abbrev tasks_by_queue :
    Bytes
    → (Queue → List (Bytes × Task))
    → List (Bytes × Queue)
    → List (Bytes × List (Bytes × Task))
tasks_by_queue ns f [] = []
tasks_by_queue ns f ((n, q) ∷ qs) = (n, of_namespace ns (f q)) ∷ tasks_by_queue ns f qs

unfoldable pub get_scheduled_tasks : Bytes → TaskQueueData → List (Bytes × List (Bytes × Task))
get_scheduled_tasks ns d = tasks_by_queue ns (λ q. q.tasks) d.queues

unfoldable pub get_tombstoned_tasks : Bytes → TaskQueueData → List (Bytes × List (Bytes × Task))
get_tombstoned_tasks ns d = tasks_by_queue ns (λ q. q.archived) d.queues

abbrev or_no_constraints : Option Constraints → Constraints
or_no_constraints none = record { max_add_size = pos 0; max_delete_size = pos 0 }
or_no_constraints (some c) = c

unfoldable pub set_constraints : Option Constraints → TaskQueueData → TaskQueueData
set_constraints c d = record d { constraints = or_no_constraints c }
