-- ===== src/Memory/TaskQueue/Transaction.antt =====
-- impl/memory/taskqueue_data.go: txnTaskQueueData and its commit, and impl/memory/taskqueue.go: the service
-- in a transaction.
pub mod Limit
use gae.Prelude.{
  ℕ, suc, ◌+◌, ◌≤◌, ◌≡◌, refl, not, Bool, true, false, Option, none, some, List, [], ◌∷◌, ◌++◌,
  length, ltb, arith, Bytes, same_bytes, same_bytes_iff, if◌then◌else◌, ℤ, lookup, insert,
  Bool-cases, inl, inr, length-append, ap, ◌∙◌, sym,
}
use gae.Memory.TaskQueue.Task.{
  Task, Error, Failure, one, unknown_queue, bad_request, check_many_tasks, prep_task,
  task_namespace,
}
use gae.Memory.TaskQueue.Queue.{Queue, gen_task_name, add_task}
use gae.Memory.TaskQueue.Data.{
  TaskQueueData, Added, added, not_added, panicked, Answers, answers, failed, get_queue_locked,
  set_queue, reset_tasks,
}

pub record TxnData : Type 0 where
  pub closed : Bool
  pub anony : List (Bytes × List Task)

abbrev pub make_txn : TxnData
make_txn = record { closed = false; anony = [] }

-- None is a panic.
unfoldable pub end_txn : TxnData → Option TxnData
end_txn t = if t.closed then none else some (record t { closed = true })

unfoldable pub count_tasks : List (Bytes × List Task) → ℕ
count_tasks [] = 0
count_tasks ((n, ts) ∷ m) = length ts + count_tasks m

abbrev or_nil : Option (List Task) → List Task
or_nil none = []
or_nil (some ts) = ts

abbrev schedule : Option Task → Bytes → TxnData → Added × TxnData
schedule none queue_name t = (panicked, t)
schedule (some task) queue_name t = (
  added task,
  record t { anony = insert queue_name (or_nil (lookup queue_name t.anony) ++ task ∷ []) t.anony },
)

unfoldable pub add_locked : ℤ → Bytes → Task → Bytes → Bytes → TxnData → Added × TxnData
add_locked now ns task task_name queue_name t =
    if ltb 5 (count_tasks t.anony + 1)
    then (not_added bad_request, t)
    else schedule (prep_task now task task_name queue_name ns) queue_name t

-- A name for each task.
unfoldable pub gen_names : List Task → Queue → List (Task × Bytes) × Queue
gen_names [] q = ([], q)
gen_names (task ∷ tasks) q =
    let (name, q') = gen_task_name q in
    let (names, q'') = gen_names tasks q' in ((task, name) ∷ names, q'')

abbrev go_on : Added × TxnData → (TxnData → List Added × TxnData) → List Added × TxnData
go_on (panicked, t) f = (panicked ∷ [], t)
go_on (a, t) f = let (rest, t') = f t in (a ∷ rest, t')

unfoldable pub add_names : ℤ → Bytes → Bytes → List (Task × Bytes) → TxnData → List Added × TxnData
add_names now ns queue_name [] t = ([], t)
add_names now ns queue_name ((task, name) ∷ rest) t =
    go_on (add_locked now ns task name queue_name t) (add_names now ns queue_name rest)

pub record Both : Type 0 where
  pub parent : TaskQueueData
  pub txn : TxnData

abbrev add_to_queue :
    ℤ → Bytes → List Task → Bytes → Option Queue → Both → Answers (List Added) × Both
add_to_queue now ns tasks name none b = (failed (one unknown_queue), b)
add_to_queue now ns tasks name (some q) b =
    let (names, q') = gen_names tasks q in
    let (rs, t) = add_names now ns q.name names b.txn in
    (answers rs, record { parent = set_queue name q' b.parent; txn = t })

abbrev add_checked :
    ℤ → Bytes → List Task → Bytes → Option Failure → Both → Answers (List Added) × Both
add_checked now ns tasks name (some f) b = (failed f, b)
add_checked now ns tasks name none b =
    add_to_queue now ns tasks name (get_queue_locked name b.parent) b

-- `assertTxnValid`, which asks the context, passed.
unfoldable pub add_multi : ℤ → Bytes → List Task → Bytes → Both → Answers (List Added) × Both
add_multi now ns tasks queue_name b =
    add_checked now ns tasks queue_name (check_many_tasks true tasks) b

abbrev unless_error : Option Error × Queue → (Queue → Option Queue) → Option Queue
unless_error (none, q) f = f q
unless_error (some e, q) f = none

-- The tasks of a queue at the commit; none is a panic, as is a queue that is missing.
unfoldable pub commit_tasks : List Task → Queue → Option Queue
commit_tasks [] q = some q
commit_tasks (t ∷ ts) q = unless_error (add_task t q) (commit_tasks ts)

abbrev commit_into : Bytes → Option Queue → TaskQueueData → Option TaskQueueData
commit_into name none d = none
commit_into name (some q) d = some (record d { queues = insert name q d.queues })

abbrev commit_found : Bytes → List Task → Option Queue → TaskQueueData → Option TaskQueueData
commit_found name [] q d = some d
commit_found name (t ∷ ts) none d = none
commit_found name (t ∷ ts) (some q) d = commit_into name (commit_tasks (t ∷ ts) q) d

abbrev and_then : {A B : Type 0} → Option A → (A → Option B) → Option B
and_then none f = none
and_then (some a) f = f a

-- `apply`, over the queues in the order of the list.
unfoldable pub commit_queues : List (Bytes × List Task) → TaskQueueData → Option TaskQueueData
commit_queues [] d = some d
commit_queues ((name, ts) ∷ m) d =
    and_then (commit_found name ts (lookup name d.queues) d) (commit_queues m)

abbrev commit_txn : TxnData → Option TaskQueueData → Option Both
commit_txn t none = none
commit_txn t (some d) = some (record { parent = d; txn = record t { anony = [] } })

unfoldable pub commit : Both → Option Both
commit b = commit_txn b.txn (commit_queues b.txn.anony b.parent)

abbrev no_tasks : List (Bytes × List Task) → List (Bytes × List Task)
no_tasks [] = []
no_tasks ((n, ts) ∷ m) = (n, []) ∷ no_tasks m

unfoldable pub reset_both : Both → Both
reset_both b = record {
  parent = reset_tasks b.parent;
  txn = record b.txn { anony = no_tasks b.txn.anony };
}

-- Go leaves a nil in the place of a task of another namespace.
abbrev visible : Bytes → List Task → List (Option Task)
visible ns [] = []
visible ns (t ∷ ts) = (if same_bytes (task_namespace t) ns then some t else none) ∷ visible ns ts

abbrev visible_by_queue : Bytes → List (Bytes × List Task) → List (Bytes × List (Option Task))
visible_by_queue ns [] = []
visible_by_queue ns ((n, ts) ∷ m) = (n, visible ns ts) ∷ visible_by_queue ns m

unfoldable pub get_transaction_tasks : Bytes → TxnData → List (Bytes × List (Option Task))
get_transaction_tasks ns t = visible_by_queue ns t.anony
