-- ===== src/Memory/TaskQueue/Transaction/Limit.antt =====
-- A transaction holds at most five tasks.
use gae.Prelude.{
  ℕ, suc, ◌+◌, ◌≤◌, ◌≡◌, refl, true, false, Option, none, some, List, [], ◌∷◌, ◌++◌, ltb, arith,
  Bytes, ℤ, lookup, insert, Bool-cases, inl, inr, length-append,
}
use gae.Memory.TaskQueue.Task.{Task, Failure, check_many_tasks, prep_task}
use gae.Memory.TaskQueue.Queue.{Queue}
use gae.Memory.TaskQueue.Data.{
  Added, added, not_added, panicked, Answers, answers, failed, get_queue_locked,
}
use gae.Memory.TaskQueue.Transaction.{
  TxnData, Both, count_tasks, or_nil, schedule, add_locked, go_on, add_names, gen_names,
  add_to_queue, add_checked, add_multi,
}

count-insert :
    (n : Bytes) (t : Task) (m : List (Bytes × List Task))
    → count_tasks (insert n (or_nil (lookup n m) ++ t ∷ []) m) ≡ count_tasks m + 1
unfolding count_tasks insert lookup
count-insert n t [] = refl
count-insert n t ((k, ts) ∷ m) = ground (arith, length-append ts (t ∷ []), count-insert n t m)

-- How many tasks were added.
abbrev pub added_count : List Added → ℕ
added_count [] = 0
added_count (added t ∷ rs) = suc (added_count rs)
added_count (not_added e ∷ rs) = added_count rs
added_count (panicked ∷ rs) = added_count rs

-- The answers count the tasks that the transaction has more, and there is no sixth.
pub record IsCounted (t : TxnData) (r : List Added × TxnData) : Type 0 where
  pub counts : count_tasks r.1.anony ≡ count_tasks t.anony + added_count r.0
  pub limited : count_tasks t.anony ≤ 5 → count_tasks r.1.anony ≤ 5

schedule-IsCounted :
    (o : Option Task) (name : Bytes) (t : TxnData)
    → ltb 5 (count_tasks t.anony + 1) ≡ false
    → IsCounted t ((schedule o name t).0 ∷ [], (schedule o name t).1)
schedule-IsCounted none name t l = record { counts = omega arith; limited = λ h. h }
schedule-IsCounted (some u) name t l = record {
  counts = count-insert name u t.anony;
  limited = λ h. ground (arith, count-insert name u t.anony, l);
}

locked-IsCounted :
    (now : ℤ) (ns : Bytes) (u : Task) (name queue_name : Bytes) (t : TxnData)
    → IsCounted t
        ((add_locked now ns u name queue_name t).0 ∷ [], (add_locked now ns u name queue_name t).1)
unfolding add_locked
locked-IsCounted now ns u name queue_name t = elim (Bool-cases (ltb 5 (count_tasks t.anony + 1))) [
  | inl e ↦ rw e (record { counts = omega arith; limited = λ h. h })
  | inr e ↦ rw e (schedule-IsCounted (prep_task now u name queue_name ns) queue_name t e)
]

go_on-IsCounted :
    (t : TxnData) (r : Added × TxnData) (f : TxnData → List Added × TxnData)
    → IsCounted t (r.0 ∷ [], r.1)
    → ((s : TxnData) → IsCounted s (f s))
    → IsCounted t (go_on r f)
go_on-IsCounted t (added u, s) f i h = record {
  counts = ground (arith, i.counts, (h s).counts);
  limited = λ l. (h s).limited (i.limited l);
}
go_on-IsCounted t (not_added e, s) f i h = record {
  counts = ground (arith, i.counts, (h s).counts);
  limited = λ l. (h s).limited (i.limited l);
}
go_on-IsCounted t (panicked, s) f i h = i

names-IsCounted :
    (now : ℤ) (ns queue_name : Bytes) (names : List (Task × Bytes)) (t : TxnData)
    → IsCounted t (add_names now ns queue_name names t)
unfolding add_names
names-IsCounted now ns queue_name [] t = record { counts = omega arith; limited = λ h. h }
names-IsCounted now ns queue_name ((u, name) ∷ rest) t =
    go_on-IsCounted t (add_locked now ns u name queue_name t) (add_names now ns queue_name rest)
      (locked-IsCounted now ns u name queue_name t) (names-IsCounted now ns queue_name rest)

abbrev pub answers_of : Answers (List Added) → List Added
answers_of (answers rs) = rs
answers_of (failed f) = []

queue-IsCounted :
    (now : ℤ) (ns : Bytes) (tasks : List Task) (name : Bytes) (o : Option Queue) (b : Both)
    → IsCounted b.txn (
      answers_of (add_to_queue now ns tasks name o b).0,
      (add_to_queue now ns tasks name o b).1.txn,
    )
queue-IsCounted now ns tasks name none b = record { counts = omega arith; limited = λ h. h }
queue-IsCounted now ns tasks name (some q) b =
    names-IsCounted now ns q.name (gen_names tasks q).0 b.txn

-- Adding tasks to a transaction that holds at most five makes it hold as many more as are answered to
-- be added, and at most five.
pub add_multi-limit :
    (now : ℤ) (ns : Bytes) (tasks : List Task) (queue_name : Bytes) (b : Both)
    → count_tasks b.txn.anony ≤ 5
    → (count_tasks (add_multi now ns tasks queue_name b).1.txn.anony
        ≡ count_tasks b.txn.anony
          + added_count (answers_of (add_multi now ns tasks queue_name b).0))
      × (count_tasks (add_multi now ns tasks queue_name b).1.txn.anony ≤ 5)
unfolding add_multi
add_multi-limit now ns tasks queue_name b h = of (check_many_tasks true tasks)
  where
    of :
        (f : Option Failure)
        → (count_tasks (add_checked now ns tasks queue_name f b).1.txn.anony
            ≡ count_tasks b.txn.anony
              + added_count (answers_of (add_checked now ns tasks queue_name f b).0))
          × (count_tasks (add_checked now ns tasks queue_name f b).1.txn.anony ≤ 5)
    of (some f) = (omega arith, h)
    of none =
        let i = queue-IsCounted now ns tasks queue_name (get_queue_locked queue_name b.parent) b in
        (i.counts, i.limited h)
