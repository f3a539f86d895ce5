-- ===== src/Memory/TaskQueue/Queue/Tombstones.antt =====
-- The name of a deleted task stays taken.
use gae.Prelude.{
  ℕ, ◌≡◌, ◌≢◌, refl, sym, ap, ◌∙◌, true, false, not, ◌&&◌, Option, none, some, List, [], ◌∷◌, All,
  arith, Bytes, same_bytes, same_bytes_iff, if◌then◌else◌, ℤ, lookup, insert, lookup-insert,
  Bool-cases, inl, inr,
}
use gae.Memory.TaskQueue.Task.{
  Task, Error, pull, task_already_added, invalid_queue_mode, tombstoned_task,
}
use gae.Memory.TaskQueue.Queue.{
  Queue, is_some, add_task, delete_task, archive, lease_all, lease_end, take_out, take_tagged,
  add_to_indexes, remove_from_indexes, remove_per_tag, set_eta, gen_task_name,
}
use gae.Memory.TaskQueue.Index.{extract}
use gae.Memory.TaskQueue.Queue.Steps.{
  Op, step, run, archived, add_keeps, delete_keeps, lease_keeps, modify_keeps,
}
use gae.Memory.TaskQueue.Queue.Taking.{remove_all_sorted-tags, remove_all_per_tag-sorted}
use gae.Memory.TaskQueue.Queue.Returning.{push_back-kept}

abbrev IsTombstone : Bytes → Queue → Type 0
IsTombstone n q = is_some (lookup n q.archived) ≡ true

abbrev pub IsNotClear : Op → Type 0
IsNotClear Op.clear = true ≡ false
IsNotClear _ = Unit

tagged-archived :
    (now : ℤ) (max : ℕ) (tag : Bytes) (index : Option (List Task)) (q : Queue)
    → (take_tagged now max tag index q).1.archived ≡ q.archived
tagged-archived now max tag none q = refl
tagged-archived now max tag (some index) q =
    let (out, rest) = extract now max index in
    ap (λ (q : Queue). q.archived)
      (remove_all_sorted-tags out
        (record q { sorted_per_tag = insert tag rest q.sorted_per_tag })).1

take_out-archived :
    (now : ℤ) (max : ℕ) (tag : Option Bytes) (q : Queue)
    → (take_out now max tag q).1.archived ≡ q.archived
unfolding take_out
take_out-archived now max none q =
    let (out, rest) = extract now max q.sorted in
    ap (λ (q : Queue). q.archived) (remove_all_per_tag-sorted out (record q { sorted = rest })).1
take_out-archived now max (some tag) q = tagged-archived now max tag (lookup tag q.sorted_per_tag) q

lease-archived :
    (now : ℤ) (max sec : ℕ) (tag : Option Bytes) (q : Queue)
    → (lease_all now max sec tag q).1.archived ≡ q.archived
unfolding lease_all
lease-archived now max sec tag q =
    let (out, q') = take_out now max tag q in
    ap (λ (q : Queue). q.archived) (push_back-kept (lease_end now sec) out q')
    ∙ take_out-archived now max tag q

archived-IsTombstone :
    (n name : Bytes) (u : Task) (q : Queue) → IsTombstone n q → IsTombstone n (archived name u q)
archived-IsTombstone n name u q h = ground (arith, lookup-insert name n u q.archived)

step-IsTombstone :
    (n : Bytes) (o : Op) (q : Queue) → IsNotClear o → IsTombstone n q → IsTombstone n (step o q)
unfolding gen_task_name add_to_indexes remove_from_indexes remove_per_tag set_eta
step-IsTombstone n Op.gen_name q s h = h
step-IsTombstone n Op.clear q s h = absurd (cc)
step-IsTombstone n (Op.put t) q s h = add_keeps (IsTombstone n) t q h (λ _ _. (λ _. h, λ _. h))
step-IsTombstone n (Op.discard t) q s h =
    delete_keeps (IsTombstone n) t q h
      (λ u _. (λ _. archived-IsTombstone n t.name u q h, λ _. archived-IsTombstone n t.name u q h))
step-IsTombstone n (Op.lease now max time use_tag tag) q s h =
    lease_keeps (IsTombstone n) now max time use_tag tag q h
      (λ _ m s g. ap (λ a. is_some (lookup n a)) (lease-archived now m s g q) ∙ h)
step-IsTombstone n (Op.modify now t time) q s h =
    modify_keeps (IsTombstone n) now t time q h (λ _ u sec _ _ _. h)

run-IsTombstone :
    (n : Bytes) (ops : List Op) (q : Queue)
    → All IsNotClear ops
    → IsTombstone n q
    → IsTombstone n (run ops q)
unfolding run
run-IsTombstone n [] q s h = h
run-IsTombstone n (o ∷ ops) q (s, ss) h =
    run-IsTombstone n ops (step o q) ss (step-IsTombstone n o q s h)

delete_task-IsTombstone :
    (t : Task) (q : Queue) → (delete_task t q).0 ≡ none → IsTombstone t.name (delete_task t q).1
unfolding delete_task remove_from_indexes remove_per_tag
delete_task-IsTombstone t q h = elim (Bool-cases (is_some (lookup t.name q.archived))) [
  | inl e ↦ absurd (refused_before e h)
  | inr e ↦
      rw e (
        of (lookup t.name q.tasks)
          (ap (λ (r : Option Error × Queue). r.0) (sym (unarchived e)) ∙ h))
]
  where
    refused_before : is_some (lookup t.name q.archived) ≡ true → (delete_task t q).0 ≢ none
    refused_before e h = ground (arith, e, h)

    unarchived :
        is_some (lookup t.name q.archived) ≡ false
        → delete_task t q ≡ archive t.name (lookup t.name q.tasks) q
    unarchived e = rw e refl

    of :
        (o : Option Task)
        → (archive t.name o q).0 ≡ none
        → IsTombstone t.name (archive t.name o q).1
    of none h = absurd (cc)
    of (some u) h =
        ground (arith, lookup-insert t.name t.name u q.archived, same_bytes_iff t.name t.name)

-- After a task is deleted, and whatever is done but to empty the queue, a task of its name is not
-- added: the queue answers that it was, or that the mode is wrong, and stays as it is. To delete the task
-- again is refused, too.
pub delete_task-stays_deleted :
    (t u : Task) (q : Queue) (ops : List Op)
    → (delete_task t q).0 ≡ none
    → u.name ≡ t.name
    → All IsNotClear ops
    → (add_task u (run ops (delete_task t q).1) ≡ (
      (if same_bytes u.method pull && not (run ops (delete_task t q).1).is_pull_queue
          then some invalid_queue_mode
          else if not (same_bytes u.method pull) && (run ops (delete_task t q).1).is_pull_queue
          then some invalid_queue_mode
          else some task_already_added),
      run ops (delete_task t q).1,
    ))
      × (delete_task u (run ops (delete_task t q).1)
          ≡ (some tombstoned_task, run ops (delete_task t q).1))
unfolding add_task delete_task
delete_task-stays_deleted t u q ops d e s = refusals u (run ops (delete_task t q).1) (
    ap (λ n. is_some (lookup n (run ops (delete_task t q).1).archived)) e
    ∙ run-IsTombstone t.name ops (delete_task t q).1 s (delete_task-IsTombstone t q d))
  where
    refusals :
        (u : Task) (q : Queue)
        → is_some (lookup u.name q.archived) ≡ true
        → (add_task u q ≡ (
          (if same_bytes u.method pull && not q.is_pull_queue
              then some invalid_queue_mode
              else if not (same_bytes u.method pull) && q.is_pull_queue
              then some invalid_queue_mode
              else some task_already_added),
          q,
        ))
          × (delete_task u q ≡ (some tombstoned_task, q))
    refusals u q h = (rw h (ground arith), rw h refl)
