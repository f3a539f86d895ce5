-- ===== src/Memory/TaskQueue/Queue/Steps.antt =====
-- The operations on a queue, one at a time under the lock.
use gae.Prelude.{
  Bool-cases, inl, inr, if◌then◌else◌, ℕ, ◌≡◌, refl, List, [], ◌∷◌, Bool, true, false, not, ◌&&◌,
  Option, none, some, Bytes, ℤ, pos, negsuc, lookup, insert, delete, arith, same_bytes, ltb_ℤ,
  eqb_ℤ,
}
use gae.Memory.TaskQueue.Task.{Task, Error, pull, invalid_queue_mode, bad_request, impossible_call}
use gae.Memory.TaskQueue.Index.{peek}
use gae.Memory.TaskQueue.Queue.{
  Queue, gen_task_name, add_task, delete_task, lease_tasks, modify_task_lease, purge, is_some,
  add_to_indexes, remove_from_indexes, archive, lease_all, lease_for, lease_first_tag, lease_sec,
  lease_end, modify_for, modify_found, set_eta, store, stored, add_named, Leased, leased, refused,
}

-- With the time where the operation reads it.
pub data Op : Type 0 where
  gen_name clear : Op
  put discard : Task → Op
  lease : ℤ → ℤ → ℤ → Bool → Bytes → Op
  modify : ℤ → Task → ℤ → Op

abbrev pub step : Op → Queue → Queue
step Op.gen_name q = (gen_task_name q).1
step Op.clear q = purge q
step (Op.put t) q = (add_task t q).1
step (Op.discard t) q = (delete_task t q).1
step (Op.lease now max time use_tag tag) q = (lease_tasks now max time use_tag tag q).1
step (Op.modify now t time) q = (modify_task_lease now t time q).1

unfoldable pub run : List Op → Queue → Queue
run [] q = q
run (o ∷ os) q = run os (step o q)

-- The queue after a task is archived.
abbrev pub archived : Bytes → Task → Queue → Queue
archived name t q = record q { archived = insert name t q.archived; tasks = delete name q.tasks }

-- What a lease answers and leaves.
module _ (R : Leased × Queue → Type 0) where
  first_tag_any :
      (now : ℤ) (max sec : ℕ) (o : Option Task) (q : Queue)
      → R (leased [], q)
      → ((max sec : ℕ) (tag : Option Bytes) → R (lease_all now max sec tag q))
      → R (lease_first_tag now max sec o q)
  first_tag_any now max sec none q p h = p
  first_tag_any now max sec (some t) q p h = elim (Bool-cases (ltb_ℤ now t.eta)) [
    | inl e ↦ rw e p
    | inr e ↦ rw e (h max sec (some t.tag))
  ]

  for_any :
      (now max : ℤ) (sec : Option ℕ) (use_tag : Bool) (tag : Bytes) (q : Queue)
      → ((e : Error) → R (refused e, q))
      → R (leased [], q)
      → ((max sec : ℕ) (tag : Option Bytes) → R (lease_all now max sec tag q))
      → R (lease_for now max sec use_tag tag q)
  for_any now max none use_tag tag q r p h = r bad_request
  for_any now (negsuc max) (some sec) use_tag tag q r p h = r bad_request
  for_any now (pos max) (some sec) use_tag tag q r p h =
      elim (Bool-cases (not use_tag && not (same_bytes tag []))) [
        | inl e ↦ rw e (r impossible_call)
        | inr e ↦ elim (Bool-cases (not use_tag)) [
          | inl f ↦ rw (e, f) (h max sec none)
          | inr f ↦ elim (Bool-cases (same_bytes tag [])) [
            | inl g ↦ rw (e, f, g) (first_tag_any now max sec (peek q.sorted) q p h)
            | inr g ↦ rw (e, f, g) (h max sec (some tag))
          ]
        ]
      ]

  pub lease_any :
      (now max time : ℤ) (use_tag : Bool) (tag : Bytes) (q : Queue)
      → ((e : Error) → R (refused e, q))
      → R (leased [], q)
      → (q.is_pull_queue ≡ true
          → (max sec : ℕ) (tag : Option Bytes) → R (lease_all now max sec tag q))
      → R (lease_tasks now max time use_tag tag q)
  unfolding lease_tasks
  lease_any now max time use_tag tag q r p h = elim (Bool-cases (not q.is_pull_queue)) [
    | inl e ↦ rw e (r invalid_queue_mode)
    | inr e ↦ elim (Bool-cases (not (ltb_ℤ (pos 0) max))) [
      | inl f ↦ rw (e, f) (r bad_request)
      | inr f ↦
          rw (e, f) (for_any now max (lease_sec time) use_tag tag q r p (h (ground (arith, e))))
    ]
  ]

-- What an operation keeps, if it keeps it where it changes the queue.
module _ (P : Queue → Type 0) where
  split :
      {A : Type 0} (c : Bool) (x y : A × Queue)
      → (c ≡ true → P x.1)
      → (c ≡ false → P y.1)
      → P (if c then x else y).1
  split true x y h k = h refl
  split false x y h k = k refl

  store_keeps :
      (t : Task) (q : Queue)
      → (q.is_pull_queue ≡ true → P (add_to_indexes t (stored t q)))
        × (q.is_pull_queue ≡ false → P (stored t q))
      → P (store t q).1
  store_keeps t q h = split _ _ _ (λ e. h.0 e) (λ e. h.1 e)

  named_keeps :
      (t : Task) (q : Queue)
      → P q
      → (is_some (lookup t.name q.archived) ≡ false
          → is_some (lookup t.name q.tasks) ≡ false
          → (q.is_pull_queue ≡ true → P (add_to_indexes t (stored t q)))
            × (q.is_pull_queue ≡ false → P (stored t q)))
      → P (add_named t q).1
  named_keeps t q p h = elim (Bool-cases (is_some (lookup t.name q.archived))) [
    | inl a ↦ rw a p
    | inr a ↦ elim (Bool-cases (is_some (lookup t.name q.tasks))) [
      | inl b ↦ rw (a, b) p
      | inr b ↦ rw (a, b) (store_keeps t q (h a b))
    ]
  ]

  pub add_keeps :
      (t : Task) (q : Queue)
      → P q
      → (is_some (lookup t.name q.archived) ≡ false
          → is_some (lookup t.name q.tasks) ≡ false
          → (q.is_pull_queue ≡ true → P (add_to_indexes t (stored t q)))
            × (q.is_pull_queue ≡ false → P (stored t q)))
      → P (add_task t q).1
  unfolding add_task
  add_keeps t q p h =
      split (same_bytes t.method pull && not q.is_pull_queue) (some invalid_queue_mode, q)
        (if not (same_bytes t.method pull) && q.is_pull_queue
          then (some invalid_queue_mode, q)
          else add_named t q)
        (λ _. p)
        (λ _.
          split (not (same_bytes t.method pull) && q.is_pull_queue) (some invalid_queue_mode, q)
            (add_named t q) (λ _. p) (λ _. named_keeps t q p h))

  archive_keeps :
      (name : Bytes) (o : Option Task) (q : Queue)
      → lookup name q.tasks ≡ o
      → P q
      → ((u : Task)
          → lookup name q.tasks ≡ some u
          → (q.is_pull_queue ≡ true → P (remove_from_indexes u (archived name u q)))
            × (q.is_pull_queue ≡ false → P (archived name u q)))
      → P (archive name o q).1
  archive_keeps name none q e p h = p
  archive_keeps name (some u) q e p h = split _ _ _ (λ i. (h u e).0 i) (λ i. (h u e).1 i)

  pub delete_keeps :
      (t : Task) (q : Queue)
      → P q
      → ((u : Task)
          → lookup t.name q.tasks ≡ some u
          → (q.is_pull_queue ≡ true → P (remove_from_indexes u (archived t.name u q)))
            × (q.is_pull_queue ≡ false → P (archived t.name u q)))
      → P (delete_task t q).1
  unfolding delete_task
  delete_keeps t q p h =
      split _ _ _ (λ _. p) (λ _. archive_keeps t.name (lookup t.name q.tasks) q refl p h)

  pub lease_keeps :
      (now max time : ℤ) (use_tag : Bool) (tag : Bytes) (q : Queue)
      → P q
      → (q.is_pull_queue ≡ true
          → (max sec : ℕ) (tag : Option Bytes) → P (lease_all now max sec tag q).1)
      → P (lease_tasks now max time use_tag tag q).1
  lease_keeps now max time use_tag tag q p h =
      lease_any (λ r. P r.1) now max time use_tag tag q (λ _. p) p h

  found_keeps :
      (now cookie : ℤ) (sec : ℕ) (name : Bytes) (o : Option Task) (q : Queue)
      → lookup name q.tasks ≡ o
      → P q
      → ((u : Task) (sec : ℕ)
          → lookup name q.tasks ≡ some u
          → eqb_ℤ u.eta cookie ≡ true
          → ltb_ℤ u.eta now ≡ false
          → P (set_eta (lease_end now sec) u (remove_from_indexes u q)))
      → P (modify_found now cookie sec o q).1
  found_keeps now cookie sec name none q e p h = p
  found_keeps now cookie sec name (some u) q e p h = elim (Bool-cases (not (eqb_ℤ u.eta cookie))) [
    | inl i ↦ rw i p
    | inr i ↦ elim (Bool-cases (ltb_ℤ u.eta now)) [
      | inl j ↦ rw (i, j) p
      | inr j ↦ rw (i, j) (h u sec e (ground (arith, i)) j)
    ]
  ]

  for_modify_keeps :
      (now : ℤ) (t : Task) (sec : Option ℕ) (q : Queue)
      → P q
      → ((u : Task) (sec : ℕ)
          → lookup t.name q.tasks ≡ some u
          → eqb_ℤ u.eta t.eta ≡ true
          → ltb_ℤ u.eta now ≡ false
          → P (set_eta (lease_end now sec) u (remove_from_indexes u q)))
      → P (modify_for now t sec q).1
  for_modify_keeps now t none q p h = p
  for_modify_keeps now t (some sec) q p h =
      split _ _ _ (λ _. p)
        (λ _. found_keeps now t.eta sec t.name (lookup t.name q.tasks) q refl p h)

  pub modify_keeps :
      (now : ℤ) (t : Task) (time : ℤ) (q : Queue)
      → P q
      → (q.is_pull_queue ≡ true
          → (u : Task) (sec : ℕ) → lookup t.name q.tasks ≡ some u
          → eqb_ℤ u.eta t.eta ≡ true
          → ltb_ℤ u.eta now ≡ false
          → P (set_eta (lease_end now sec) u (remove_from_indexes u q)))
      → P (modify_task_lease now t time q).1
  unfolding modify_task_lease
  modify_keeps now t time q p h =
      split _ _ _ (λ _. p)
        (λ e. for_modify_keeps now t (lease_sec time) q p (h (ground (arith, e))))
