-- ===== src/Memory/TaskQueue/Queue/Leasing.antt =====
-- A leased task is not leased again before its new ETA.
use gae.Prelude.{
  ℕ, ◌≡◌, ◌≢◌, refl, sym, ap, ◌∙◌, Bool, true, false, Option, none, some, List, [], ◌∷◌, All, arith,
  Bytes, same_bytes, same_bytes_iff, ℤ, ltb_ℤ, lookup, insert, lookup-insert, lookup-delete,
  Bool-cases, inl, inr,
}
use gae.Memory.TaskQueue.Task.{Task}
use gae.Memory.TaskQueue.Index.Find.{find}
use gae.Memory.TaskQueue.Queue.{
  Queue, Leased, lease_tasks, lease_end, is_some, add_to_indexes, remove_from_indexes,
  remove_per_tag, set_eta, gen_task_name, stored,
}
use gae.Memory.TaskQueue.Queue.Steps.{
  Op, step, run, archived, add_keeps, delete_keeps, modify_keeps,
}
use gae.Memory.TaskQueue.Queue.Storing.{IsConsistent}
use gae.Memory.TaskQueue.Queue.Consistency.{step-IsConsistent}
use gae.Memory.TaskQueue.Queue.Granting.{tasks_of, IsGranted, lease-IsGranted}

-- The task under the name has the ETA, or is gone for good.
abbrev IsHeld : Bytes → ℤ → Queue → Type 0
IsHeld n eta q =
    ((t : Task) → lookup n q.tasks ≡ some t → t.eta ≡ eta)
    × (lookup n q.tasks ≡ none → is_some (lookup n q.archived) ≡ true)

-- Operations before the time that neither empty the queue nor change the lease.
abbrev pub Spares : Bytes → ℤ → Op → Type 0
Spares n eta Op.clear = true ≡ false
Spares n eta (Op.modify now t time) = t.name ≢ n
Spares n eta (Op.lease now max time use_tag tag) = ltb_ℤ now eta ≡ true
Spares n eta _ = Unit

IsHeld-same :
    (n : Bytes) (eta : ℤ) (q r : Queue)
    → lookup n r.tasks ≡ lookup n q.tasks
    → r.archived ≡ q.archived
    → IsHeld n eta q
    → IsHeld n eta r
IsHeld-same n eta q r e a (h, k) =
    (λ t x. h t (sym e ∙ x), λ x. ap (λ m. is_some (lookup n m)) a ∙ k (sym e ∙ x))

never_before :
    (n : Bytes) (now eta : ℤ) (q : Queue) (r : Leased × Queue)
    → IsHeld n eta q
    → ltb_ℤ now eta ≡ true
    → IsGranted n now q r
    → find n (tasks_of r.0) ≡ none
never_before n now eta q r (h, k) b l = of (find n (tasks_of r.0)) refl
  where
    early : (t : Task) → lookup n q.tasks ≡ some t → ltb_ℤ now t.eta ≢ false
    early t x y = ground (arith, h t x)

    of : (o : Option Task) → find n (tasks_of r.0) ≡ o → o ≡ none
    of none e = refl
    of (some u) e = let (t, w) = l.was_ready u e in absurd (early t w.0 w.1)

stored-IsHeld :
    (n : Bytes) (eta : ℤ) (t : Task) (q : Queue)
    → is_some (lookup t.name q.archived) ≡ false
    → is_some (lookup t.name q.tasks) ≡ false
    → IsHeld n eta q
    → IsHeld n eta (stored t q)
stored-IsHeld n eta t q a b (h, k) = elim (Bool-cases (same_bytes t.name n)) [
  | inl e ↦ absurd (differ (not_new ((same_bytes_iff t.name n).0 e) k))
  | inr e ↦
      IsHeld-same n eta q (stored t q) (rw (lookup-insert t.name n t q.tasks, e) refl) refl (h, k)
]
  where
    differ : true ≢ false
    differ e = cc

    none_of : (o : Option Task) → is_some o ≡ false → o ≡ none
    none_of o e = ground arith

    not_new :
        t.name ≡ n → (lookup n q.tasks ≡ none → is_some (lookup n q.archived) ≡ true) → true ≡ false
    not_new e k =
        sym (k (ap (λ n. lookup n q.tasks) (sym e) ∙ none_of (lookup t.name q.tasks) b))
        ∙ ap (λ n. is_some (lookup n q.archived)) (sym e)
        ∙ a

archived-IsHeld :
    (n : Bytes) (eta : ℤ) (name : Bytes) (u : Task) (q : Queue)
    → IsHeld n eta q
    → IsHeld n eta (archived name u q)
archived-IsHeld n eta name u q (h, k) = (
  λ t x. h t (ground (arith, lookup-delete name n q.tasks, x)),
  λ x. ground (arith, lookup-delete name n q.tasks, lookup-insert name n u q.archived, x, k),
)

step-IsHeld :
    (n : Bytes) (eta : ℤ) (o : Op) (q : Queue)
    → IsConsistent q
    → Spares n eta o
    → IsHeld n eta q
    → IsHeld n eta (step o q)
unfolding add_to_indexes remove_from_indexes remove_per_tag set_eta gen_task_name
step-IsHeld n eta Op.gen_name q i s h = h
step-IsHeld n eta Op.clear q i s h = absurd (cc)
step-IsHeld n eta (Op.put t) q i s h =
    add_keeps (IsHeld n eta) t q h
      (λ a b. (λ _. stored-IsHeld n eta t q a b h, λ _. stored-IsHeld n eta t q a b h))
step-IsHeld n eta (Op.discard t) q i s h =
    delete_keeps (IsHeld n eta) t q h
      (λ u _. (λ _. archived-IsHeld n eta t.name u q h, λ _. archived-IsHeld n eta t.name u q h))
step-IsHeld n eta (Op.lease now max time use_tag tag) q i s h =
    let l = lease-IsGranted n now max time use_tag tag q i in
    let r = lease_tasks now max time use_tag tag q in
    IsHeld-same n eta q r.1 (l.is_kept (never_before n now eta q r h s l)) l.same_archived h
step-IsHeld n eta (Op.modify now t time) q i s h =
    modify_keeps (IsHeld n eta) now t time q h (λ _ u sec e _ _.
      IsHeld-same n eta q (set_eta (lease_end now sec) u (remove_from_indexes u q))
        (lookup-other u sec e) refl h)
  where
    lookup-other :
        (u : Task) (sec : ℕ)
        → lookup t.name q.tasks ≡ some u
        → lookup n (insert u.name (record u { eta = lease_end now sec }) q.tasks) ≡ lookup n q.tasks
    lookup-other u sec e = ground (
      arith,
      lookup-insert u.name n (record u { eta = lease_end now sec }) q.tasks,
      same_bytes_iff u.name n,
      i.named t.name u e,
    )

run-IsHeld :
    (n : Bytes) (eta : ℤ) (ops : List Op) (q : Queue)
    → IsConsistent q
    → All (Spares n eta) ops
    → IsHeld n eta q
    → IsConsistent (run ops q) × IsHeld n eta (run ops q)
unfolding run
run-IsHeld n eta [] q i s h = (i, h)
run-IsHeld n eta (o ∷ ops) q i (s, ss) h =
    run-IsHeld n eta ops (step o q) (step-IsConsistent o q i) ss (step-IsHeld n eta o q i s h)

-- A task that was leased is not leased again before its new ETA, whatever is done before that ETA,
-- unless the queue is emptied or the lease of the task is modified.
pub lease-excludes :
    (q : Queue) (now max time : ℤ) (use_tag : Bool) (tag n : Bytes) (u : Task) (ops : List Op)
    (now' max' time' : ℤ) (use_tag' : Bool) (tag' : Bytes)
    → IsConsistent q
    → find n (tasks_of (lease_tasks now max time use_tag tag q).0) ≡ some u
    → All (Spares n u.eta) ops
    → ltb_ℤ now' u.eta ≡ true
    → find n (
        tasks_of
          (lease_tasks now' max' time' use_tag' tag'
            (run ops (lease_tasks now max time use_tag tag q).1)).0)
      ≡ none
lease-excludes q now max time use_tag tag n u ops now' max' time' use_tag' tag' i e s b =
    let l = lease-IsGranted n now max time use_tag tag q i in
    let after = (lease_tasks now max time use_tag tag q).1 in
    let (c, h) =
      run-IsHeld n u.eta ops after (step-IsConsistent (Op.lease now max time use_tag tag) q i) s
        (is_held after (l.is_stored u e)) in
    never_before n now' u.eta (run ops after) _ h b
      (lease-IsGranted n now' max' time' use_tag' tag' (run ops after) c)
  where
    is_held : (q : Queue) → lookup n q.tasks ≡ some u → IsHeld n u.eta q
    is_held q x = (λ t y. ground (arith, x, y), λ y. absurd (ground (arith, x, y)))
