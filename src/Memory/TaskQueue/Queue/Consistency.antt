-- ===== src/Memory/TaskQueue/Queue/Consistency.antt =====
-- The indexes of a queue hold its tasks, whatever is done to it.
use gae.Prelude.{
  ℕ, ◌≡◌, ◌≢◌, refl, sym, ap, ◌∙◌, Bool, true, Option, none, some, List, [], ◌∷◌, arith, Bytes, ℤ,
  lookup,
}
use gae.Memory.TaskQueue.Task.{Task}
use gae.Memory.TaskQueue.Index.Find.{find, first, without, find-named}
use gae.Memory.TaskQueue.Queue.{
  Queue, new_sorted_queue, is_some, lease_all, lease_end, push_back, take_out, with_etas,
}
use gae.Memory.TaskQueue.Queue.Storing.{
  held_of, IsConsistent, by_lookups, new-IsConsistent, purge-IsConsistent, gen_name-IsConsistent,
  store_pull, store_push, archive_pull, archive_push, modify_pull,
}
use gae.Memory.TaskQueue.Queue.Steps.{
  Op, step, run, add_keeps, delete_keeps, lease_keeps, modify_keeps,
}
use gae.Memory.TaskQueue.Queue.Indexes.{IsTaken, AreIndexes-agree, minus}
use gae.Memory.TaskQueue.Queue.Taking.{AreTakenOut, take_out-AreTakenOut}
use gae.Memory.TaskQueue.Queue.Returning.{
  push_back-AreIndexes, push_back-tasks, push_back-kept, find-with_etas, AreNew,
}

taken_new :
    (held : Bytes → Option Task) (out : List Task) → IsTaken held out → AreNew (minus out held) out
taken_new held out k = record {
  distinct = k.distinct;
  not_held = λ n t h. ap (λ o. without o (held n)) h;
}

-- A lease of any tasks that `take_out` answers.
lease_pull :
    (eta : ℤ) (q : Queue) (r : List Task × Queue)
    → q.is_pull_queue ≡ true
    → AreTakenOut (held_of q) q r
    → IsConsistent q
    → IsConsistent (push_back eta r.0 r.1)
lease_pull eta q r p k i =
    by_lookups (λ n. first (find n (with_etas eta r.0)) (lookup n q.tasks)) _
      (λ n.
        push_back-tasks eta r.0 r.1 n k.taken.distinct
        ∙ ap (λ (q : Queue). first (find n (with_etas eta r.0)) (lookup n q.tasks)) k.kept)
      (AreIndexes-agree (λ n. first (find n (with_etas eta r.0)) (minus r.0 (held_of q) n)) _ _
        (push_back-AreIndexes (minus r.0 (held_of q)) eta r.0 r.1
          (taken_new (held_of q) r.0 k.taken) k.left)
        (λ n. rw (kept_pull, p, find-with_etas n eta r.0) (ground arith)))
      (λ n t h. named n t (find n (with_etas eta r.0)) refl h)
      (λ n h. apart n (find n r.0) refl (rw (sym kept_archived) h))
  where
    kept_pull : (push_back eta r.0 r.1).is_pull_queue ≡ q.is_pull_queue
    kept_pull =
        ap (λ (q : Queue). q.is_pull_queue) (push_back-kept eta r.0 r.1)
        ∙ ap (λ (q : Queue). q.is_pull_queue) k.kept

    kept_archived : (push_back eta r.0 r.1).archived ≡ q.archived
    kept_archived =
        ap (λ (q : Queue). q.archived) (push_back-kept eta r.0 r.1)
        ∙ ap (λ (q : Queue). q.archived) k.kept

    held_some : (n : Bytes) (t : Task) → held_of q n ≡ some t → lookup n q.tasks ≢ none
    held_some n t h z = ground (arith, h, z, p)

    some-injective : (u t : Task) → some u ≡ some t → u ≡ t
    some-injective u t h = cc

    named :
        (n : Bytes) (t : Task) (o : Option Task)
        → find n (with_etas eta r.0) ≡ o
        → first o (lookup n q.tasks) ≡ some t
        → t.name ≡ n
    named n t none e h = i.named n t h
    named n t (some u) e h =
        ap (λ (t : Task). t.name) (sym (some-injective u t h))
        ∙ find-named n (with_etas eta r.0) u e

    apart :
        (n : Bytes) (o : Option Task)
        → find n r.0 ≡ o
        → is_some (lookup n q.archived) ≡ true
        → first (find n (with_etas eta r.0)) (lookup n q.tasks) ≡ none
    apart n none e h = rw (find-with_etas n eta r.0, e) (i.apart n h)
    apart n (some t) e h = absurd (held_some n t (k.taken.was_held n t e) (i.apart n h))

lease-IsConsistent :
    (now : ℤ) (max sec : ℕ) (tag : Option Bytes) (q : Queue)
    → q.is_pull_queue ≡ true
    → IsConsistent q
    → IsConsistent (lease_all now max sec tag q).1
unfolding lease_all
lease-IsConsistent now max sec tag q p i =
    lease_pull (lease_end now sec) q (take_out now max tag q) p
      (take_out-AreTakenOut (held_of q) now max tag q i.indexes) i

pub step-IsConsistent : (o : Op) (q : Queue) → IsConsistent q → IsConsistent (step o q)
step-IsConsistent Op.gen_name q i = gen_name-IsConsistent q i
step-IsConsistent Op.clear q i = purge-IsConsistent q
step-IsConsistent (Op.put t) q i =
    add_keeps IsConsistent t q i (λ a b. (λ p. store_pull t q p a b i, λ p. store_push t q p a i))
step-IsConsistent (Op.discard t) q i = delete_keeps IsConsistent t q i (λ u e.
    rw (sym (i.named t.name u e)) (
      λ p. archive_pull u q p (ap (λ n. lookup n q.tasks) (i.named t.name u e) ∙ e) i,
      λ p. archive_push u q p i,
    ))
step-IsConsistent (Op.lease now max time use_tag tag) q i =
    lease_keeps IsConsistent now max time use_tag tag q i
      (λ p m s g. lease-IsConsistent now m s g q p i)
step-IsConsistent (Op.modify now t time) q i =
    modify_keeps IsConsistent now t time q i (λ p u sec e _ _.
      modify_pull (lease_end now sec) u q p (ap (λ n. lookup n q.tasks) (i.named t.name u e) ∙ e) i)

-- Whatever is done to a new queue, tasks stand under their names, no name is both a task's and a
-- tombstone's, and the indexes hold the tasks of a pull queue: that of all tasks and that of each tag
-- are sorted, have each name once, and answer under a name the task that is stored.
pub run-AreIndexes :
    (sum64 : Bytes → ℕ) (name : Bytes) (is_pull_queue : Bool) (ops : List Op)
    → IsConsistent (run ops (new_sorted_queue sum64 name is_pull_queue))
unfolding run
run-AreIndexes sum64 name is_pull_queue ops =
    from ops (new_sorted_queue sum64 name is_pull_queue) (new-IsConsistent sum64 name is_pull_queue)
  where
    from : (ops : List Op) (q : Queue) → IsConsistent q → IsConsistent (run ops q)
    from [] q i = i
    from (o ∷ ops) q i = from ops (step o q) (step-IsConsistent o q i)
