-- ===== src/Memory/TaskQueue/Queue/Storing.antt =====
-- A queue is consistent after a task is stored, archived or leased anew.
use gae.Prelude.{
  ℕ, ◌≡◌, ◌≢◌, refl, sym, ap, ◌∙◌, Bool, true, false, Option, none, some, arith, Bytes, same_bytes,
  same_bytes_iff, if◌then◌else◌, ℤ, lookup, insert, delete, lookup-insert, lookup-delete,
  Bool-cases, inl, inr,
}
use gae.Memory.TaskQueue.Task.{Task}
use gae.Memory.TaskQueue.Index.Find.{find}
use gae.Memory.TaskQueue.Queue.{
  Queue, new_sorted_queue, gen_task_name, is_some, purge, add_to_indexes, remove_from_indexes,
  remove_per_tag, set_eta, per_tag,
}
use gae.Memory.TaskQueue.Queue.Indexes.{
  AreIndexes, AreIndexes-agree, put, drop, add_to_indexes-AreIndexes,
  remove_from_indexes-AreIndexes,
}
use gae.Memory.TaskQueue.Queue.Returning.{set_eta-AreIndexes}

-- The tasks that the indexes should hold: those of a pull queue.
abbrev pub held_of : Queue → Bytes → Option Task
held_of q n = if q.is_pull_queue then lookup n q.tasks else none

-- The indexes hold the tasks of a pull queue, tasks stand under their names, and no name is both a
-- task's and a tombstone's.
pub record IsConsistent (q : Queue) : Type 0 where
  pub indexes : AreIndexes (held_of q) q
  pub named : (n : Bytes) (t : Task) → lookup n q.tasks ≡ some t → t.name ≡ n
  pub apart : (n : Bytes) → is_some (lookup n q.archived) ≡ true → lookup n q.tasks ≡ none

pub new-IsConsistent :
    (sum64 : Bytes → ℕ) (name : Bytes) (p : Bool) → IsConsistent (new_sorted_queue sum64 name p)
unfolding new_sorted_queue lookup find per_tag
new-IsConsistent sum64 name p = record {
  indexes = record {
    whole = record { sorted = tt; distinct = tt; found = λ n. ground arith };
    tagged = λ g. record { sorted = tt; distinct = tt; found = λ n. ground arith };
  };
  named = λ n t h. absurd (cc);
  apart = λ n h. refl;
}

pub purge-IsConsistent : (q : Queue) → IsConsistent (purge q)
unfolding purge lookup find per_tag
purge-IsConsistent q = record {
  indexes = record {
    whole = record { sorted = tt; distinct = tt; found = λ n. ground arith };
    tagged = λ g. record { sorted = tt; distinct = tt; found = λ n. ground arith };
  };
  named = λ n t h. absurd (cc);
  apart = λ n h. refl;
}

pub gen_name-IsConsistent : (q : Queue) → IsConsistent q → IsConsistent (gen_task_name q).1
unfolding gen_task_name per_tag
gen_name-IsConsistent q i = record {
  indexes = record { whole = i.indexes.whole; tagged = i.indexes.tagged };
  named = i.named;
  apart = i.apart;
}

-- A queue is consistent by what its lookups answer.
pub by_lookups :
    (tasks : Bytes → Option Task) (q : Queue)
    → ((n : Bytes) → lookup n q.tasks ≡ tasks n)
    → AreIndexes (λ n. if q.is_pull_queue then tasks n else none) q
    → ((n : Bytes) (t : Task) → tasks n ≡ some t → t.name ≡ n)
    → ((n : Bytes) → is_some (lookup n q.archived) ≡ true → tasks n ≡ none)
    → IsConsistent q
by_lookups tasks q e i named apart = record {
  indexes =
      AreIndexes-agree _ _ q i (λ n. ap (λ o. if q.is_pull_queue then o else none) (sym (e n)));
  named = λ n t h. named n t (sym (e n) ∙ h);
  apart = λ n h. e n ∙ apart n h;
}

-- The fields but for the indexes do not matter to these.
same_indexes :
    (held : Bytes → Option Task) (q r : Queue)
    → q.sorted ≡ r.sorted
    → q.sorted_per_tag ≡ r.sorted_per_tag
    → AreIndexes held q
    → AreIndexes held r
unfolding per_tag
same_indexes held q r e f i = record {
  whole = rw (sym e) i.whole;
  tagged = λ g. rw (sym f) (i.tagged g);
}

-- A new task, stored in a queue that is a pull queue or is none.
put-named :
    (t : Task) (q : Queue)
    → IsConsistent q
    → (n : Bytes) (u : Task) → put t (λ n. lookup n q.tasks) n ≡ some u
    → u.name ≡ n
put-named t q i n u h = elim (Bool-cases (same_bytes t.name n)) [
  | inl e ↦ ground (arith, same_bytes_iff t.name n)
  | inr e ↦ i.named n u (ground arith)
]

put-apart :
    (t : Task) (q : Queue)
    → is_some (lookup t.name q.archived) ≡ false
    → IsConsistent q
    → (n : Bytes) → is_some (lookup n q.archived) ≡ true
    → put t (λ n. lookup n q.tasks) n ≡ none
put-apart t q a i n h = elim (Bool-cases (same_bytes t.name n)) [
  | inl e ↦ absurd (same_name ((same_bytes_iff t.name n).0 e))
  | inr e ↦ rw e (i.apart n h)
]
  where
    same_name : t.name ≢ n
    same_name e = cc

none_some : (o : Option Task) → is_some o ≡ false → o ≡ none
none_some o h = ground arith

pub store_pull :
    (t : Task) (q : Queue)
    → q.is_pull_queue ≡ true
    → is_some (lookup t.name q.archived) ≡ false
    → is_some (lookup t.name q.tasks) ≡ false
    → IsConsistent q
    → IsConsistent (add_to_indexes t (record q { tasks = insert t.name t q.tasks }))
unfolding add_to_indexes
store_pull t q p a b i =
    by_lookups (put t (λ n. lookup n q.tasks)) _ (λ n. lookup-insert t.name n t q.tasks)
      (AreIndexes-agree (put t (held_of q)) _ _
        (add_to_indexes-AreIndexes (held_of q) t (record q { tasks = insert t.name t q.tasks })
          (rw p (none_some (lookup t.name q.tasks) b))
          (same_indexes (held_of q) q _ refl refl i.indexes))
        (λ n. rw p refl))
      (put-named t q i) (put-apart t q a i)

pub store_push :
    (t : Task) (q : Queue)
    → q.is_pull_queue ≡ false
    → is_some (lookup t.name q.archived) ≡ false
    → IsConsistent q
    → IsConsistent (record q { tasks = insert t.name t q.tasks })
store_push t q p a i =
    by_lookups (put t (λ n. lookup n q.tasks)) _ (λ n. lookup-insert t.name n t q.tasks)
      (AreIndexes-agree (held_of q) _ _ (same_indexes (held_of q) q _ refl refl i.indexes)
        (λ n. rw p refl))
      (put-named t q i) (put-apart t q a i)

-- A task that is archived.
drop-named :
    (name : Bytes) (q : Queue)
    → IsConsistent q
    → (n : Bytes) (u : Task) → (if same_bytes name n then none else lookup n q.tasks) ≡ some u
    → u.name ≡ n
drop-named name q i n u h = i.named n u (ground arith)

drop-apart :
    (name : Bytes) (t : Task) (q : Queue)
    → IsConsistent q
    → (n : Bytes) → is_some (lookup n (insert name t q.archived)) ≡ true
    → (if same_bytes name n then none else lookup n q.tasks) ≡ none
drop-apart name t q i n h = ground (arith, lookup-insert name n t q.archived, i.apart n)

pub archive_pull :
    (t : Task) (q : Queue)
    → q.is_pull_queue ≡ true
    → lookup t.name q.tasks ≡ some t
    → IsConsistent q
    → IsConsistent (
        remove_from_indexes t
          (record q { archived = insert t.name t q.archived; tasks = delete t.name q.tasks }))
unfolding remove_from_indexes remove_per_tag
archive_pull t q p h i =
    by_lookups (drop t (λ n. lookup n q.tasks)) _ (λ n. lookup-delete t.name n q.tasks)
      (AreIndexes-agree (drop t (held_of q)) _ _
        (remove_from_indexes-AreIndexes (held_of q) t _ (rw p h) (
          same_indexes (held_of q) q
            (record q { archived = insert t.name t q.archived; tasks = delete t.name q.tasks }) refl
            refl i.indexes))
        (λ n. rw p refl))
      (drop-named t.name q i) (drop-apart t.name t q i)

pub archive_push :
    (t : Task) (q : Queue)
    → q.is_pull_queue ≡ false
    → IsConsistent q
    → IsConsistent
        (record q { archived = insert t.name t q.archived; tasks = delete t.name q.tasks })
archive_push t q p i =
    by_lookups (drop t (λ n. lookup n q.tasks)) _ (λ n. lookup-delete t.name n q.tasks)
      (AreIndexes-agree (held_of q) _ _ (same_indexes (held_of q) q _ refl refl i.indexes)
        (λ n. rw p refl))
      (drop-named t.name q i) (drop-apart t.name t q i)

pub modify_pull :
    (eta : ℤ) (t : Task) (q : Queue)
    → q.is_pull_queue ≡ true
    → lookup t.name q.tasks ≡ some t
    → IsConsistent q
    → IsConsistent (set_eta eta t (remove_from_indexes t q))
modify_pull eta t q p h i =
    by_lookups (put (record t { eta = eta }) (λ n. lookup n q.tasks)) _
      (unfold remove_from_indexes remove_per_tag set_eta add_to_indexes in
        λ n. lookup-insert t.name n (record t { eta = eta }) q.tasks)
      (AreIndexes-agree (put (record t { eta = eta }) (drop t (held_of q))) _ _
        (set_eta-AreIndexes (drop t (held_of q)) eta t (remove_from_indexes t q)
          (ground (arith, same_bytes_iff t.name t.name))
          (remove_from_indexes-AreIndexes (held_of q) t q (rw p h) i.indexes))
        (unfold remove_from_indexes remove_per_tag set_eta add_to_indexes in
          λ n. rw p (ground arith)))
      (put-named (record t { eta = eta }) q i)
      (unfold remove_from_indexes remove_per_tag set_eta add_to_indexes in
        put-apart (record t { eta = eta }) q (ground (arith, i.apart t.name)) i)
