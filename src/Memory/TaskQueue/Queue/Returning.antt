-- ===== src/Memory/TaskQueue/Queue/Returning.antt =====
-- Putting the leased tasks back into the indexes.
use gae.Prelude.{
  ◌≡◌, ◌≢◌, refl, ap, ◌∙◌, true, Option, none, some, List, [], ◌∷◌, arith, Bytes, same_bytes,
  same_bytes_iff, ℤ, lookup, insert, lookup-insert, Bool-cases, inl, inr,
}
use gae.Memory.TaskQueue.Task.{Task}
use gae.Memory.TaskQueue.Index.Find.{find, Distinct, first}
use gae.Memory.TaskQueue.Queue.{Queue, per_tag, add_to_indexes, set_eta, push_back, with_etas}
use gae.Memory.TaskQueue.Queue.Taking.{no_tasks}
use gae.Memory.TaskQueue.Queue.Indexes.{
  AreIndexes, AreIndexes-agree, put, add_to_indexes-AreIndexes,
}

abbrev pub with_eta : ℤ → Option Task → Option Task
with_eta eta none = none
with_eta eta (some t) = some (record t { eta = eta })

pub find-with_etas :
    (n : Bytes) (eta : ℤ) (out : List Task) → find n (with_etas eta out) ≡ with_eta eta (find n out)
unfolding find
find-with_etas n eta [] = refl
find-with_etas n eta (t ∷ out) = ground (arith, find-with_etas n eta out)

-- Of tasks whose names differ and are not held.
pub record AreNew (held : Bytes → Option Task) (out : List Task) : Type 0 where
  pub distinct : Distinct out
  pub not_held : (n : Bytes) (t : Task) → find n out ≡ some t → held n ≡ none

first_new :
    (held : Bytes → Option Task) (t : Task) (out : List Task)
    → AreNew held (t ∷ out)
    → held t.name ≡ none
unfolding find
first_new held t out k = k.not_held t.name t (ground (arith, same_bytes_iff t.name t.name))

others_new :
    (held : Bytes → Option Task) (eta : ℤ) (t : Task) (out : List Task)
    → AreNew held (t ∷ out)
    → AreNew (put (record t { eta = eta }) held) out
unfolding find
others_new held eta t out k = record {
  distinct = k.distinct.1;
  not_held = λ n u h. elim (Bool-cases (same_bytes t.name n)) [
    | inl e ↦ absurd (other n u h e)
    | inr e ↦ rw e (k.not_held n u (rw e h))
  ];
}
  where
    other : (n : Bytes) (u : Task) → find n out ≡ some u → same_bytes t.name n ≢ true
    other n u h e = ground (arith, k.distinct.0, same_bytes_iff t.name n)

put-first :
    (held : Bytes → Option Task) (eta : ℤ) (t : Task) (out : List Task) (n : Bytes)
    → find t.name out ≡ none
    → first (find n (with_etas eta out)) (put (record t { eta = eta }) held n)
      ≡ first (find n (with_etas eta (t ∷ out))) (held n)
unfolding find
put-first held eta t out n d = ground (arith, find-with_etas n eta out, same_bytes_iff t.name n)

pub set_eta-AreIndexes :
    (held : Bytes → Option Task) (eta : ℤ) (t : Task) (q : Queue)
    → held t.name ≡ none
    → AreIndexes held q
    → AreIndexes (put (record t { eta = eta }) held) (set_eta eta t q)
unfolding set_eta per_tag
set_eta-AreIndexes held eta t q h i =
    add_to_indexes-AreIndexes held (record t { eta = eta })
      (record q { tasks = insert t.name (record t { eta = eta }) q.tasks }) h
      (record { whole = i.whole; tagged = i.tagged })

pub push_back-AreIndexes :
    (held : Bytes → Option Task) (eta : ℤ) (out : List Task) (q : Queue)
    → AreNew held out
    → AreIndexes held q
    → AreIndexes (λ n. first (find n (with_etas eta out)) (held n)) (push_back eta out q)
unfolding push_back find
push_back-AreIndexes held eta [] q k i = i
push_back-AreIndexes held eta (t ∷ out) q k i =
    AreIndexes-agree (λ n. first (find n (with_etas eta out)) (put (record t { eta = eta }) held n))
      _ _
      (push_back-AreIndexes (put (record t { eta = eta }) held) eta out (set_eta eta t q)
        (others_new held eta t out k) (set_eta-AreIndexes held eta t q (first_new held t out k) i))
      (λ n. put-first held eta t out n k.distinct.0)

-- The tasks that are stored have the new ETA, too, and the rest of the queue stays.
pub push_back-tasks :
    (eta : ℤ) (out : List Task) (q : Queue) (n : Bytes)
    → Distinct out
    → lookup n (push_back eta out q).tasks ≡ first (find n (with_etas eta out)) (lookup n q.tasks)
unfolding push_back find set_eta add_to_indexes
push_back-tasks eta [] q n d = refl
push_back-tasks eta (t ∷ out) q n d =
    push_back-tasks eta out (set_eta eta t q) n d.1
    ∙ ap (first (find n (with_etas eta out)))
        (lookup-insert t.name n (record t { eta = eta }) q.tasks)
    ∙ put-first (λ n. lookup n q.tasks) eta t out n d.0

pub push_back-kept :
    (eta : ℤ) (out : List Task) (q : Queue) → no_tasks (push_back eta out q) ≡ no_tasks q
unfolding push_back set_eta add_to_indexes
push_back-kept eta [] q = refl
push_back-kept eta (t ∷ out) q = push_back-kept eta out (set_eta eta t q)
