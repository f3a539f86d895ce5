-- ===== src/Memory/TaskQueue/Queue/Oldest.antt =====
-- A lease takes the oldest of the ready tasks.
use gae.Prelude.{
  ℕ, zero, suc, ◌≡◌, ◌≢◌, refl, sym, ap, ◌∙◌, true, false, not, Option, none, some, List, [], ◌∷◌,
  ◌++◌, length, All, arith, Bytes, same_bytes, if◌then◌else◌, ℤ, pos, ltb_ℤ, lookup, Bool-cases,
  inl, inr, ◌⊎◌,
}
use gae.Memory.TaskQueue.Task.{Task}
use gae.Memory.TaskQueue.Index.{extract, less}
use gae.Memory.TaskQueue.Index.Order.{Sorted}
use gae.Memory.TaskQueue.Index.Find.{find, find-rest, find-out, without, extract-append}
use gae.Memory.TaskQueue.Queue.{
  Queue, leased, lease_tasks, lease_all, lease_sec, lease_end, take_out, with_etas,
}
use gae.Memory.TaskQueue.Queue.Returning.{find-with_etas, with_eta}
use gae.Memory.TaskQueue.Queue.Storing.{IsConsistent}
use gae.Memory.TaskQueue.Queue.Granting.{tasks_of}

all-find :
    (P : Task → Type 0) (n : Bytes) (ts : List Task) (t : Task)
    → All P ts
    → find n ts ≡ some t
    → P t
unfolding find
all-find P n [] t a h = absurd (cc)
all-find P n (u ∷ us) t (p, a) h = elim (Bool-cases (same_bytes u.name n)) [
  | inl e ↦ at (here e)
  | inr e ↦ all-find P n us t a (there e)
]
  where
    here : same_bytes u.name n ≡ true → u ≡ t
    here e = ground (arith, e, h)

    there : same_bytes u.name n ≡ false → find n us ≡ some t
    there e = ground (arith, e, h)

    at : u ≡ t → P t
    at e = rw (sym e) p

All-rest : (P : Task → Type 0) (xs ys : List Task) → All P (xs ++ ys) → All P ys
All-rest P [] ys a = a
All-rest P (x ∷ xs) ys (p, a) = All-rest P xs ys a

later : (now : ℤ) (t u : Task) → ltb_ℤ now u.eta ≡ true → less t u ≡ false → ltb_ℤ now t.eta ≡ true
unfolding less
later now t u h k = ground (arith, h, k)

-- A task that is left was not ready, or as many as may be were extracted, none of them behind it.
extract-oldest :
    (now : ℤ) (max : ℕ) (ts : List Task) (n : Bytes) (t : Task)
    → Sorted ts
    → find n (extract now max ts).1 ≡ some t
    → (ltb_ℤ now t.eta ≡ true)
      ⊎ ((length (extract now max ts).0 ≡ max) × All (λ v. less t v ≡ false) (extract now max ts).0)
unfolding extract
extract-oldest now max [] n t s h = inl (unfold find in absurd (cc))
extract-oldest now zero (u ∷ us) n t s h = inr (refl, tt)
extract-oldest now (suc max) (u ∷ us) n t (a, s) h = elim (Bool-cases (ltb_ℤ now u.eta)) [
  | inl e ↦ inl (waits e)
  | inr e ↦ of e (extract-oldest now max us n t s (left e))
]
  where
    waits : ltb_ℤ now u.eta ≡ true → ltb_ℤ now t.eta ≡ true
    waits e = all-find (λ v. ltb_ℤ now v.eta ≡ true) n (u ∷ us) t (e, all_later us a) (whole e)
      where
        all_later :
            (vs : List Task) → All (λ v. less v u ≡ false) vs → All (λ v. ltb_ℤ now v.eta ≡ true) vs
        all_later [] b = tt
        all_later (v ∷ vs) (k, b) = (later now v u e k, all_later vs b)

        whole : ltb_ℤ now u.eta ≡ true → find n (u ∷ us) ≡ some t
        whole e = ap (find n) (sym (nothing e)) ∙ h
          where
            nothing : ltb_ℤ now u.eta ≡ true → (extract now (suc max) (u ∷ us)).1 ≡ u ∷ us
            nothing e = rw e refl

    taken :
        ltb_ℤ now u.eta ≡ false
        → extract now (suc max) (u ∷ us) ≡ (u ∷ (extract now max us).0, (extract now max us).1)
    taken e = rw e refl

    left : ltb_ℤ now u.eta ≡ false → find n (extract now max us).1 ≡ some t
    left e = ap (λ (r : List Task × List Task). find n r.1) (sym (taken e)) ∙ h

    first_below : ltb_ℤ now u.eta ≡ false → less t u ≡ false
    first_below e =
        all-find (λ v. less v u ≡ false) n (extract now max us).1 t
          (All-rest (λ v. less v u ≡ false) (extract now max us).0 (extract now max us).1
            (rw (extract-append now max us) a))
          (left e)

    of :
        ltb_ℤ now u.eta ≡ false
        → (ltb_ℤ now t.eta ≡ true)
          ⊎ ((length (extract now max us).0 ≡ max)
              × All (λ v. less t v ≡ false) (extract now max us).0)
        → (ltb_ℤ now t.eta ≡ true)
          ⊎ ((length (extract now (suc max) (u ∷ us)).0 ≡ suc max)
              × All (λ v. less t v ≡ false) (extract now (suc max) (u ∷ us)).0)
    of e (inl w) = inl w
    of e (inr (l, b)) = inr (rw e (ap suc l, (first_below e, b)))

-- The tasks that a lease without a tag takes out.
abbrev out_of : ℤ → ℕ → Queue → List Task
out_of now max q = (extract now max q.sorted).0

length-with_etas : (eta : ℤ) (ts : List Task) → length (with_etas eta ts) ≡ length ts
length-with_etas eta [] = refl
length-with_etas eta (t ∷ ts) = ap suc (length-with_etas eta ts)

positive : (max : ℕ) → not (ltb_ℤ (pos 0) (pos (suc max))) ≡ false
positive max = ground arith

untagged :
    (now time : ℤ) (max sec : ℕ) (q : Queue)
    → q.is_pull_queue ≡ true
    → lease_sec time ≡ some sec
    → (lease_tasks now (pos (suc max)) time false [] q).0
      ≡ leased (with_etas (lease_end now sec) (out_of now (suc max) q))
unfolding lease_tasks lease_all take_out same_bytes
untagged now time max sec q p e = rw (p, positive max, e) refl

none_out :
    (eta : ℤ) (n : Bytes) (ts : List Task) → find n (with_etas eta ts) ≡ none → find n ts ≡ none
none_out eta n ts h = of (find n ts) (sym (find-with_etas n eta ts) ∙ h)
  where
    of : (o : Option Task) → with_eta eta o ≡ none → o ≡ none
    of none h = refl
    of (some t) h = absurd (cc)

-- What is found among the tasks with the new ETA was held.
out_held :
    (now eta : ℤ) (max : ℕ) (q : Queue) (m : Bytes) (u v : Task)
    → IsConsistent q
    → q.is_pull_queue ≡ true
    → find m (with_etas eta (out_of now max q)) ≡ some u
    → lookup m q.tasks ≡ some v
    → find m (out_of now max q) ≡ some v
out_held now eta max q m u v i p h k =
    of (find m (out_of now max q)) refl (sym (find-with_etas m eta (out_of now max q)) ∙ h)
  where
    whole : (w : Task) → find m (out_of now max q) ≡ some w → some w ≡ some v
    whole w e =
        sym (find-out m (out_of now max q) (extract now max q.sorted).1 w e)
        ∙ ap (find m) (extract-append now max q.sorted)
        ∙ i.indexes.whole.found m
        ∙ ap (λ b. if b then lookup m q.tasks else none) p
        ∙ k

    of :
        (o : Option Task)
        → find m (out_of now max q) ≡ o
        → with_eta eta o ≡ some u
        → find m (out_of now max q) ≡ some v
    of none e x = absurd (cc)
    of (some w) e x = e ∙ whole w e

-- A stored task that is not taken out is left in the index.
is_left :
    (now : ℤ) (max : ℕ) (q : Queue) (n : Bytes) (t : Task)
    → IsConsistent q
    → q.is_pull_queue ≡ true
    → lookup n q.tasks ≡ some t
    → find n (out_of now max q) ≡ none
    → find n (extract now max q.sorted).1 ≡ some t
is_left now max q n t i p h o =
    find-rest n (out_of now max q) (extract now max q.sorted).1
      (rw (extract-append now max q.sorted) i.indexes.whole.distinct)
    ∙ ap (λ x. without x (find n (out_of now max q ++ (extract now max q.sorted).1))) o
    ∙ ap (find n) (extract-append now max q.sorted)
    ∙ i.indexes.whole.found n
    ∙ ap (λ b. if b then lookup n q.tasks else none) p
    ∙ h

-- A lease that is not by tag, of max tasks, above 0, from a pull queue and for no negative time, takes
-- each stored task that is ready, or else max tasks, none of which was behind it.
pub lease-takes_oldest :
    (now time : ℤ) (max sec : ℕ) (q : Queue) (n : Bytes) (t : Task)
    → IsConsistent q
    → q.is_pull_queue ≡ true
    → lease_sec time ≡ some sec
    → lookup n q.tasks ≡ some t
    → ltb_ℤ now t.eta ≡ false
    → find n (tasks_of (lease_tasks now (pos (suc max)) time false [] q).0) ≡ none
    → (length (tasks_of (lease_tasks now (pos (suc max)) time false [] q).0) ≡ suc max)
      × ((m : Bytes) (u v : Task)
          → find m (tasks_of (lease_tasks now (pos (suc max)) time false [] q).0) ≡ some u
          → lookup m q.tasks ≡ some v
          → less t v ≡ false)
lease-takes_oldest now time max sec q n t i p e h r l = of (
    extract-oldest now (suc max) q.sorted n t i.indexes.whole.sorted (
      is_left now (suc max) q n t i p h
        (none_out (lease_end now sec) n (out_of now (suc max) q) (sym (ap (find n) answer) ∙ l))))
  where
    answer :
        tasks_of (lease_tasks now (pos (suc max)) time false [] q).0
        ≡ with_etas (lease_end now sec) (out_of now (suc max) q)
    answer = ap tasks_of (untagged now time max sec q p e)

    not_ready : ltb_ℤ now t.eta ≢ true
    not_ready w = ground (arith, w, r)

    of :
        (ltb_ℤ now t.eta ≡ true)
          ⊎ ((length (out_of now (suc max) q) ≡ suc max)
              × All (λ v. less t v ≡ false) (out_of now (suc max) q))
        → (length (tasks_of (lease_tasks now (pos (suc max)) time false [] q).0) ≡ suc max)
          × ((m : Bytes) (u v : Task)
              → find m (tasks_of (lease_tasks now (pos (suc max)) time false [] q).0) ≡ some u
              → lookup m q.tasks ≡ some v
              → less t v ≡ false)
    of (inl w) = absurd (not_ready w)
    of (inr (k, a)) = (
      ap length answer ∙ length-with_etas (lease_end now sec) (out_of now (suc max) q) ∙ k,
      λ m u v x y.
          all-find (λ v. less t v ≡ false) m (out_of now (suc max) q) v a
            (out_held now (lease_end now sec) (suc max) q m u v i p (sym (ap (find m) answer) ∙ x)
              y),
    )
