-- ===== src/Memory/TaskQueue/Queue/Granting.antt =====
-- Which tasks a lease takes, and what it does to them.
use gae.Prelude.{
  ℕ, zero, suc, ◌≡◌, ◌≢◌, refl, sym, ap, ◌∙◌, Bool, true, false, Option, none, some, List, [], ◌∷◌,
  arith, Bytes, ℤ, ltb_ℤ, lookup,
}
use gae.Memory.TaskQueue.Task.{Task}
use gae.Memory.TaskQueue.Index.{extract}
use gae.Memory.TaskQueue.Index.Find.{find, first}
use gae.Memory.TaskQueue.Queue.{
  Queue, Leased, leased, refused, lease_tasks, lease_all, lease_end, take_out, take_tagged,
  push_back, with_etas,
}
use gae.Memory.TaskQueue.Queue.Steps.{lease_any}
use gae.Memory.TaskQueue.Queue.Taking.{AreTakenOut, take_out-AreTakenOut}
use gae.Memory.TaskQueue.Queue.Returning.{push_back-tasks, push_back-kept, find-with_etas, with_eta}
use gae.Memory.TaskQueue.Queue.Storing.{held_of, IsConsistent}

extract-ready :
    (n : Bytes) (now : ℤ) (max : ℕ) (ts : List Task) (t : Task)
    → find n (extract now max ts).0 ≡ some t
    → ltb_ℤ now t.eta ≡ false
unfolding extract find
extract-ready n now max [] t h = absurd (cc)
extract-ready n now zero (u ∷ us) t h = absurd (cc)
extract-ready n now (suc max) (u ∷ us) t h = ground (arith, extract-ready n now max us t)

tagged-ready :
    (n : Bytes) (now : ℤ) (max : ℕ) (tag : Bytes) (index : Option (List Task)) (q : Queue)
    (t : Task)
    → find n (take_tagged now max tag index q).0 ≡ some t
    → ltb_ℤ now t.eta ≡ false
unfolding find
tagged-ready n now max tag none q t h = absurd (cc)
tagged-ready n now max tag (some index) q t h = extract-ready n now max index t h

take_out-ready :
    (n : Bytes) (now : ℤ) (max : ℕ) (tag : Option Bytes) (q : Queue) (t : Task)
    → find n (take_out now max tag q).0 ≡ some t
    → ltb_ℤ now t.eta ≡ false
unfolding take_out
take_out-ready n now max none q t h = extract-ready n now max q.sorted t h
take_out-ready n now max (some tag) q t h =
    tagged-ready n now max tag (lookup tag q.sorted_per_tag) q t h

abbrev pub tasks_of : Leased → List Task
tasks_of (leased ts) = ts
tasks_of (refused e) = []

-- What a lease does to the task under a name: it was ready and has its new ETA, or it stays.
pub record IsGranted (n : Bytes) (now : ℤ) (q : Queue) (r : Leased × Queue) : Type 0 where
  pub was_ready :
      (u : Task)
      → find n (tasks_of r.0) ≡ some u
      → (t : Task) × ((lookup n q.tasks ≡ some t) × (ltb_ℤ now t.eta ≡ false))
  pub is_stored : (u : Task) → find n (tasks_of r.0) ≡ some u → lookup n r.1.tasks ≡ some u
  pub is_kept : find n (tasks_of r.0) ≡ none → lookup n r.1.tasks ≡ lookup n q.tasks
  pub same_archived : r.1.archived ≡ q.archived

no-IsGranted :
    (n : Bytes) (now : ℤ) (q : Queue) (l : Leased) → tasks_of l ≡ [] → IsGranted n now q (l, q)
unfolding find
no-IsGranted n now q l e = record {
  was_ready = λ u h. absurd (nothing u (sym (ap (find n) e) ∙ h));
  is_stored = λ u h. absurd (nothing u (sym (ap (find n) e) ∙ h));
  is_kept = λ h. refl;
  same_archived = refl;
}
  where
    nothing : (u : Task) → none ≢ some u
    nothing u h = cc

-- From what was taken out under the name.
found-IsGranted :
    (n : Bytes) (now eta : ℤ) (q : Queue) (r : List Task × Queue)
    → q.is_pull_queue ≡ true
    → AreTakenOut (held_of q) q r
    → ((t : Task) → find n r.0 ≡ some t → ltb_ℤ now t.eta ≡ false)
    → (o : Option Task) → find n r.0 ≡ o
    → IsGranted n now q (leased (with_etas eta r.0), push_back eta r.0 r.1)
found-IsGranted n now eta q r p k ready o e = record {
  was_ready = λ u h. was o e u (sym (find-with_etas n eta r.0) ∙ h);
  is_stored = λ u h. after ∙ ap (λ o. first o (lookup n q.tasks)) h;
  is_kept = λ h. after ∙ ap (λ o. first o (lookup n q.tasks)) h;
  same_archived =
      ap (λ (q : Queue). q.archived) (push_back-kept eta r.0 r.1)
      ∙ ap (λ (q : Queue). q.archived) k.kept;
}
  where
    after :
        lookup n (push_back eta r.0 r.1).tasks
        ≡ first (find n (with_etas eta r.0)) (lookup n q.tasks)
    after =
        push_back-tasks eta r.0 r.1 n k.taken.distinct
        ∙ ap (λ (q : Queue). first (find n (with_etas eta r.0)) (lookup n q.tasks)) k.kept

    is_held : (t : Task) → held_of q n ≡ some t → lookup n q.tasks ≡ some t
    is_held t h = ground (arith, h, p)

    was :
        (o : Option Task)
        → find n r.0 ≡ o
        → (u : Task) → with_eta eta (find n r.0) ≡ some u
        → (t : Task) × ((lookup n q.tasks ≡ some t) × (ltb_ℤ now t.eta ≡ false))
    was none e u h = absurd (ground (arith, e, h))
    was (some t) e u h = (t, (is_held t (k.taken.was_held n t e), ready t e))

pub lease-IsGranted :
    (n : Bytes) (now max time : ℤ) (use_tag : Bool) (tag : Bytes) (q : Queue)
    → IsConsistent q
    → IsGranted n now q (lease_tasks now max time use_tag tag q)
lease-IsGranted n now max time use_tag tag q i =
    lease_any (IsGranted n now q) now max time use_tag tag q
      (λ e. no-IsGranted n now q (refused e) refl) (no-IsGranted n now q (leased []) refl)
      (λ p m s g.
        unfold lease_all in
        found-IsGranted n now (lease_end now s) q (take_out now m g q) p
          (take_out-AreTakenOut (held_of q) now m g q i.indexes) (take_out-ready n now m g q)
          (find n (take_out now m g q).0) refl)
