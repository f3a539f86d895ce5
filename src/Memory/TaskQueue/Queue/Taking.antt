-- ===== src/Memory/TaskQueue/Queue/Taking.antt =====
-- Taking the tasks to lease out of the indexes.
use gae.Prelude.{
  ℕ, ◌≡◌, ◌≢◌, refl, sym, ap, true, false, Option, none, some, List, [], ◌∷◌, arith, Bytes,
  same_bytes, same_bytes_iff, ℤ, lookup, insert, Bool-cases, inl, inr,
}
use gae.Memory.TaskQueue.Task.{Task}
use gae.Memory.TaskQueue.Index.{remove, extract}
use gae.Memory.TaskQueue.Index.Find.{find, without}
use gae.Memory.TaskQueue.Queue.{
  Queue, per_tag, remove_per_tag, remove_all_sorted, remove_all_per_tag, take_out, take_tagged,
  or_nil,
}
use gae.Memory.TaskQueue.Queue.Indexes.{
  with_tag, IsIndex, AreIndexes, AreIndexes-agree, agree, drop, minus, remove-IsIndex,
  replace-tagged, drop-tag, drop-other_tag, extract-IsIndex, extract-IsTaken, IsTaken,
}

minus-drop :
    (held : Bytes → Option Task) (t : Task) (out : List Task) (n : Bytes)
    → minus out (drop t held) n ≡ minus (t ∷ out) held n
unfolding find
minus-drop held t out n = ground arith

first_held :
    (held : Bytes → Option Task) (t : Task) (out : List Task)
    → IsTaken held (t ∷ out)
    → held t.name ≡ some t
unfolding find
first_held held t out i = i.was_held t.name t (ground (arith, same_bytes_iff t.name t.name))

others-IsTaken :
    (held : Bytes → Option Task) (t : Task) (out : List Task)
    → IsTaken held (t ∷ out)
    → IsTaken (drop t held) out
unfolding find
others-IsTaken held t out i = record {
  distinct = i.distinct.1;
  was_held = λ n u h. elim (Bool-cases (same_bytes t.name n)) [
    | inl e ↦ absurd (other n u h e)
    | inr e ↦ rw e (i.was_held n u (rw e h))
  ];
}
  where
    other : (n : Bytes) (u : Task) → find n out ≡ some u → same_bytes t.name n ≢ true
    other n u h e = ground (arith, i.distinct.0, same_bytes_iff t.name n)

remove_all_sorted-IsIndex :
    (held : Bytes → Option Task) (out : List Task) (q : Queue)
    → IsIndex held q.sorted
    → IsIndex (minus out held) (remove_all_sorted out q).sorted
unfolding remove_all_sorted find
remove_all_sorted-IsIndex held [] q i = i
remove_all_sorted-IsIndex held (t ∷ out) q i =
    agree (minus out (drop t held)) (minus (t ∷ out) held) _
      (remove_all_sorted-IsIndex (drop t held) out (record q { sorted = remove t q.sorted })
        (remove-IsIndex held t q.sorted i))
      (minus-drop held t out)

-- The queue but for its indexes, and but for its tasks.
abbrev pub no_indexes : Queue → Queue
no_indexes q = record q { sorted = []; sorted_per_tag = [] }

abbrev pub no_tasks : Queue → Queue
no_tasks q = record (no_indexes q) { tasks = [] }

pub remove_all_sorted-tags :
    (out : List Task) (q : Queue)
    → ((remove_all_sorted out q).sorted_per_tag ≡ q.sorted_per_tag)
      × (no_indexes (remove_all_sorted out q) ≡ no_indexes q)
unfolding remove_all_sorted
remove_all_sorted-tags [] q = (refl, refl)
remove_all_sorted-tags (t ∷ out) q =
    remove_all_sorted-tags out (record q { sorted = remove t q.sorted })

remove_all_sorted-index :
    (g : Bytes) (out : List Task) (q : Queue) → per_tag g (remove_all_sorted out q) ≡ per_tag g q
unfolding remove_all_sorted per_tag
remove_all_sorted-index g [] q = refl
remove_all_sorted-index g (t ∷ out) q =
    remove_all_sorted-index g out (record q { sorted = remove t q.sorted })

pub remove_all_per_tag-sorted :
    (out : List Task) (q : Queue)
    → ((remove_all_per_tag out q).sorted ≡ q.sorted)
      × (no_indexes (remove_all_per_tag out q) ≡ no_indexes q)
unfolding remove_all_per_tag remove_per_tag
remove_all_per_tag-sorted [] q = (refl, refl)
remove_all_per_tag-sorted (t ∷ out) q = remove_all_per_tag-sorted out (remove_per_tag t q)

abbrev AreTagged : (Bytes → Option Task) → Queue → Type 0
AreTagged held q = (g : Bytes) → IsIndex (λ n. with_tag g (held n)) (per_tag g q)

remove_all_per_tag-AreTagged :
    (held : Bytes → Option Task) (out : List Task) (q : Queue)
    → IsTaken held out
    → AreTagged held q
    → AreTagged (minus out held) (remove_all_per_tag out q)
unfolding remove_all_per_tag find remove_per_tag
remove_all_per_tag-AreTagged held [] q k i g = i g
remove_all_per_tag-AreTagged held (t ∷ out) q k i g =
    agree (λ n. with_tag g (minus out (drop t held) n)) (λ n. with_tag g (minus (t ∷ out) held n)) _
      (remove_all_per_tag-AreTagged (drop t held) out (remove_per_tag t q)
        (others-IsTaken held t out k)
        (replace-tagged held (drop t held) t.tag (remove t (per_tag t.tag q)) q i
          (agree _ _ (remove t (per_tag t.tag q))
            (remove-IsIndex (λ n. with_tag t.tag (held n)) t (per_tag t.tag q) (i t.tag))
            (drop-tag held t t.tag))
          (drop-other_tag held t (first_held held t out k)))
        g)
      (λ n. ap (with_tag g) (minus-drop held t out n))

-- What was taken out of the index of one tag, in the other indexes.
minus-tag :
    (out : List Task) (held : Bytes → Option Task) (tag n : Bytes)
    → minus out (λ n. with_tag tag (held n)) n ≡ with_tag tag (minus out held n)
minus-tag out held tag n = ground arith

minus-other_tag :
    (out : List Task) (held : Bytes → Option Task) (tag : Bytes)
    → IsTaken (λ n. with_tag tag (held n)) out
    → (g n : Bytes) → same_bytes tag g ≡ false
    → with_tag g (held n) ≡ with_tag g (minus out held n)
minus-other_tag out held tag k g n o = of (find n out) (λ t. k.was_held n t)
  where
    of :
        (f : Option Task)
        → ((t : Task) → f ≡ some t → with_tag tag (held n) ≡ some t)
        → with_tag g (held n) ≡ with_tag g (without f (held n))
    of none h = refl
    of (some t) h =
        ground
          (arith, h t refl, same_bytes_iff t.tag tag, same_bytes_iff t.tag g, same_bytes_iff tag g)

tagged-IsTaken :
    (out : List Task) (held : Bytes → Option Task) (tag : Bytes)
    → IsTaken (λ n. with_tag tag (held n)) out
    → IsTaken held out
tagged-IsTaken out held tag k = record {
  distinct = k.distinct;
  was_held = λ n t h. with_tag-held (held n) t (k.was_held n t h);
}
  where
    with_tag-held : (o : Option Task) (t : Task) → with_tag tag o ≡ some t → o ≡ some t
    with_tag-held o t h = ground arith

-- What `take_out` answers and leaves.
pub record AreTakenOut (held : Bytes → Option Task) (q : Queue) (r : List Task × Queue)
    : Type 0 where
  pub taken : IsTaken held r.0
  pub left : AreIndexes (minus r.0 held) r.1
  pub kept : no_indexes r.1 ≡ no_indexes q

take_sorted :
    (held : Bytes → Option Task) (now : ℤ) (max : ℕ) (q : Queue)
    → AreIndexes held q
    → AreTakenOut held q (take_out now max none q)
unfolding take_out per_tag
take_sorted held now max q i =
    let out = (extract now max q.sorted).0 in
    let left : Queue = record q { sorted = (extract now max q.sorted).1 } in
    let taken = extract-IsTaken held now max q.sorted i.whole in
    record {
      taken = taken;
      left = record {
        whole =
            rw (remove_all_per_tag-sorted out left).0
              (extract-IsIndex held now max q.sorted i.whole);
        tagged = remove_all_per_tag-AreTagged held out left taken i.tagged;
      };
      kept = (remove_all_per_tag-sorted out left).1;
    }

index_of :
    (held : Bytes → Option Task) (tag : Bytes) (q : Queue) (index : List Task)
    → lookup tag q.sorted_per_tag ≡ some index
    → IsIndex held (per_tag tag q)
    → IsIndex held index
unfolding per_tag
index_of held tag q index e i = rw (sym (ap or_nil e)) i

take_index :
    (held : Bytes → Option Task) (now : ℤ) (max : ℕ) (tag : Bytes) (q : Queue) (index : List Task)
    → IsIndex (λ n. with_tag tag (held n)) index
    → AreIndexes held q
    → AreTakenOut held q (take_tagged now max tag (some index) q)
take_index held now max tag q index k i =
    let out = (extract now max index).0 in
    let rest = (extract now max index).1 in
    let left : Queue = record q { sorted_per_tag = insert tag rest q.sorted_per_tag } in
    let taken = extract-IsTaken (λ n. with_tag tag (held n)) now max index k in
    record {
      taken = tagged-IsTaken out held tag taken;
      left = record {
        whole = remove_all_sorted-IsIndex held out left i.whole;
        tagged = λ g. rw (remove_all_sorted-index g out left) (
            replace-tagged held (minus out held) tag rest q i.tagged
              (agree _ _ rest (extract-IsIndex (λ n. with_tag tag (held n)) now max index k)
                (minus-tag out held tag))
              (minus-other_tag out held tag taken) g);
      };
      kept = (remove_all_sorted-tags out left).1;
    }

take_tag :
    (held : Bytes → Option Task) (now : ℤ) (max : ℕ) (tag : Bytes) (q : Queue)
    (index : Option (List Task))
    → lookup tag q.sorted_per_tag ≡ index
    → AreIndexes held q
    → AreTakenOut held q (take_tagged now max tag index q)
unfolding find
take_tag held now max tag q none e i = record {
  taken = record { distinct = tt; was_held = λ n t h. absurd (cc) };
  left = AreIndexes-agree held (minus [] held) q i (λ n. refl);
  kept = refl;
}
take_tag held now max tag q (some index) e i =
    take_index held now max tag q index
      (index_of (λ n. with_tag tag (held n)) tag q index e (i.tagged tag)) i

-- The tasks taken out were held, and are in no index any more.
pub take_out-AreTakenOut :
    (held : Bytes → Option Task) (now : ℤ) (max : ℕ) (tag : Option Bytes) (q : Queue)
    → AreIndexes held q
    → AreTakenOut held q (take_out now max tag q)
take_out-AreTakenOut held now max none q i = take_sorted held now max q i
take_out-AreTakenOut held now max (some tag) q i =
    unfold take_out in take_tag held now max tag q (lookup tag q.sorted_per_tag) refl i
