-- ===== src/Memory/TaskQueue/Queue/Indexes.antt =====
-- What the indexes of a queue hold.
use gae.Prelude.{
  ℕ, ◌≡◌, refl, sym, ap, ◌∙◌, false, Option, none, some, List, arith, Bytes, same_bytes,
  same_bytes_iff, if◌then◌else◌, ℤ, insert, lookup-insert, Bool-cases, inl, inr,
}
use gae.Memory.TaskQueue.Task.{Task}
use gae.Memory.TaskQueue.Index.{add, remove, extract}
use gae.Memory.TaskQueue.Index.Order.{Sorted, add-Sorted, remove-Sorted, rest-Sorted}
use gae.Memory.TaskQueue.Index.Find.{
  find, Distinct, without, find-add, add-Distinct, find-remove, remove-Distinct, find-rest,
  find-out, out-Distinct, extract-append,
}
use gae.Memory.TaskQueue.Queue.{Queue, per_tag, add_to_indexes, remove_per_tag, remove_from_indexes}

abbrev pub with_tag : Bytes → Option Task → Option Task
with_tag g none = none
with_tag g (some t) = if same_bytes t.tag g then some t else none

-- An index that holds, under each name, what it should.
pub record IsIndex (held : Bytes → Option Task) (ts : List Task) : Type 0 where
  pub sorted : Sorted ts
  pub distinct : Distinct ts
  pub found : (n : Bytes) → find n ts ≡ held n

-- All indexes of a queue.
pub record AreIndexes (held : Bytes → Option Task) (q : Queue) : Type 0 where
  pub whole : IsIndex held q.sorted
  pub tagged : (g : Bytes) → IsIndex (λ n. with_tag g (held n)) (per_tag g q)

abbrev pub put : Task → (Bytes → Option Task) → Bytes → Option Task
put t held n = if same_bytes t.name n then some t else held n

abbrev pub drop : Task → (Bytes → Option Task) → Bytes → Option Task
drop t held n = if same_bytes t.name n then none else held n

pub agree :
    (h k : Bytes → Option Task) (ts : List Task)
    → IsIndex h ts
    → ((n : Bytes) → h n ≡ k n)
    → IsIndex k ts
agree h k ts i e = record { sorted = i.sorted; distinct = i.distinct; found = λ n. i.found n ∙ e n }

pub AreIndexes-agree :
    (h k : Bytes → Option Task) (q : Queue)
    → AreIndexes h q
    → ((n : Bytes) → h n ≡ k n)
    → AreIndexes k q
AreIndexes-agree h k q i e = record {
  whole = agree h k q.sorted i.whole e;
  tagged = λ g.
      agree (λ n. with_tag g (h n)) (λ n. with_tag g (k n)) (per_tag g q) (i.tagged g)
        (λ n. ap (with_tag g) (e n));
}

add-IsIndex :
    (held : Bytes → Option Task) (t : Task) (ts : List Task)
    → held t.name ≡ none
    → IsIndex held ts
    → IsIndex (put t held) (add t ts)
add-IsIndex held t ts h i = record {
  sorted = add-Sorted t ts i.sorted;
  distinct = add-Distinct t ts (i.found t.name ∙ h) i.distinct;
  found = λ n.
      find-add n t ts (i.found t.name ∙ h)
      ∙ ap (λ o. if same_bytes t.name n then some t else o) (i.found n);
}

pub remove-IsIndex :
    (held : Bytes → Option Task) (t : Task) (ts : List Task)
    → IsIndex held ts
    → IsIndex (drop t held) (remove t ts)
remove-IsIndex held t ts i = record {
  sorted = remove-Sorted t ts i.sorted;
  distinct = remove-Distinct t ts i.distinct;
  found = λ n.
      find-remove n t ts i.distinct ∙ ap (λ o. if same_bytes t.name n then none else o) (i.found n);
}

-- The index of a tag after that of one tag is replaced.
per_tag-insert :
    (g h : Bytes) (ts : List Task) (q : Queue)
    → per_tag g (record q { sorted_per_tag = insert h ts q.sorted_per_tag })
      ≡ (if same_bytes h g then ts else per_tag g q)
unfolding per_tag
per_tag-insert g h ts q = ground (arith, lookup-insert h g ts q.sorted_per_tag)

-- One tag's index is replaced, and the others hold what they held.
pub replace-tagged :
    (h k : Bytes → Option Task) (tag : Bytes) (ts : List Task) (q : Queue)
    → ((g : Bytes) → IsIndex (λ n. with_tag g (h n)) (per_tag g q))
    → IsIndex (λ n. with_tag tag (k n)) ts
    → ((g n : Bytes) → same_bytes tag g ≡ false → with_tag g (h n) ≡ with_tag g (k n))
    → (g : Bytes)
    → IsIndex
        (λ n. with_tag g (k n))
        (per_tag g (record q { sorted_per_tag = insert tag ts q.sorted_per_tag }))
replace-tagged h k tag ts q old new same g = elim (Bool-cases (same_bytes tag g)) [
  | inl e ↦ rw (per_tag-insert g tag ts q, e) (rw (sym ((same_bytes_iff tag g).0 e)) new)
  | inr e ↦ rw (per_tag-insert g tag ts q, e) (agree _ _ (per_tag g q) (old g) (λ n. same g n e))
]

same_tag : (t : Task) → with_tag t.tag (some t) ≡ some t
same_tag t = ground (arith, same_bytes_iff t.tag t.tag)

-- What is put under a tag, in the index of that tag and of others.
put-tag :
    (held : Bytes → Option Task) (t : Task) (n : Bytes)
    → put t (λ n. with_tag t.tag (held n)) n ≡ with_tag t.tag (put t held n)
put-tag held t n = elim (Bool-cases (same_bytes t.name n)) [
  | inl e ↦ rw e (sym (same_tag t))
  | inr e ↦ rw e refl
]

put-other_tag :
    (held : Bytes → Option Task) (t : Task)
    → held t.name ≡ none
    → (g n : Bytes) → same_bytes t.tag g ≡ false
    → with_tag g (held n) ≡ with_tag g (put t held n)
put-other_tag held t h g n o = elim (Bool-cases (same_bytes t.name n)) [
  | inl e ↦ rw (e, o, sym ((same_bytes_iff t.name n).0 e), h) refl
  | inr e ↦ rw e refl
]

pub add_to_indexes-AreIndexes :
    (held : Bytes → Option Task) (t : Task) (q : Queue)
    → held t.name ≡ none
    → AreIndexes held q
    → AreIndexes (put t held) (add_to_indexes t q)
unfolding add_to_indexes per_tag
add_to_indexes-AreIndexes held t q h i = record {
  whole = add-IsIndex held t q.sorted h i.whole;
  tagged =
      replace-tagged held (put t held) t.tag (add t (per_tag t.tag q))
        (record q { sorted = add t q.sorted }) i.tagged
        (agree _ _ (add t (per_tag t.tag q))
          (add-IsIndex (λ n. with_tag t.tag (held n)) t (per_tag t.tag q) (ap (with_tag t.tag) h)
            (i.tagged t.tag))
          (put-tag held t))
        (put-other_tag held t h);
}

pub drop-tag :
    (held : Bytes → Option Task) (t : Task) (g n : Bytes)
    → drop t (λ n. with_tag g (held n)) n ≡ with_tag g (drop t held n)
drop-tag held t g n = ground arith

pub drop-other_tag :
    (held : Bytes → Option Task) (t : Task)
    → held t.name ≡ some t
    → (g n : Bytes) → same_bytes t.tag g ≡ false
    → with_tag g (held n) ≡ with_tag g (drop t held n)
drop-other_tag held t h g n o = elim (Bool-cases (same_bytes t.name n)) [
  | inl e ↦ rw (e, sym ((same_bytes_iff t.name n).0 e), h, o) refl
  | inr e ↦ rw e refl
]

pub remove_from_indexes-AreIndexes :
    (held : Bytes → Option Task) (t : Task) (q : Queue)
    → held t.name ≡ some t
    → AreIndexes held q
    → AreIndexes (drop t held) (remove_from_indexes t q)
unfolding remove_from_indexes remove_per_tag per_tag
remove_from_indexes-AreIndexes held t q h i = record {
  whole = remove-IsIndex held t q.sorted i.whole;
  tagged =
      replace-tagged held (drop t held) t.tag (remove t (per_tag t.tag q))
        (record q { sorted = remove t q.sorted }) i.tagged
        (agree _ _ (remove t (per_tag t.tag q))
          (remove-IsIndex (λ n. with_tag t.tag (held n)) t (per_tag t.tag q) (i.tagged t.tag))
          (drop-tag held t t.tag))
        (drop-other_tag held t h);
}

-- Under each name the task of `out`, or else what was held.
abbrev pub minus : List Task → (Bytes → Option Task) → Bytes → Option Task
minus out held n = without (find n out) (held n)

-- What is left of an index, and what was extracted.
pub extract-IsIndex :
    (held : Bytes → Option Task) (now : ℤ) (max : ℕ) (ts : List Task)
    → IsIndex held ts
    → IsIndex (minus (extract now max ts).0 held) (extract now max ts).1
extract-IsIndex held now max ts i =
    let whole = extract-append now max ts in
    record {
      sorted = rest-Sorted (extract now max ts).0 (extract now max ts).1 (rw whole i.sorted);
      distinct =
          (out-Distinct (extract now max ts).0 (extract now max ts).1 (rw whole i.distinct)).1;
      found = λ n.
          find-rest n (extract now max ts).0 (extract now max ts).1 (rw whole i.distinct)
          ∙ ap (without (find n (extract now max ts).0)) (ap (find n) whole ∙ i.found n);
    }

-- The tasks that are extracted differ in their names and were held.
pub record IsTaken (held : Bytes → Option Task) (out : List Task) : Type 0 where
  pub distinct : Distinct out
  pub was_held : (n : Bytes) (t : Task) → find n out ≡ some t → held n ≡ some t

pub extract-IsTaken :
    (held : Bytes → Option Task) (now : ℤ) (max : ℕ) (ts : List Task)
    → IsIndex held ts
    → IsTaken held (extract now max ts).0
extract-IsTaken held now max ts i =
    let whole = extract-append now max ts in
    record {
      distinct =
          (out-Distinct (extract now max ts).0 (extract now max ts).1 (rw whole i.distinct)).0;
      was_held = λ n t h.
          sym (ap (find n) whole ∙ i.found n)
          ∙ find-out n (extract now max ts).0 (extract now max ts).1 t h;
    }
