-- ===== src/Memory/TaskQueue/Index/Order.antt =====
-- An index is sorted, and what is extracted are its first ready tasks.
use gae.Prelude.{
  ◌∙◌, sym, eq_right, ◌≡◌, true, false, Ordering, List, [], ◌∷◌, ◌++◌, All, arith, IsOrder,
  both-IsOrder, by_part, cmp_ℤ, cmp_ℤ-IsOrder, same_bytes, cmp_bytes, cmp_bytes-IsOrder, is_lt,
  or_else, Bool-cases, inl, inr,
}
use gae.Memory.TaskQueue.Task.{Task}
use gae.Memory.TaskQueue.Index.{less, add, remove}

abbrev cmp_task : Task → Task → Ordering
cmp_task t u = or_else (cmp_ℤ t.eta u.eta) (cmp_bytes t.name u.name)

less-lt : (t u : Task) → less t u ≡ is_lt (cmp_task t u)
unfolding less
less-lt t u = ground arith

cmp_task-IsOrder : IsOrder (λ (t : Task). Unit) cmp_task
cmp_task-IsOrder =
    both-IsOrder _ _ (by_part cmp_ℤ-IsOrder (λ (t : Task). Unit) (λ t. t.eta) (λ _ _. tt))
      (by_part cmp_bytes-IsOrder (λ (t : Task). Unit) (λ t. t.name) (λ _ _. tt))

-- Each task is before or beside those that follow.
abbrev pub Sorted : List Task → Type 0
Sorted [] = Unit
Sorted (t ∷ ts) = All (λ u. less u t ≡ false) ts × Sorted ts

module _ {A : Type 0} {cmp : A → A → Ordering} (o : IsOrder (λ (a : A). Unit) cmp) where
  not_lt_trans :
      (a b c : A) → is_lt (cmp b a) ≡ false → is_lt (cmp c b) ≡ false → is_lt (cmp c a) ≡ false
  not_lt_trans a b c h k = ground (
    arith,
    o.swapped b a tt tt,
    o.swapped c b tt tt,
    o.swapped c a tt tt,
    o.lt_trans a b c tt tt tt,
    o.eq_left a b c tt tt tt,
    eq_right o a b c tt tt tt,
  )

  lt-asym : (a b : A) → is_lt (cmp a b) ≡ true → is_lt (cmp b a) ≡ false
  lt-asym a b h = ground (arith, o.swapped a b tt tt)

-- If u is not before t, and v is not before u, then v is not before t.
below : (t u v : Task) → less u t ≡ false → less v u ≡ false → less v t ≡ false
below t u v h k =
    less-lt v t
    ∙ not_lt_trans cmp_task-IsOrder t u v (sym (less-lt u t) ∙ h) (sym (less-lt v u) ∙ k)

All-below :
    (t u : Task) (ts : List Task)
    → less u t ≡ false
    → All (λ v. less v u ≡ false) ts
    → All (λ v. less v t ≡ false) ts
All-below t u [] h a = tt
All-below t u (v ∷ vs) h (k, a) = (below t u v h k, All-below t u vs h a)

before : (t u : Task) → less t u ≡ true → less u t ≡ false
before t u h = less-lt u t ∙ lt-asym cmp_task-IsOrder t u (sym (less-lt t u) ∙ h)

add-All :
    (t u : Task) (ts : List Task)
    → less t u ≡ false
    → All (λ v. less v u ≡ false) ts
    → All (λ v. less v u ≡ false) (add t ts)
unfolding add
add-All t u [] h a = (h, tt)
add-All t u (v ∷ vs) h (k, a) = elim (Bool-cases (less v t)) [
  | inl e ↦ rw e (k, add-All t u vs h a)
  | inr e ↦ rw e (h, (k, a))
]

pub add-Sorted : (t : Task) (ts : List Task) → Sorted ts → Sorted (add t ts)
unfolding add
add-Sorted t [] s = (tt, tt)
add-Sorted t (u ∷ us) (a, s) = elim (Bool-cases (less u t)) [
  | inl e ↦ rw e (add-All t u us (before u t e) a, add-Sorted t us s)
  | inr e ↦ rw e ((e, All-below t u us e a), (a, s))
]

remove-All :
    (t u : Task) (ts : List Task)
    → All (λ v. less v u ≡ false) ts
    → All (λ v. less v u ≡ false) (remove t ts)
unfolding remove
remove-All t u [] a = tt
remove-All t u (v ∷ vs) (h, a) = elim (Bool-cases (same_bytes t.name v.name)) [
  | inl e ↦ rw e a
  | inr e ↦ rw e (h, remove-All t u vs a)
]

pub remove-Sorted : (t : Task) (ts : List Task) → Sorted ts → Sorted (remove t ts)
unfolding remove
remove-Sorted t [] s = tt
remove-Sorted t (u ∷ us) (a, s) = elim (Bool-cases (same_bytes t.name u.name)) [
  | inl e ↦ rw e s
  | inr e ↦ rw e (remove-All t u us a, remove-Sorted t us s)
]

pub rest-Sorted : (out rest : List Task) → Sorted (out ++ rest) → Sorted rest
rest-Sorted [] rest s = s
rest-Sorted (t ∷ out) rest (a, s) = rest-Sorted out rest s
