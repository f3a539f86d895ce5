-- ===== src/Memory/TaskQueue/Index/Find.antt =====
-- What is found in an index under a name.
use gae.Prelude.{
  ℕ, zero, suc, ◌≡◌, refl, Option, none, some, List, [], ◌∷◌, ◌++◌, arith, Bytes, same_bytes,
  same_bytes_iff, ℤ, if◌then◌else◌, Bool-cases, inl, inr,
}
use gae.Memory.TaskQueue.Task.{Task}
use gae.Memory.TaskQueue.Index.{add, remove, extract, less}

unfoldable pub find : Bytes → List Task → Option Task
find n [] = none
find n (t ∷ ts) = if same_bytes t.name n then some t else find n ts

abbrev pub Distinct : List Task → Type 0
Distinct [] = Unit
Distinct (t ∷ ts) = (find t.name ts ≡ none) × Distinct ts

-- What is found when the names of `out` are taken away.
abbrev pub without : Option Task → Option Task → Option Task
without none o = o
without (some t) o = none

pub find-named : (n : Bytes) (ts : List Task) (t : Task) → find n ts ≡ some t → t.name ≡ n
unfolding find
find-named n [] t h = absurd (cc)
find-named n (u ∷ us) t h = elim (Bool-cases (same_bytes u.name n)) [
  | inl e ↦ ground (arith, same_bytes_iff u.name n)
  | inr e ↦ find-named n us t (ground arith)
]

pub find-add :
    (n : Bytes) (t : Task) (ts : List Task)
    → find t.name ts ≡ none
    → find n (add t ts) ≡ (if same_bytes t.name n then some t else find n ts)
unfolding find add
find-add n t [] h = refl
find-add n t (u ∷ us) h = ground (
  arith,
  find-add n t us,
  same_bytes_iff u.name n,
  same_bytes_iff t.name n,
  same_bytes_iff u.name t.name,
)

pub add-Distinct :
    (t : Task) (ts : List Task) → find t.name ts ≡ none → Distinct ts → Distinct (add t ts)
unfolding find add
add-Distinct t [] h d = (refl, tt)
add-Distinct t (u ∷ us) h (n, d) = elim (Bool-cases (less u t)) [
  | inl e ↦ rw e (
    ground
        (arith, find-add u.name t us, same_bytes_iff u.name t.name, same_bytes_iff t.name u.name),
    add-Distinct t us (ground arith) d,
  )
  | inr e ↦ rw e (h, (n, d))
]

pub find-remove :
    (n : Bytes) (t : Task) (ts : List Task)
    → Distinct ts
    → find n (remove t ts) ≡ (if same_bytes t.name n then none else find n ts)
unfolding find remove
find-remove n t [] d = ground arith
find-remove n t (u ∷ us) (h, d) = ground (
  arith,
  find-remove n t us d,
  same_bytes_iff u.name n,
  same_bytes_iff t.name n,
  same_bytes_iff t.name u.name,
)

pub remove-Distinct : (t : Task) (ts : List Task) → Distinct ts → Distinct (remove t ts)
unfolding find remove
remove-Distinct t [] d = tt
remove-Distinct t (u ∷ us) (h, d) = elim (Bool-cases (same_bytes t.name u.name)) [
  | inl e ↦ rw e d
  | inr e ↦ rw e (ground (arith, find-remove u.name t us d), remove-Distinct t us d)
]

pub extract-append :
    (now : ℤ) (max : ℕ) (ts : List Task) → (extract now max ts).0 ++ (extract now max ts).1 ≡ ts
unfolding extract
extract-append now max [] = ground arith
extract-append now zero (t ∷ ts) = refl
extract-append now (suc max) (t ∷ ts) = ground (arith, extract-append now max ts)

abbrev pub first : Option Task → Option Task → Option Task
first none o = o
first (some t) o = some t

find-append : (n : Bytes) (xs ys : List Task) → find n (xs ++ ys) ≡ first (find n xs) (find n ys)
unfolding find
find-append n [] ys = refl
find-append n (x ∷ xs) ys = ground (arith, find-append n xs ys)

-- Of two parts of an index with distinct names.
pub find-rest :
    (n : Bytes) (out rest : List Task)
    → Distinct (out ++ rest)
    → find n rest ≡ without (find n out) (find n (out ++ rest))
unfolding find
find-rest n [] rest d = refl
find-rest n (t ∷ out) rest (h, d) =
    ground (arith, find-append t.name out rest, find-rest n out rest d, same_bytes_iff t.name n)

pub find-out :
    (n : Bytes) (out rest : List Task) (t : Task)
    → find n out ≡ some t
    → find n (out ++ rest) ≡ some t
find-out n out rest t h = ground (arith, find-append n out rest)

pub out-Distinct : (out rest : List Task) → Distinct (out ++ rest) → Distinct out × Distinct rest
unfolding find
out-Distinct [] rest d = (tt, d)
out-Distinct (t ∷ out) rest (h, d) = (
  (ground (arith, find-append t.name out rest), (out-Distinct out rest d).0),
  (out-Distinct out rest d).1,
)
