-- ===== src/Memory/TaskQueue/Index.antt =====
-- impl/memory/taskqueue_data.go: taskIndex, a heap of tasks by ETA and name. The names in an index
-- differ, so its least task is unique and the heap of container/heap is the sorted list; a pointer to
-- a task is the task, and two pointers are the same where the names are.
pub mod Order
pub mod Find
use gae.Prelude.{
  ℕ, zero, suc, ◌&&◌, not, Bool, Option, none, some, List, [], ◌∷◌, same_bytes, cmp_bytes, is_lt, ℤ,
  ltb_ℤ, eqb_ℤ, if◌then◌else◌,
}
use gae.Memory.TaskQueue.Task.{Task}

unfoldable pub less : Task → Task → Bool
less t u = if eqb_ℤ t.eta u.eta then is_lt (cmp_bytes t.name u.name) else ltb_ℤ t.eta u.eta

unfoldable pub add : Task → List Task → List Task
add t [] = t ∷ []
add t (u ∷ us) = let rest = add t us in if less u t then u ∷ rest else t ∷ u ∷ us

unfoldable pub remove : Task → List Task → List Task
remove t [] = []
remove t (u ∷ us) = let rest = remove t us in if same_bytes t.name u.name then us else u ∷ rest

unfoldable pub peek : List Task → Option Task
peek [] = none
peek (t ∷ ts) = some t

-- The tasks and the index that is left.
unfoldable pub extract : ℤ → ℕ → List Task → List Task × List Task
extract now max [] = ([], [])
extract now zero ts = ([], ts)
extract now (suc max) (t ∷ ts) =
    let rest = extract now max ts in
    if not (ltb_ℤ now t.eta) then (t ∷ rest.0, rest.1) else ([], t ∷ ts)
