-- ===== src/Memory/TaskQueue/Task.antt =====
-- The tasks of service/taskqueue/types.go, and what impl/memory/taskqueue.go does to one before it is
-- queued. RetryOptions, which the code only copies, are left out.
use gae.Prelude.{
  ℕ, ◌&&◌, ◌||◌, not, Bool, true, false, Option, none, some, List, [], ◌∷◌, ◌++◌, length, any, all,
  leb, ◌==◌, Bytes, codes, same_bytes, if◌then◌else◌, ℤ, pos, ◌+ℤ◌, eqb_ℤ, lookup, insert,
}

-- A time is a number of nanoseconds after the zero time of Go, as is a duration.
pub record Task : Type 0 where
  pub path : Bytes
  pub payload : Bytes
  pub header : List (Bytes × List Bytes)
  pub method : Bytes
  pub name : Bytes
  pub delay : ℤ
  pub eta : ℤ
  pub tag : Bytes

pub data Error : Type 0 where
  bad_request invalid_task_name unknown_queue tombstoned_task unknown_task : Error
  invalid_queue_mode task_lease_expired task_already_added : Error
  named_in_transaction bad_method : Error
  not_in_transaction impossible_call : Error

-- What a method on many tasks fails with: an error, or one error or none for each task.
pub data Failure : Type 0 where
  one : Error → Failure
  multi : List (Option Error) → Failure

abbrev pub pull : Bytes
pull = codes "PULL"

abbrev pub current_namespace : Bytes
current_namespace = codes "X-Appengine-Current-Namespace"

abbrev in_range : ℕ → ℕ → ℕ → Bool
in_range low high b = leb low b && leb b high

-- A character of `[0-9a-zA-Z\-\_]`.
abbrev is_name_char : ℕ → Bool
is_name_char b = in_range 48 57 b || in_range 97 122 b || in_range 65 90 b || b == 45 || b == 95

unfoldable pub valid_task_name : Bytes → Bool
valid_task_name name = all is_name_char name && leb (length name) 500

abbrev good_methods : List Bytes
good_methods =
    [] ∷ codes "POST" ∷ codes "PUT" ∷ pull ∷ codes "GET" ∷ codes "HEAD" ∷ codes "DELETE" ∷ []

unfoldable pub check_task : Bool → Task → Option Error
check_task is_txn t =
    if is_txn && not (same_bytes t.name [])
    then some named_in_transaction
    else if not (same_bytes t.name []) && not (valid_task_name t.name)
    then some invalid_task_name
    else if not (any (same_bytes t.method) good_methods)
    then some bad_method
    else none

unfoldable pub check_tasks : Bool → List Task → List (Option Error)
check_tasks is_txn [] = []
check_tasks is_txn (t ∷ ts) = check_task is_txn t ∷ check_tasks is_txn ts

abbrev pub is_error : Option Error → Bool
is_error none = false
is_error (some e) = true

-- The error of the batch, if one task has one.
unfoldable pub check_many_tasks : Bool → List Task → Option Failure
check_many_tasks is_txn ts =
    if any is_error (check_tasks is_txn ts) then some (multi (check_tasks is_txn ts)) else none

infixl 5 ◌>>=◌
abbrev ◌>>=◌ : {A B : Type 0} → Option A → (A → Option B) → Option B
none >>= f = none
some a >>= f = f a

-- The time, the new name, the queue's name and the namespace; none is a panic.
unfoldable pub with_eta : ℤ → Task → Option Task
with_eta now t =
    if eqb_ℤ t.eta (pos 0)
    then some (record t { eta = now +ℤ t.delay; delay = pos 0 })
    else if not (eqb_ℤ t.delay (pos 0))
    then none
    else some (record t { delay = pos 0 })

unfoldable pub with_method : Task → Option Task
with_method t =
    if same_bytes t.method []
    then some (record t { method = codes "POST" })
    else if same_bytes t.method (codes "POST")
        || same_bytes t.method (codes "PUT")
        || same_bytes t.method pull
    then some t
    else if same_bytes t.method (codes "GET")
        || same_bytes t.method (codes "HEAD")
        || same_bytes t.method (codes "DELETE")
    then some (record t { payload = [] })
    else none

abbrev has_header : Option (List Bytes) → Bool
has_header none = false
has_header (some v) = true

unfoldable pub with_http : Bytes → Bytes → Task → Task
with_http queue_name ns t =
    if same_bytes t.method pull then record t { path = []; header = [] } else record t {
      path = if same_bytes t.path [] then codes "/_ah/queue/" ++ queue_name else t.path;
      header =
          if not (has_header (lookup current_namespace t.header)) && not (same_bytes ns [])
          then insert current_namespace (ns ∷ []) t.header
          else t.header;
    }

unfoldable pub prep_task : ℤ → Task → Bytes → Bytes → Bytes → Option Task
prep_task now task task_name queue_name ns = if same_bytes task_name [] then none else do
  t ← with_eta now (record task { name = task_name })
  u ← with_method t
  some (with_http queue_name ns u)

abbrev first_header : Option (List Bytes) → Bytes
first_header none = []
first_header (some []) = []
first_header (some (v ∷ vs)) = v

unfoldable pub task_namespace : Task → Bytes
task_namespace t = first_header (lookup current_namespace t.header)
