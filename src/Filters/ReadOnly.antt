-- ===== src/Filters/ReadOnly.antt =====
-- filter/readonly/rds.go: the filter that refuses to change the keys that a predicate names.
pub mod Refusal
use gae.Prelude.{ℕ, ◌+◌, ◌==◌, Bool, true, false, Option, none, some, List, [], ◌∷◌, if◌then◌else◌}

pub data Failure (E : Type 0) : Type 0 where
  own : E → Failure E
  read_only : Failure E

-- A function that acts on the state `S` of the caller and of the service below, and may fail.
abbrev pub Action : Type 0 → Type 0 → Type 0
Action E S = S → Option (Failure E) × S

-- The callback for one key, by its index.
abbrev pub PerKey : Type 0 → Type 0 → Type 0
PerKey E S = ℕ → Option (Failure E) → Action E S

-- What the service below does with the keys at some indices.
abbrev pub Impl : Type 0 → Type 0 → Type 0
Impl E S = List ℕ → PerKey E S → Action E S

-- The indices of the keys that may be written, from `idx` on.
unfoldable pub mutable_from : {K : Type 0} → (K → Bool) → ℕ → List K → List ℕ
mutable_from is_ro idx [] = []
mutable_from is_ro idx (k ∷ ks) =
    let rest = mutable_from is_ro (idx + 1) ks in if is_ro k then rest else idx ∷ rest

-- With no predicate no key may be written.
unfoldable pub mutable : {K : Type 0} → Option (K → Bool) → List K → List ℕ
mutable none keys = []
mutable (some is_ro) keys = mutable_from is_ro 0 keys

module _ {E S : Type 0} where
  abbrev pub and_then : Option (Failure E) × S → Action E S → Option (Failure E) × S
  and_then (some e, s) next = (some e, s)
  and_then (none, s) next = next s

  abbrev pub call_impl : List ℕ → Impl E S → PerKey E S → Action E S
  call_impl [] impl cb s = (none, s)
  call_impl (m ∷ ms) impl cb s = impl (m ∷ ms) cb s

module _ {K E S : Type 0} where
  -- The second loop of `run`, with what is left of `mutable` behind the cursor.
  unfoldable pub refuse : PerKey E S → ℕ → List K → List ℕ → Action E S
  refuse cb idx [] mutable s = (none, s)
  refuse cb idx (k ∷ ks) [] s = and_then (cb idx (some read_only) s) (refuse cb (idx + 1) ks [])
  refuse cb idx (k ∷ ks) (m ∷ ms) s =
      if idx == m
      then refuse cb (idx + 1) ks ms s
      else and_then (cb idx (some read_only) s) (refuse cb (idx + 1) ks (m ∷ ms))

  unfoldable pub run : Option (K → Bool) → List K → Impl E S → PerKey E S → Action E S
  run is_ro keys impl cb s =
      let indices = mutable is_ro keys in
      and_then (call_impl indices impl cb s) (refuse cb 0 keys indices)
