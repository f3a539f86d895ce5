-- ===== src/Memory/Datastore/Transaction/Conflict.antt =====
-- A transaction does not commit over a write to an entity group that it wrote.
use gae.Prelude.{ℕ, ◌+◌, ◌<◌, ◌≡◌, true, false, some, List, [], ◌∷◌, Bytes, pos, ◌⊎◌}
use gae.Datastore.Key.{Key, root}
use gae.Serialize.Cmpbin.{Cmpbin}
use gae.Memory.Datastore.Data.{DataStoreData}
use gae.Memory.Datastore.Transaction.{Mutation}
use gae.Memory.Datastore.Transaction.Writes.{version}

-- One of the mutations is in the entity group of the key.
abbrev pub Touches : Key → List Mutation → Type 0
Touches r [] = true ≡ false
Touches r (w ∷ ms) = (root w.key ≡ root r) ⊎ Touches r ms

module _ (c : Cmpbin) (sha256 : Bytes → Bytes) where
  -- The version is higher by `j`, which is not 0 if the group was written.
  record IsHigher (r : Key) (n : ℕ) (ms : List Mutation) (d : DataStoreData) : Type 0 where
    j : ℕ
    is_version : version c sha256 r d ≡ some (pos (n + j))
    grows : Touches r ms → 0 < j
