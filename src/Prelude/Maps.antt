-- ===== src/Prelude/Maps.antt =====
-- Maps from strings, as association lists in which a key stands at most once.
use mathlib.Core.Path.{◌≡◌}
use mathlib.Core.Logic.{◌≢◌}
use mathlib.Core.Option.{Option, none, some}
use mathlib.Core.List.{List, [], ◌∷◌}
use native.Mathlib.Omega.{arith}
use gae.Prelude.Tests.{if◌then◌else◌}
use gae.Prelude.Strings.{Bytes, same_bytes, same_bytes_iff}

module _ {V : Type 0} where
  unfoldable pub lookup : Bytes → List (Bytes × V) → Option V
  lookup k [] = none
  lookup k ((j, v) ∷ m) = if same_bytes j k then some v else lookup k m

  unfoldable pub insert : Bytes → V → List (Bytes × V) → List (Bytes × V)
  insert k v [] = (k, v) ∷ []
  insert k v ((j, w) ∷ m) = if same_bytes j k then (k, v) ∷ m else (j, w) ∷ insert k v m

  unfoldable pub delete : Bytes → List (Bytes × V) → List (Bytes × V)
  delete k [] = []
  delete k ((j, w) ∷ m) = let rest = delete k m in if same_bytes j k then rest else (j, w) ∷ rest

module _ {V : Type 0} where
  pub lookup-insert_self :
      (k : Bytes) (v : V) (m : List (Bytes × V)) → lookup k (insert k v m) ≡ some v
  unfolding lookup insert
  lookup-insert_self k v [] = ground (arith, same_bytes_iff k k)
  lookup-insert_self k v ((j, w) ∷ m) =
      ground (arith, same_bytes_iff k k, same_bytes_iff j k, lookup-insert_self k v m)

  pub insert-insert :
      (k : Bytes) (v w : V) (m : List (Bytes × V)) → insert k v (insert k w m) ≡ insert k v m
  unfolding insert
  insert-insert k v w [] = ground (arith, same_bytes_iff k k)
  insert-insert k v w ((j, u) ∷ m) =
      ground (arith, same_bytes_iff k k, same_bytes_iff j k, insert-insert k v w m)

  pub lookup-insert_ne :
      (k j : Bytes) (v : V) (m : List (Bytes × V)) → j ≢ k → lookup j (insert k v m) ≡ lookup j m
  unfolding lookup insert
  lookup-insert_ne k j v [] n = ground (arith, same_bytes_iff k j)
  lookup-insert_ne k j v ((i, w) ∷ m) n = ground (
    arith,
    same_bytes_iff k j,
    same_bytes_iff i k,
    same_bytes_iff i j,
    lookup-insert_ne k j v m n,
  )

  pub lookup-insert :
      (k j : Bytes) (v : V) (m : List (Bytes × V))
      → lookup j (insert k v m) ≡ (if same_bytes k j then some v else lookup j m)
  unfolding lookup insert
  lookup-insert k j v [] = ground arith
  lookup-insert k j v ((i, w) ∷ m) =
      ground
        (arith, same_bytes_iff k j, same_bytes_iff i k, same_bytes_iff i j, lookup-insert k j v m)

  pub lookup-delete :
      (k j : Bytes) (m : List (Bytes × V))
      → lookup j (delete k m) ≡ (if same_bytes k j then none else lookup j m)
  unfolding lookup delete
  lookup-delete k j [] = ground arith
  lookup-delete k j ((i, w) ∷ m) =
      ground
        (arith, same_bytes_iff k j, same_bytes_iff i k, same_bytes_iff i j, lookup-delete k j m)
