-- ===== src/Filters/TxnBuf/SizeTracker.antt =====
-- filter/txnBuf/state.go: sizeTracker, the sizes of what a transaction has buffered.
-- A size is an estimate of `EstimateSize`, which is a sum of lengths and so no negative number.
use gae.Prelude.{
  ℕ, ◌+◌, ◌≡◌, refl, ap, ◌∙◌, Bool, true, false, Option, none, some, List, [], ◌∷◌, length, arith,
  Bytes, same_bytes_iff, ℤ, pos, negsuc, ◌+ℤ◌, difference, lookup, insert,
}
use gae.Memory.Datastore.Data.{int64}

pub record SizeTracker : Type 0 where
  pub key_to_size : List (Bytes × ℕ)
  pub total : ℤ

abbrev pub no_sizes : SizeTracker
no_sizes = record { key_to_size = []; total = pos 0 }

abbrev or_zero : Option ℕ → ℕ
or_zero none = 0
or_zero (some n) = n

abbrev add_len : Option ℕ → Bytes → ℤ → ℤ
add_len none key total = int64 (total +ℤ pos (length key))
add_len (some n) key total = total

-- A size of 0 is a deletion.
unfoldable pub set : Bytes → ℕ → SizeTracker → SizeTracker
set key val s =
    let prev = lookup key s.key_to_size in
    record {
      key_to_size = insert key val s.key_to_size;
      total = add_len prev key (int64 (s.total +ℤ difference val (or_zero prev)));
    }

unfoldable pub get : Bytes → SizeTracker → Option ℕ
get key s = lookup key s.key_to_size

abbrev is_some : Option ℕ → Bool
is_some none = false
is_some (some n) = true

unfoldable pub has : Bytes → SizeTracker → Bool
has key s = is_some (lookup key s.key_to_size)

unfoldable pub num_writes : SizeTracker → ℕ
num_writes s = length s.key_to_size

-- The copy, which only an empty tracker does not share the total of.
unfoldable pub dup : SizeTracker → SizeTracker
dup s = elim s.key_to_size [ [] ↦ no_sizes | _ ∷ _ ↦ s ]

-- The bytes of the keys and of the entities that stand in a map of sizes.
unfoldable pub weight : List (Bytes × ℕ) → ℕ
weight [] = 0
weight ((k, n) ∷ m) = length k + n + weight m

weight-insert :
    (k : Bytes) (v : ℕ) (m : List (Bytes × ℕ))
    → weight (insert k v m) + elim (lookup k m) [ none ↦ 0 | some n ↦ length k + n ]
      ≡ length k + v + weight m
unfolding weight insert lookup
weight-insert k v [] = omega arith
weight-insert k v ((j, n) ∷ m) = ground (arith, same_bytes_iff j k, weight-insert k v m)

int64-add : (n : ℕ) (d : ℤ) → int64 (int64 (pos n) +ℤ d) ≡ int64 (pos n +ℤ d)
unfolding int64
int64-add n (pos m) = ground arith
int64-add n (negsuc m) = ground arith

-- The total counts the keys and the entities, as an int64.
abbrev pub IsExact : SizeTracker → Type 0
IsExact s = s.total ≡ int64 (pos (weight s.key_to_size))

-- What a `set` adds to the weight, given the size that was there.
sum_of : (w w' n v : ℕ) → w' + n ≡ v + w → int64 (int64 (pos w) +ℤ difference v n) ≡ int64 (pos w')
sum_of w w' n v h = int64-add w (difference v n) ∙ ap int64 (ground arith)

-- The total of a sizeTracker that counts each key once, with its length and the size of its entity, counts
-- so after a set, as an int64 that wraps.
pub set-IsExact : (key : Bytes) (val : ℕ) (s : SizeTracker) → IsExact s → IsExact (set key val s)
unfolding set
set-IsExact key val s h = of (lookup key s.key_to_size) refl
  where
    m : List (Bytes × ℕ)
    m = s.key_to_size

    of :
        (o : Option ℕ)
        → o ≡ lookup key m
        → add_len o key (int64 (s.total +ℤ difference val (or_zero o)))
          ≡ int64 (pos (weight (insert key val m)))
    of (some n) e = rw h (
        sum_of (weight m) (weight (insert key val m)) n val
          (ground (arith, weight-insert key val m, e)))
    of none e = rw h (
        ap (λ t. int64 (t +ℤ pos (length key)))
          (sum_of (weight m) (weight m + val) 0 val (omega arith))
        ∙ int64-add (weight m + val) (pos (length key))
        ∙ ap int64 (ground (arith, weight-insert key val m, e)))
