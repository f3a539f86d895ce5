-- ===== src/Filters/ReadOnly/Refusal.antt =====
-- Which keys are refused.
use gae.Prelude.{
  ℕ, ◌+◌, ◌==◌, ◌≤◌, ◌≡◌, refl, sym, ◌∙◌, ap, Bool, true, Option, none, some, List, [], ◌∷◌, ◌++◌,
  if◌then◌else◌, arith, Bool-cases, inl, inr,
}
use mathlib.Core.List.{append_assoc, append-nil}
use gae.Filters.ReadOnly.{
  Failure, read_only, PerKey, Impl, mutable_from, mutable, and_then, refuse, call_impl, run,
}

-- A caller that writes down what it is told of each key.
abbrev pub Log : Type 0 → Type 0
Log E = List (ℕ × Option (Failure E))

abbrev pub note : {E : Type 0} → PerKey E (Log E)
note idx err log = (none, log ++ (idx, err) ∷ [])

-- The keys that the predicate names, each refused.
unfoldable pub refused_from : {K E : Type 0} → (K → Bool) → ℕ → List K → Log E
refused_from is_ro idx [] = []
refused_from is_ro idx (k ∷ ks) =
    let rest = refused_from is_ro (idx + 1) ks in
    if is_ro k then (idx, some read_only) ∷ rest else rest

abbrev IsFrom : ℕ → List ℕ → Type 0
IsFrom j [] = Unit
IsFrom j (m ∷ ms) = j ≤ m

module _ {K : Type 0} (is_ro : K → Bool) where
  weaken : (i j : ℕ) (l : List ℕ) → i ≤ j → IsFrom j l → IsFrom i l
  weaken i j [] h f = tt
  weaken i j (m ∷ ms) h f = omega (arith, h, f)

  mutable-IsFrom : (j : ℕ) (ks : List K) → IsFrom j (mutable_from is_ro j ks)
  unfolding mutable_from
  mutable-IsFrom j [] = tt
  mutable-IsFrom j (k ∷ ks) = elim (Bool-cases (is_ro k)) [
    | inl e ↦
        rw e (
          weaken j (j + 1) (mutable_from is_ro (j + 1) ks) (omega arith)
            (mutable-IsFrom (j + 1) ks))
    | inr e ↦ rw e (omega arith)
  ]

itself : (n : ℕ) → n == n ≡ true
itself n = ground arith

module _ {K E : Type 0} (is_ro : K → Bool) where
  -- A key before the cursor's is refused.
  refuse-next :
      (j : ℕ) (k : K) (ks : List K) (l : List ℕ) (log : Log E)
      → IsFrom (j + 1) l
      → refuse {K = K} {E = E} {S = Log E} note j (k ∷ ks) l log
        ≡ refuse {K = K} {E = E} {S = Log E} note (j + 1) ks l (log ++ (j, some read_only) ∷ [])
  unfolding refuse
  refuse-next j k ks [] log f = refl
  refuse-next j k ks (m ∷ ms) log f = ground (arith, f)

  refuse-mutable :
      (j : ℕ) (ks : List K) (log : Log E)
      → refuse {K = K} {E = E} {S = Log E} note j ks (mutable_from is_ro j ks) log
        ≡ (none, log ++ refused_from is_ro j ks)
  unfolding mutable_from refused_from refuse
  refuse-mutable j [] log = ap (λ l. (none, l)) (sym (append-nil log))
  refuse-mutable j (k ∷ ks) log = elim (Bool-cases (is_ro k)) [
    | inl e ↦ rw e (
        refuse-next j k ks (mutable_from is_ro (j + 1) ks) log (mutable-IsFrom is_ro (j + 1) ks)
        ∙ refuse-mutable (j + 1) ks (log ++ (j, some read_only) ∷ [])
        ∙ ap (λ l. (none, l))
            (append_assoc log ((j, some read_only) ∷ []) (refused_from is_ro (j + 1) ks)))
    | inr e ↦ rw (e, itself j) (refuse-mutable (j + 1) ks log)
  ]

-- A caller that writes down what it is told learns from `run`, after what the service below tells it
-- of the keys that may be written (nothing, if there are none), that each key which the predicate
-- names is refused, in order, and no other. Where the service fails, `run` fails so.
pub run-refuses :
    {K E : Type 0} (is_ro : K → Bool) (keys : List K) (impl : Impl E (Log E)) (log : Log E)
    → run (some is_ro) keys impl note log
      ≡ and_then
          (call_impl (mutable_from is_ro 0 keys) impl note log)
          (λ after. (none, after ++ refused_from is_ro 0 keys))
unfolding run mutable
run-refuses {K = K} {E = E} is_ro keys impl log =
    after (call_impl (mutable_from is_ro 0 keys) impl note log)
  where
    after :
        (r : Option (Failure E) × Log E)
        → and_then r (refuse {K = K} {E = E} {S = Log E} note 0 keys (mutable_from is_ro 0 keys))
          ≡ and_then r (λ after. (none, after ++ refused_from is_ro 0 keys))
    after (some e, s) = refl
    after (none, s) = refuse-mutable is_ro 0 keys s
