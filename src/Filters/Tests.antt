-- ===== src/Filters/Tests.antt =====
-- The theorems on filters at concrete inputs.
use gae.Prelude.{
  ◌≡◌, refl, none, some, List, [], ◌∷◌, ℕ, suc, Bytes, codes, same_bytes, cmp_bytes, if◌then◌else◌,
}
use gae.Filters.FeatureBreaker.{own, State, Action, run, break_features}
use gae.Filters.FeatureBreaker.Breaking.{break_features-run, named}
use gae.Prelude.{Bool, ◌==◌, ◌++◌}
use gae.Filters.ReadOnly
use gae.Filters.ReadOnly.{Impl, mutable_from, and_then, call_impl}
use gae.Filters.ReadOnly.Refusal.{Log, note, refused_from, run-refuses}

-- A service whose state is a number and whose method adds one to it.
abbrev count : Action ℕ ℕ
count n = (none, suc n)

abbrev unbroken : State ℕ ℕ
unbroken = record { broken = []; default_error = some (own 7) }

abbrev add_and_set : List Bytes
add_and_set = codes "Add" ∷ codes "Set" ∷ []

break_features-run_example :
    (s' : State ℕ ℕ) × (break_features none add_and_set unbroken ≡ some s')
    × (run s' (codes "Set") count 3 ≡ (
        if named (codes "Set") add_and_set
        then (some (own 7), 3)
        else run unbroken (codes "Set") count 3))
unfolding same_bytes cmp_bytes
break_features-run_example = break_features-run unbroken none add_and_set (codes "Set") count 3 refl

abbrev is_two : ℕ → Bool
is_two k = k == 2

-- A service that tells of no key.
abbrev silent : Impl ℕ (Log ℕ)
silent indices cb log = (none, log)

run-refuses_example :
    ReadOnly.run (some is_two) (1 ∷ 2 ∷ []) silent note []
    ≡ and_then
        (call_impl (mutable_from is_two 0 (1 ∷ 2 ∷ [])) silent note [])
        (λ after. (none, after ++ refused_from is_two 0 (1 ∷ 2 ∷ [])))
run-refuses_example = run-refuses is_two (1 ∷ 2 ∷ []) silent []
