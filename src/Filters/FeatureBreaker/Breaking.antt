-- ===== src/Filters/FeatureBreaker/Breaking.antt =====
-- What a broken feature does, and that only the named features are broken or mended.
use gae.Prelude.{
  ◌≡◌, refl, Bool, false, Option, none, some, List, [], ◌∷◌, any, arith, Bytes, same_bytes,
  same_bytes_iff, lookup, insert, delete, lookup-insert, lookup-delete, if◌then◌else◌,
}
use gae.Filters.FeatureBreaker.{
  Failure, own, use_default, broken_feature, run_in_transaction, Action, Callback, State, set_all,
  delete_all, break_features_with_callback, break_features, unbreak_features, no_broken_features,
  run_answer, run_callback, run, constant, is_empty,
}

-- The feature is one of the list.
abbrev pub named : Bytes → List Bytes → Bool
named name features = any (same_bytes name) features

module _ {V : Type 0} where
  lookup-set_all :
      (v : V) (fs : List Bytes) (m : List (Bytes × V)) (name : Bytes)
      → lookup name (set_all v fs m) ≡ (if named name fs then some v else lookup name m)
  unfolding set_all
  lookup-set_all v [] m name = refl
  lookup-set_all v (f ∷ fs) m name = ground (
    arith,
    lookup-set_all v fs (insert f v m) name,
    lookup-insert f name v m,
    same_bytes_iff f name,
    same_bytes_iff name f,
  )

  lookup-delete_all :
      (fs : List Bytes) (m : List (Bytes × V)) (name : Bytes)
      → lookup name (delete_all fs m) ≡ (if named name fs then none else lookup name m)
  unfolding delete_all
  lookup-delete_all [] m name = refl
  lookup-delete_all (f ∷ fs) m name = ground (
    arith,
    lookup-delete_all fs (delete f m) name,
    lookup-delete f name m,
    same_bytes_iff f name,
    same_bytes_iff name f,
  )

-- What a feature returns that was broken with an error.
abbrev pub failure_of : {E : Type 0} → Option (Failure E) → Option (Failure E) → Bytes → Failure E
failure_of (some d) none name = d
failure_of none none name = broken_feature name
failure_of (some d) (some use_default) name = d
failure_of none (some use_default) name = broken_feature name
failure_of dflt (some e) name = e

module _ {W E : Type 0} where
  -- The shortcut of `run` for a state with nothing broken changes nothing.
  no_shortcut :
      (dflt : Option (Failure E)) (m : List (Bytes × Option (Callback W E))) (name : Bytes)
      (f : Action W E) (w : W)
      → (if is_empty m then f w else run_callback dflt name f (lookup name m) w)
        ≡ run_callback dflt name f (lookup name m) w
  unfolding lookup run_callback
  no_shortcut dflt [] name f w = refl
  no_shortcut dflt (b ∷ bs) name f w = refl

  run-callback :
      (s : State W E) (name : Bytes) (f : Action W E) (w : W)
      → run s name f w ≡ run_callback s.default_error name f (lookup name s.broken) w
  unfolding run no_broken_features
  run-callback s name f w = no_shortcut s.default_error s.broken name f w

  constant-answer :
      (dflt err : Option (Failure E)) (name : Bytes) (f : Action W E) (w : W)
      → run_answer dflt name f (constant err name w) ≡ (some (failure_of dflt err name), w)
  unfolding run_answer
  constant-answer none none name f w = refl
  constant-answer (some d) none name f w = refl
  constant-answer none (some (own e)) name f w = refl
  constant-answer none (some use_default) name f w = refl
  constant-answer none (some (broken_feature b)) name f w = refl
  constant-answer (some d) (some (own e)) name f w = refl
  constant-answer (some d) (some use_default) name f w = refl
  constant-answer (some d) (some (broken_feature b)) name f w = refl

  -- After `BreakFeatures`, which does not panic for features other than `RunInTransaction`, a method
  -- that is named returns the given error, or else the default one, and does nothing; any other
  -- method does what it did before.
  pub break_features-run :
      (s : State W E) (err : Option (Failure E)) (features : List Bytes) (name : Bytes)
      (f : Action W E) (w : W)
      → named run_in_transaction features ≡ false
      → (s' : State W E) × (break_features err features s ≡ some s')
        × (run s' name f w ≡ (
            if named name features
            then (some (failure_of s.default_error err name), w)
            else run s name f w))
  unfolding break_features break_features_with_callback run_callback
  break_features-run s err features name f w h =
      let s' = record s { broken = set_all (some (constant err)) features s.broken } in
      (
        s',
        rw h refl,
        rw
            (
              run-callback s' name f w,
              run-callback s name f w,
              lookup-set_all (some (constant {W = W} err)) features s.broken name,
            )
            (ground (arith, constant-answer s.default_error err name f w)),
      )

  -- After `UnbreakFeatures` a method that is named is the service's own; any other method does
  -- what it did before.
  pub unbreak_features-run :
      (s : State W E) (features : List Bytes) (name : Bytes) (f : Action W E) (w : W)
      → run (unbreak_features features s) name f w
        ≡ (if named name features then f w else run s name f w)
  unfolding unbreak_features run_callback
  unbreak_features-run s features name f w =
      rw
        (
          run-callback (unbreak_features features s) name f w,
          run-callback s name f w,
          lookup-delete_all features s.broken name,
        )
        (ground arith)
