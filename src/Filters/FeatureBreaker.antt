-- ===== src/Filters/FeatureBreaker.antt =====
-- filter/featureBreaker: a filter that makes named methods of a service fail. featurebreaker.go is
-- the state, and mc.go the filter of memcache.
pub mod Breaking
use gae.Prelude.{
  Bool, true, false, Option, none, some, List, [], ◌∷◌, any, Bytes, codes, same_bytes, lookup,
  insert, delete, if◌then◌else◌,
}

-- The loops over the features' names.
module _ {V : Type 0} where
  unfoldable pub set_all : V → List Bytes → List (Bytes × V) → List (Bytes × V)
  set_all v [] m = m
  set_all v (f ∷ fs) m = set_all v fs (insert f v m)

  unfoldable pub delete_all : List Bytes → List (Bytes × V) → List (Bytes × V)
  delete_all [] m = m
  delete_all (f ∷ fs) m = delete_all fs (delete f m)

  abbrev pub is_empty : List V → Bool
  is_empty [] = true
  is_empty (x ∷ xs) = false

-- The errors that can arise: one of the caller's or the service's, `errUseDefault`, and the
-- `feature %q is broken` of `run`.
pub data Failure (E : Type 0) : Type 0 where
  own : E → Failure E
  use_default : Failure E
  broken_feature : Bytes → Failure E

abbrev pub run_in_transaction : Bytes
run_in_transaction = codes "RunInTransaction"

-- What the methods and the callbacks act on, and the errors they return, are the service's.
abbrev pub Action : Type 0 → Type 0 → Type 0
Action W E = W → Option (Failure E) × W

abbrev pub Callback : Type 0 → Type 0 → Type 0
Callback W E = Bytes → Action W E

-- A callback may be nil, as that of a feature which is not broken is.
pub record State (W E : Type 0) : Type 0 where
  pub broken : List (Bytes × Option (Callback W E))
  pub default_error : Option (Failure E)

module _ {W E : Type 0} where
  unfoldable pub new_state : Option (Failure E) → State W E
  new_state dflt = record { broken = []; default_error = dflt }

  -- `none` is the panic.
  unfoldable pub break_features_with_callback :
      Option (Callback W E) → List Bytes → State W E → Option (State W E)
  break_features_with_callback cb features s =
      if any (same_bytes run_in_transaction) features
      then none
      else some (record s { broken = set_all cb features s.broken })

  abbrev pub constant : Option (Failure E) → Callback W E
  constant none name w = (some use_default, w)
  constant (some e) name w = (some e, w)

  unfoldable pub break_features : Option (Failure E) → List Bytes → State W E → Option (State W E)
  break_features err features s = break_features_with_callback (some (constant err)) features s

  unfoldable pub unbreak_features : List Bytes → State W E → State W E
  unbreak_features features s = record s { broken = delete_all features s.broken }

  unfoldable pub no_broken_features : State W E → Bool
  no_broken_features s = is_empty s.broken

  -- The switch on what the callback returned.
  unfoldable pub run_answer :
      Option (Failure E) → Bytes → Action W E → Option (Failure E) × W → Option (Failure E) × W
  run_answer dflt name f (none, w) = f w
  run_answer (some d) name f (some use_default, w) = (some d, w)
  run_answer none name f (some use_default, w) = (some (broken_feature name), w)
  run_answer dflt name f (some e, w) = (some e, w)

  unfoldable pub run_callback :
      Option (Failure E) → Bytes → Action W E → Option (Option (Callback W E)) → Action W E
  run_callback dflt name f none w = f w
  run_callback dflt name f (some none) w = f w
  run_callback dflt name f (some (some cb)) w = run_answer dflt name f (cb name w)

  -- `name` is the last part of the caller's name, which `run` asks the runtime for.
  unfoldable pub run : State W E → Bytes → Action W E → Action W E
  run s name f w =
      if no_broken_features s
      then f w
      else run_callback s.default_error name f (lookup name s.broken) w

  -- The methods of mc.go that take a list, each with the method of the service below as `inner`.
  unfoldable pub run_unless_empty :
      {A : Type 0} → Bytes → State W E → List A → Action W E → Action W E
  run_unless_empty name s [] inner w = (none, w)
  run_unless_empty name s (x ∷ xs) inner w = run s name inner w

  unfoldable pub get_multi : {A : Type 0} → State W E → List A → Action W E → Action W E
  get_multi s keys inner w = run_unless_empty (codes "GetMulti") s keys inner w

  unfoldable pub add_multi : {A : Type 0} → State W E → List A → Action W E → Action W E
  add_multi s items inner w = run_unless_empty (codes "AddMulti") s items inner w

  unfoldable pub set_multi : {A : Type 0} → State W E → List A → Action W E → Action W E
  set_multi s items inner w = run_unless_empty (codes "SetMulti") s items inner w

  unfoldable pub delete_multi : {A : Type 0} → State W E → List A → Action W E → Action W E
  delete_multi s keys inner w = run_unless_empty (codes "DeleteMulti") s keys inner w

  unfoldable pub compare_and_swap_multi :
      {A : Type 0} → State W E → List A → Action W E → Action W E
  compare_and_swap_multi s items inner w =
      run_unless_empty (codes "CompareAndSwapMulti") s items inner w

  unfoldable pub flush : State W E → Action W E → Action W E
  flush s inner w = run s (codes "Flush") inner w
