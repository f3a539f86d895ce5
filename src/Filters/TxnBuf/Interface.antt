-- ===== src/Filters/TxnBuf/Interface.antt =====
-- service/datastore/raw_interface.go: the part of RawInterface that the filter calls of the datastore
-- below it, and offers itself. A callback writes down what it is told and returns no error, so a
-- method returns what its callback was told, in the order of the keys.
use gae.Prelude.{Option, List}
use gae.Datastore.Key.{Key}
use gae.Datastore.PropertyMap.{PropertyMap}

-- What the callback of GetMulti is told; ErrNoSuchEntity is `no_such_entity`.
pub data Got (F : Type 0) : Type 0 where
  got : PropertyMap → Got F
  no_such_entity : Got F
  failed : F → Got F

-- What the callback of PutMulti and of AllocateIDs is told: the key, or a nil key and an error, which may be nil too.
pub data Told (F : Type 0) : Type 0 where
  told : Key → Told F
  refused : Option F → Told F

pub data Error (F : Type 0) : Type 0 where
  too_many_roots transaction_too_large : Error F
  -- errors of single keys, as a MultiError
  multi : List (Option F) → Error F
  fault : F → Error F

-- What a method of the state `S` does: it panics, or leaves a state with an error or a result.
pub data Outcome (F S A : Type 0) : Type 0 where
  panic : Outcome F S A
  raise : Error F → S → Outcome F S A
  ok : A → S → Outcome F S A

abbrev pub Method : Type 0 → Type 0 → Type 0 → Type 0
Method F S A = S → Outcome F S A

infixl 5 ◌>>=◌
abbrev pub ◌>>=◌ : {F S A B : Type 0} → Outcome F S A → (A → Method F S B) → Outcome F S B
panic >>= f = panic
raise e s >>= f = raise e s
ok a s >>= f = f a s

pub record RawInterface (F : Type 0) : Type 1 where
  pub State : Type 0
  pub get_multi : List Key → Method F State (List (Got F))
  pub put_multi : List (Key × PropertyMap) → Method F State (List (Told F))
  pub delete_multi : List Key → Method F State (List (Option F))
  pub allocate_ids : List Key → Method F State (List (Told F))
