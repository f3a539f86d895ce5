-- ===== src/Filters/TxnBuf/Commit.antt =====
-- filter/txnBuf/state.go: the effect of a transaction, and its commit to its parent or to the real
-- datastore; filter/txnBuf/ds.go and ds_txn.go: RunInTransaction.
use gae.Prelude.{
  ℕ, zero, suc, Bool, true, false, Option, none, some, List, [], ◌∷◌, ◌++◌, any, Bytes,
  if◌then◌else◌, pos, ltb_ℤ,
}
use gae.Datastore.Key.{Key, KeyContext}
use gae.Datastore.KeyProperty.{Property}
use gae.Datastore.Property.{Value}
use gae.Datastore.PropertyMap.{PropertyMap}
use gae.Serialize.Cmpbin.{Cmpbin}
use gae.Serialize.Reader
use gae.Serialize.Read.{read_key, read_property, read_property_map}
use gae.Memory.Datastore.Data.{Collection, strip_special_props, collection, read_or_none}
use gae.Filters.TxnBuf.SizeTracker
use gae.Filters.TxnBuf.SizeTracker.{SizeTracker, num_writes, dup}
use gae.Filters.TxnBuf.Interface.{
  Told, told, refused, Error, transaction_too_large, multi, Outcome, panic, raise, ok, Method,
  ◌>>=◌, RawInterface,
}
use gae.Filters.TxnBuf.State.{TxnBufState, root_state, child_state}
use gae.Filters.TxnBuf.Methods.{is_error, txn_buf}

-- The sizes of the child over those of the parent.
unfoldable pub set_all : List (Bytes × ℕ) → SizeTracker → SizeTracker
set_all [] s = s
set_all ((k, v) ∷ m) s = set_all m (SizeTracker.set k v s)

unfoldable pub proposed_state : TxnBufState → TxnBufState → SizeTracker
proposed_state t s = set_all s.ent_state.key_to_size (dup t.ent_state)

-- False is ErrTransactionTooLarge.
unfoldable pub can_apply : TxnBufState → TxnBufState → Bool
can_apply t s =
    let proposed = proposed_state t s in
    if ltb_ℤ t.write_count_budget (pos (num_writes proposed))
    then false
    else if ltb_ℤ t.size_budget proposed.total
    then false
    else true

-- The puts and the deletions of a transaction.
pub record Effect : Type 0 where
  pub to_put : List (Key × PropertyMap)
  pub to_del : List Key

abbrev pub key_read : Reader.Read Property → Option Key
key_read (Reader.ok p rest) = elim p.value [ Value.key k ↦ some k | _ ↦ none ]
key_read (Reader.err e) = none

abbrev pub maybe_key : Reader.Read (Option Key) → Option Key
maybe_key (Reader.ok k rest) = k
maybe_key (Reader.err e) = none

module _ {F : Type 0} where
  abbrev pub told_error : Told F → Option (Option F)
  told_error (told k) = none
  told_error (refused e) = some e

  abbrev pub put_errors : List (Told F) → List (Option F)
  put_errors [] = []
  put_errors (told k ∷ ts) = none ∷ put_errors ts
  put_errors (refused e ∷ ts) = e ∷ put_errors ts

  -- `mErr.Get()`
  abbrev pub as_error : List (Option F) → List (Error F)
  as_error es = if any is_error es then multi es ∷ [] else []

abbrev pub with_put :
    Option Key
    → Option PropertyMap
    → Option (List (Key × PropertyMap))
    → Option (List (Key × PropertyMap))
with_put (some k) (some pm) (some kvs) = some ((k, strip_special_props pm) ∷ kvs)
with_put _ _ _ = none

abbrev pub with_delete : Option Key → Option (List Key) → Option (List Key)
with_delete (some k) (some ks) = some (k ∷ ks)
with_delete _ _ = none

abbrev pub effect_of : Option (List (Key × PropertyMap)) → Option (List Key) → Option Effect
effect_of (some kvs) (some ks) = some (record { to_put = kvs; to_del = ks })
effect_of _ _ = none

module _ (c : Cmpbin) (sha256 : Bytes → Bytes) (kc : KeyContext) where
  -- An entity that a query finds: the keys among its properties take the context of the query.
  unfoldable pub read_queried : Bytes → Option PropertyMap
  read_queried e = read_or_none (read_property_map c false kc e)

  -- What a kindless query without filters finds in the buffer: every entity, its key read from the bytes
  -- that it is indexed under. None is memory corruption.
  unfoldable pub all_puts : Collection → Option (List (Key × PropertyMap))
  all_puts [] = some []
  all_puts ((b, e) ∷ m) =
      with_put (key_read (read_property c false kc b)) (read_queried e) (all_puts m)

  unfoldable pub all_deletes : List (Bytes × ℕ) → Option (List Key)
  all_deletes [] = some []
  all_deletes ((b, suc n) ∷ m) = all_deletes m
  all_deletes ((b, zero) ∷ m) = with_delete (maybe_key (read_key c false kc b)) (all_deletes m)

  unfoldable pub effect : TxnBufState → Option Effect
  effect s =
      effect_of (all_puts (collection kc.namespace s.buf_ds.head))
        (all_deletes s.ent_state.key_to_size)

  module _ {F : Type 0} (D : RawInterface F) where
    -- `impossible`: an error is a panic.
    abbrev pub certain : {A S : Type 0} → Outcome F S A → (A → List (Option F)) → Outcome F S Unit
    certain panic errors = panic
    certain (raise e s) errors = panic
    certain (ok a s) errors = if any is_error (errors a) then panic else ok tt s

    unfoldable pub put_all : List (Key × PropertyMap) → Method F D.State Unit
    put_all [] s = ok tt s
    put_all (kv ∷ kvs) s = certain (D.put_multi (kv ∷ kvs) s) put_errors

    unfoldable pub delete_all : List Key → Method F D.State Unit
    delete_all [] s = ok tt s
    delete_all (k ∷ ks) s = certain (D.delete_multi (k ∷ ks) s) (λ es. es)

    abbrev pub do_effect : Option Effect → Method F D.State Unit
    do_effect none s = panic
    do_effect (some e) s = put_all e.to_put s >>= λ u. delete_all e.to_del

    -- `commitLocked`, where `D` is the parent.
    unfoldable pub commit_locked : TxnBufState → Method F D.State Unit
    commit_locked child s = do_effect (effect child) s

    -- The errors of one of the functions that run side by side.
    abbrev pub side :
        {A S : Type 0} → (A → List (Option F)) → Outcome F S A → Outcome F S (List (Error F))
    side errors panic = panic
    side errors (raise e s) = ok (e ∷ []) s
    side errors (ok a s) = ok (as_error (errors a)) s

    unfoldable pub put_side : List (Key × PropertyMap) → Method F D.State (List (Error F))
    put_side [] s = ok [] s
    put_side (kv ∷ kvs) s = side put_errors (D.put_multi (kv ∷ kvs) s)

    unfoldable pub delete_side : List Key → Method F D.State (List (Error F))
    delete_side [] s = ok [] s
    delete_side (k ∷ ks) s = side (λ es. es) (D.delete_multi (k ∷ ks) s)

    abbrev pub do_both : Bool → Option Effect → Method F D.State (List (Error F))
    do_both deletes_first none s = panic
    do_both true (some e) s =
        delete_side e.to_del s >>= λ a s'. put_side e.to_put s' >>= λ b. ok (b ++ a)
    do_both false (some e) s =
        put_side e.to_put s >>= λ a s'. delete_side e.to_del s' >>= λ b. ok (a ++ b)

    -- The two functions run side by side: each is one step, in either order. Without an error there is none
    -- in the list.
    unfoldable pub commit_to_real : Bool → TxnBufState → Method F D.State (List (Error F))
    commit_to_real deletes_first t s = do_both deletes_first (effect t) s

    abbrev pub finish_root :
        {A : Type 0}
        → Bool
        → Outcome F (TxnBufState × D.State) A
        → Outcome F D.State (List (Error F))
    finish_root deletes_first panic = panic
    finish_root deletes_first (raise e (t, s)) = raise e s
    finish_root deletes_first (ok a (t, s)) = commit_to_real deletes_first t s

    -- `withTxnBuf` with no parent.
    unfoldable pub with_root_txn_buf :
        {A : Type 0}
        → Bool
        → Bool
        → Method F (TxnBufState × D.State) A
        → Method F D.State (List (Error F))
    with_root_txn_buf deletes_first xg cb s = finish_root deletes_first (cb (root_state xg, s))

  module _ {F : Type 0} (D : RawInterface F) where
    abbrev pub finish_child :
        {A : Type 0}
        → Outcome F (TxnBufState × (TxnBufState × D.State)) A
        → Outcome F (TxnBufState × D.State) Unit
    finish_child panic = panic
    finish_child (raise e (t, ps)) = raise e ps
    finish_child (ok a (t, (p, s))) =
        if can_apply p t
        then commit_locked (txn_buf c sha256 D) t (p, s)
        else raise transaction_too_large (p, s)

    -- `withTxnBuf` with a parent.
    unfoldable pub with_txn_buf :
        {A : Type 0}
        → Method F (TxnBufState × (TxnBufState × D.State)) A
        → Method F (TxnBufState × D.State) Unit
    with_txn_buf cb (p, s) = finish_child (cb (child_state p, (p, s)))
