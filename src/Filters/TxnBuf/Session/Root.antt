-- ===== src/Filters/TxnBuf/Session/Root.antt =====
-- A transaction over the real datastore, from its start to its commit.
use gae.Prelude.{◌≡◌, List, [], ◌∷◌, Bytes}
use gae.Datastore.Key.{Key, KeyContext}
use gae.Serialize.Cmpbin.{Cmpbin}
use gae.Filters.TxnBuf.Interface.{Got, Error, Outcome, panic, raise, ok, RawInterface}
use gae.Filters.TxnBuf.Keys.{IsKey}
use gae.Filters.TxnBuf.Mapping.{IsMap}
use gae.Filters.TxnBuf.Session.{Call, after_calls}

module _ (c : Cmpbin) (sha256 : Bytes → Bytes) (kc : KeyContext) where
  module _ {F : Type 0} (D : RawInterface F) (Inv : D.State → Type 0) (read : D.State → Key → Got F)
      (below : IsMap c sha256 kc D Inv read) where
    -- The outcome of a transaction: no panic; an error of its function, and nothing is changed; or a commit,
    -- and if this has no errors all is done.
    abbrev pub AllOrNothing : List Call → D.State → Outcome F D.State (List (Error F)) → Type 0
    AllOrNothing calls s panic = ⊥
    AllOrNothing calls s (raise x s') = Inv s' × ((j : Key) → read s' j ≡ read s j)
    AllOrNothing calls s (ok (x ∷ xs) s') = Inv s'
    AllOrNothing calls s (ok [] s') =
        Inv s' × ((j : Key) → IsKey c sha256 kc j → read s' j ≡ after_calls calls j (read s j))
