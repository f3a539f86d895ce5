-- ===== src/Filters/TxnBuf/Overlay/State.antt =====
-- The map that a buffered transaction shows, over the map that is shown below it.
use gae.Prelude.{◌≡◌, refl, some, List, [], ◌++◌, arith, Bytes}
use gae.Datastore.Key.{Key, KeyContext}
use gae.Serialize.Cmpbin.{Cmpbin}
use gae.Filters.TxnBuf.Interface.{Error, Got, Outcome, raise, ok, RawInterface}
use gae.Filters.TxnBuf.State.{TxnBufState, update_roots, propose}
use gae.Filters.TxnBuf.Buffer.{shown_at}
use gae.Filters.TxnBuf.Calls.{IsBuffer, contents}
use gae.Filters.TxnBuf.Rows.{IsWellFormed}

pub raise-injective :
    {F S A : Type 0} {a b : Error F} {s s' : S}
    → Path (Outcome F S A) (raise a s) (raise b s')
    → (a ≡ b) × (s ≡ s')
raise-injective e = (cc, cc)

pub ok-injective :
    {F S A : Type 0} {a b : A} {s s' : S}
    → Path (Outcome F S A) (ok a s) (ok b s')
    → (a ≡ b) × (s ≡ s')
ok-injective e = (cc, cc)

module _ (c : Cmpbin) (sha256 : Bytes → Bytes) (kc : KeyContext) where
  module _ {F : Type 0} (D : RawInterface F) (Inv : D.State → Type 0)
      (read : D.State → Key → Got F) where
    -- A state of the transaction over a good state of the datastore below.
    pub record IsOverlay (ts : TxnBufState × D.State) : Type 0 where
      pub buffer : IsBuffer ts.0.buf_ds
      pub well_formed :
          IsWellFormed c sha256 kc ts.0.ent_state.key_to_size (contents c sha256 kc ts.0.buf_ds)
      pub inv : Inv ts.1

    -- What is buffered stands over what is below.
    unfoldable pub overlay : TxnBufState × D.State → Key → Got F
    overlay (t, s) k =
        shown_at c sha256 kc t.ent_state.key_to_size (contents c sha256 kc t.buf_ds) k (read s k)

    -- What the datastore below shows stays.
    abbrev pub KeepsBelow : TxnBufState × D.State → TxnBufState × D.State → Type 0
    KeepsBelow ts ts' = (j : Key) → read ts'.1 j ≡ read ts.1 j

    -- The roots are all that `updateRootsLocked` changes.
    updated :
        (rs : List Bytes) (t t' : TxnBufState)
        → update_roots rs t ≡ some t'
        → (rs' : List Bytes) × (record t { roots = rs' } ≡ t')
    unfolding update_roots
    updated rs t t' e = (propose t.roots t.root_limit [] rs ++ t.roots, ground (arith, e))

    pub with_roots :
        (rs : List Bytes) (t t' : TxnBufState) (s : D.State)
        → update_roots rs t ≡ some t'
        → IsOverlay (t, s)
        → IsOverlay (t', s) × ((j : Key) → overlay (t', s) j ≡ overlay (t, s) j)
    unfolding overlay
    with_roots rs t t' s e w =
        let (rs', same) = updated rs t t' e in
        rw (← same)
          (record { buffer = w.buffer; well_formed = w.well_formed; inv = w.inv }, λ j. refl)
