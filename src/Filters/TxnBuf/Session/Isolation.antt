-- ===== src/Filters/TxnBuf/Session/Isolation.antt =====
-- A transaction is all or nothing: what its function does is done to the datastore below when it is
-- committed, and nothing of it otherwise.
use gae.Prelude.{◌≡◌, refl, ap, ◌∙◌, Option, List, [], ◌∷◌, All, any, Bytes, Bool-cases, inl, inr}
use gae.Datastore.Key.{Key, KeyContext}
use gae.Serialize.Cmpbin.{Cmpbin}
use gae.Filters.TxnBuf.Interface.{Got, Told, Outcome, panic, raise, ok, RawInterface, ◌>>=◌}
use gae.Filters.TxnBuf.State.{TxnBufState}
use gae.Filters.TxnBuf.Methods.{is_error, txn_buf, put_multi, delete_multi, get_multi}
use gae.Filters.TxnBuf.Commit.{put_errors}
use gae.Filters.TxnBuf.Keys.{IsKey}
use gae.Filters.TxnBuf.Mapping.{IsMap}
use gae.Filters.TxnBuf.Overlay.State.{IsOverlay, KeepsBelow, overlay}
use gae.Filters.TxnBuf.Overlay.Reading.{get_multi-Reads}
use gae.Filters.TxnBuf.Overlay.Failing.{get_multi-fails, get_multi-returns}
use gae.Filters.TxnBuf.Overlay.Writing.{
  put_multi-writes, delete_multi-removes, put_multi-fails, delete_multi-fails, put_multi-returns,
  delete_multi-returns,
}
use gae.Filters.TxnBuf.Session.{
  Call, get, put, delete, after_calls, IsGoodCall, check, do_call, do_calls,
}

module _ (c : Cmpbin) (sha256 : Bytes → Bytes) (kc : KeyContext) where
  module _ {F : Type 0} (D : RawInterface F) (Inv : D.State → Type 0) (read : D.State → Key → Got F)
      (below : IsMap c sha256 kc D Inv read) where
    abbrev Good : TxnBufState × D.State → Type 0
    Good = IsOverlay c sha256 kc D Inv read

    abbrev Kept : TxnBufState × D.State → TxnBufState × D.State → Type 0
    Kept = KeepsBelow c sha256 kc D Inv read

    abbrev seen : TxnBufState × D.State → Key → Got F
    seen = overlay c sha256 kc D Inv read

    abbrev pub Ran : List Call → TxnBufState × D.State → TxnBufState × D.State → Type 0
    Ran calls ts ts' =
        Good ts'
        × ((j : Key) → IsKey c sha256 kc j → seen ts' j ≡ after_calls calls j (seen ts j))
        × Kept ts ts'

    abbrev pub Stopped : TxnBufState × D.State → TxnBufState × D.State → Type 0
    Stopped ts ts' = Good ts' × Kept ts ts'

    -- What an outcome has to be.
    abbrev pub Runs :
        List Call → TxnBufState × D.State → Outcome F (TxnBufState × D.State) Unit → Type 0
    Runs calls ts panic = ⊥
    Runs calls ts (raise x ts') = Stopped ts ts'
    Runs calls ts (ok u ts') = Ran calls ts ts'

    -- The check of the errors of a call that was done.
    check-Runs :
        (calls : List Call) (ts ts' : TxnBufState × D.State) (es : List (Option F))
        → Ran calls ts ts'
        → Runs calls ts (check (txn_buf c sha256 D) es ts')
    check-Runs calls ts ts' es (good, shows, kept) = elim (Bool-cases (any is_error es)) [
      | inl b ↦ rw b (good, kept)
      | inr b ↦ rw b (good, shows, kept)
    ]

    do_call-Runs :
        (call : Call) (ts : TxnBufState × D.State)
        → Good ts
        → IsGoodCall c sha256 kc call
        → Runs (call ∷ []) ts (do_call (txn_buf c sha256 D) call ts)
    unfolding after_calls
    do_call-Runs (get ks) ts w h = of (get_multi c sha256 D ks ts) refl
      where
        of :
            (o : Outcome F (TxnBufState × D.State) (List (Got F)))
            → get_multi c sha256 D ks ts ≡ o
            → Runs (get ks ∷ []) ts (o >>= λ gs. ok tt)
        of panic e = absurd (get_multi-returns c sha256 kc D Inv read below ks ts w h e)
        of (raise x ts') e =
            let (good, _, kept) = get_multi-fails c sha256 kc D Inv read below ks ts x ts' w h e in
            (good, kept)
        of (ok gs ts') e =
            let (_, good, same, kept) =
              get_multi-Reads c sha256 kc D Inv read below ks ts gs ts' w h e in
            (good, λ j l. same j, kept)
    do_call-Runs (put kvs) ts w h = of (put_multi c sha256 D kvs ts) refl
      where
        of :
            (o : Outcome F (TxnBufState × D.State) (List (Told F)))
            → put_multi c sha256 D kvs ts ≡ o
            → Runs (put kvs ∷ []) ts (o >>= λ es. check (txn_buf c sha256 D) (put_errors es))
        of panic e = absurd (put_multi-returns c sha256 kc D Inv read below kvs ts w h e)
        of (raise x ts') e =
            let same = put_multi-fails c sha256 kc D Inv read below kvs ts x ts' w h e in
            rw (← same) (w, λ j. refl)
        of (ok es ts') e =
            check-Runs (put kvs ∷ []) ts ts' (put_errors es)
              (put_multi-writes c sha256 kc D Inv read below kvs ts es ts' w h e)
    do_call-Runs (delete ks) ts w h = of (delete_multi c sha256 D ks ts) refl
      where
        of :
            (o : Outcome F (TxnBufState × D.State) (List (Option F)))
            → delete_multi c sha256 D ks ts ≡ o
            → Runs (delete ks ∷ []) ts (o >>= λ es. check (txn_buf c sha256 D) es)
        of panic e = absurd (delete_multi-returns c sha256 kc D Inv read below ks ts w h e)
        of (raise x ts') e =
            let same = delete_multi-fails c sha256 kc D Inv read below ks ts x ts' w h e in
            rw (← same) (w, λ j. refl)
        of (ok es ts') e =
            check-Runs (delete ks ∷ []) ts ts' es
              (delete_multi-removes c sha256 kc D Inv read below ks ts es ts' w h e)

    then-Runs :
        (calls : List Call) (call : Call) (ts ts' : TxnBufState × D.State)
        (o : Outcome F (TxnBufState × D.State) Unit)
        → Ran (call ∷ []) ts ts'
        → Runs calls ts' o
        → Runs (call ∷ calls) ts o
    unfolding after_calls
    then-Runs calls call ts ts' panic r h = h
    then-Runs calls call ts ts' (raise x z) (_, _, kept) (good, kept') =
        (good, λ j. kept' j ∙ kept j)
    then-Runs calls call ts ts' (ok u z) (_, shows, kept) (good, shows', kept') = (
      good,
      λ j l. shows' j l ∙ ap (after_calls calls j) (shows j l) ∙ first call j,
      λ j. kept' j ∙ kept j,
    )
      where
        first :
            (call : Call) (j : Key)
            → after_calls calls j (after_calls (call ∷ []) j (seen ts j))
              ≡ after_calls (call ∷ calls) j (seen ts j)
        first (get ks) j = refl
        first (put kvs) j = refl
        first (delete ks) j = refl

    pub do_calls-Runs :
        (calls : List Call) (ts : TxnBufState × D.State)
        → Good ts
        → All (IsGoodCall c sha256 kc) calls
        → Runs calls ts (do_calls (txn_buf c sha256 D) calls ts)
    unfolding do_calls after_calls
    do_calls-Runs [] ts w h = (w, λ j l. refl, λ j. refl)
    do_calls-Runs (call ∷ calls) ts w (h, hs) =
        of (do_call (txn_buf c sha256 D) call ts) (do_call-Runs call ts w h)
          (λ ts' w'. do_calls-Runs calls ts' w' hs)
      where
        of :
            (o : Outcome F (TxnBufState × D.State) Unit)
            → Runs (call ∷ []) ts o
            → ((ts' : TxnBufState × D.State)
                → Good ts'
                → Runs calls ts' (do_calls (txn_buf c sha256 D) calls ts'))
            → Runs (call ∷ calls) ts (o >>= λ u. do_calls (txn_buf c sha256 D) calls)
        of panic r rest = r
        of (raise x ts') r rest = r
        of (ok u ts') r rest =
            then-Runs calls call ts ts' (do_calls (txn_buf c sha256 D) calls ts') r (rest ts' r.0)
