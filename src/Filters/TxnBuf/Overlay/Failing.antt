-- ===== src/Filters/TxnBuf/Overlay/Failing.antt =====
-- A GetMulti that fails in a buffered transaction changes nothing that is shown.
use gae.Prelude.{◌≡◌, ◌≢◌, refl, sym, ap, ◌∙◌, Option, none, some, List, [], ◌∷◌, map, All, Bytes}
use gae.Datastore.Key.{Key, KeyContext}
use gae.Serialize.Cmpbin.{Cmpbin}
use gae.Filters.TxnBuf.Interface.{
  Error, too_many_roots, Got, Outcome, panic, raise, ok, RawInterface, ◌>>=◌,
}
use gae.Filters.TxnBuf.State.{
  TxnBufState, Item, update_roots, is_unbuffered, assign, with_got, answer,
}
use gae.Filters.TxnBuf.Methods.{item_of, ask_parent, get_items, get_multi, lift, roots_of}
use gae.Filters.TxnBuf.Keys.{IsKey}
use gae.Filters.TxnBuf.Buffer.{shown_at}
use gae.Filters.TxnBuf.Calls.{contents}
use gae.Filters.TxnBuf.Mapping.{IsMap}
use gae.Filters.TxnBuf.Overlay.Items.{filled_item}
use gae.Filters.TxnBuf.Overlay.State.{IsOverlay, KeepsBelow, overlay, with_roots, raise-injective}
use gae.Filters.TxnBuf.Overlay.Reading.{asked, asked-All, ask, get_items-ask}

module _ (c : Cmpbin) (sha256 : Bytes → Bytes) (kc : KeyContext) where
  module _ {F : Type 0} (D : RawInterface F) (Inv : D.State → Type 0) (read : D.State → Key → Got F)
      (below : IsMap c sha256 kc D Inv read) where
    abbrev Good : TxnBufState × D.State → Type 0
    Good = IsOverlay c sha256 kc D Inv read

    abbrev Kept : TxnBufState × D.State → TxnBufState × D.State → Type 0
    Kept = KeepsBelow c sha256 kc D Inv read

    abbrev seen : TxnBufState × D.State → Key → Got F
    seen = overlay c sha256 kc D Inv read

    -- A call that fails shows the same as before.
    abbrev Same : TxnBufState × D.State → TxnBufState × D.State → Type 0
    Same ts ts' = Good ts' × ((j : Key) → seen ts' j ≡ seen ts j) × Kept ts ts'

    abbrev wanted : TxnBufState → List Key → List Key
    wanted = asked c sha256 kc D Inv read below

    ask-fails :
        (is : List (Item F)) (ks : List Key) (s : D.State) (x : Error F) (s' : D.State)
        → Inv s
        → All (IsKey c sha256 kc) ks
        → ask_parent c sha256 D is ks s ≡ raise x s'
        → Inv s' × ((j : Key) → read s' j ≡ read s j)
    unfolding ask_parent
    ask-fails is [] s x s' v h e = absurd (cc)
    ask-fails is (k ∷ ks) s x s' v h e =
        below.get_fails (k ∷ ks) s x s' v h (of (D.get_multi (k ∷ ks) s) e)
      where
        of :
            (o : Outcome F D.State (List (Got F)))
            → (o >>= λ gs. ok (assign is_unbuffered with_got is gs)) ≡ raise x s'
            → o ≡ raise x s'
        of panic e = absurd (cc)
        of (raise y z) e = let (a, b) = raise-injective e in ap (λ a. raise a z) a ∙ ap (raise x) b
        of (ok gs y) e = absurd (cc)

    asked-fails :
        (ks : List Key) (t : TxnBufState) (s : D.State) (x : Error F) (ts' : TxnBufState × D.State)
        → Good (t, s)
        → All (IsKey c sha256 kc) ks
        → ask c sha256 kc D Inv read below ks t s ≡ raise x ts'
        → Same (t, s) ts'
    unfolding overlay
    asked-fails ks t s x ts' w h e =
        of (ask_parent c sha256 D (map (filled_item c sha256 kc t) ks) (wanted t ks) s) refl e
      where
        of :
            (o : Outcome F D.State (List (Item F)))
            → ask_parent c sha256 D (map (filled_item c sha256 kc t) ks) (wanted t ks) s ≡ o
            → lift c sha256 D t (o >>= λ is'. ok (map answer is')) ≡ raise x ts'
            → Same (t, s) ts'
        of panic g e = absurd (cc)
        of (ok is' y) g e = absurd (cc)
        of (raise y s') g e =
            let (_, same_state) = raise-injective e in
            let (inv, same) =
              ask-fails (map (filled_item c sha256 kc t) ks) (wanted t ks) s y s' w.inv
                (asked-All c sha256 kc D Inv read below ks t h) g in
            rw (← same_state) (
              record { buffer = w.buffer; well_formed = w.well_formed; inv = inv },
              λ j.
                  ap
                    (shown_at c sha256 kc t.ent_state.key_to_size (contents c sha256 kc t.buf_ds) j)
                    (same j),
              same,
            )

    ask_parent-returns :
        (is : List (Item F)) (ks : List Key) (s : D.State)
        → Inv s
        → All (IsKey c sha256 kc) ks
        → ask_parent c sha256 D is ks s ≢ panic
    unfolding ask_parent
    ask_parent-returns is [] s v h e = absurd (cc)
    ask_parent-returns is (k ∷ ks) s v h e =
        of (D.get_multi (k ∷ ks) s) (below.get_returns (k ∷ ks) s v h) e
      where
        of :
            (o : Outcome F D.State (List (Got F)))
            → o ≢ panic
            → (o >>= λ gs. ok (assign is_unbuffered with_got is gs)) ≢ panic
        of panic n e = n refl
        of (raise y z) n e = absurd (cc)
        of (ok gs y) n e = absurd (cc)

    ask-returns :
        (ks : List Key) (t : TxnBufState) (s : D.State)
        → Good (t, s)
        → All (IsKey c sha256 kc) ks
        → ask c sha256 kc D Inv read below ks t s ≢ panic
    ask-returns ks t s w h =
        of (ask_parent c sha256 D (map (filled_item c sha256 kc t) ks) (wanted t ks) s) (
          ask_parent-returns (map (filled_item c sha256 kc t) ks) (wanted t ks) s w.inv
            (asked-All c sha256 kc D Inv read below ks t h))
      where
        of :
            (o : Outcome F D.State (List (Item F)))
            → o ≢ panic
            → lift c sha256 D t (o >>= λ is'. ok (map answer is')) ≢ panic
        of panic n e = n refl
        of (raise y z) n e = absurd (cc)
        of (ok is' y) n e = absurd (cc)

    -- A GetMulti does not panic.
    pub get_multi-returns :
        (ks : List Key) (ts : TxnBufState × D.State)
        → Good ts
        → All (IsKey c sha256 kc) ks
        → get_multi c sha256 D ks ts ≢ panic
    unfolding get_multi
    get_multi-returns ks (t, s) w h = of (update_roots (roots_of c sha256 ks) t) refl
      where
        after_roots : Option TxnBufState → Outcome F (TxnBufState × D.State) (List (Got F))
        after_roots o = elim o [
          | none ↦ raise too_many_roots (t, s)
          | some t' ↦ get_items c sha256 D (map (item_of c sha256 t') ks) t' s
        ]

        of :
            (o : Option TxnBufState)
            → update_roots (roots_of c sha256 ks) t ≡ o
            → after_roots o ≢ panic
        of none u e = absurd (cc)
        of (some t') u e =
            let w' = (with_roots c sha256 kc D Inv read (roots_of c sha256 ks) t t' s u w).0 in
            ask-returns ks t' s w' h
              (sym (get_items-ask c sha256 kc D Inv read below ks t' s w' h) ∙ e)

    pub get_multi-fails :
        (ks : List Key) (ts : TxnBufState × D.State) (x : Error F) (ts' : TxnBufState × D.State)
        → Good ts
        → All (IsKey c sha256 kc) ks
        → get_multi c sha256 D ks ts ≡ raise x ts'
        → Same ts ts'
    unfolding get_multi
    get_multi-fails ks (t, s) x ts' w h e = of (update_roots (roots_of c sha256 ks) t) refl e
      where
        of :
            (o : Option TxnBufState)
            → update_roots (roots_of c sha256 ks) t ≡ o
            → elim o [
              | none ↦ raise too_many_roots (t, s)
              | some t' ↦ get_items c sha256 D (map (item_of c sha256 t') ks) t' s
            ]
              ≡ raise x ts'
            → Same (t, s) ts'
        of none u e = let (_, same) = raise-injective e in rw (← same) (w, λ j. refl, λ j. refl)
        of (some t') u e =
            let (w', same) = with_roots c sha256 kc D Inv read (roots_of c sha256 ks) t t' s u w in
            let (good, after, kept) =
              asked-fails ks t' s x ts' w' h
                (sym (get_items-ask c sha256 kc D Inv read below ks t' s w' h) ∙ e) in
            (good, λ j. after j ∙ same j, kept)
