-- ===== src/Filters/TxnBuf/Overlay/Reading.antt =====
-- A GetMulti in a buffered transaction answers what the transaction shows.
use gae.Prelude.{
  ℕ, zero, suc, ◌≡◌, refl, sym, ap, ◌∙◌, Bool, Option, none, some, List, [], ◌∷◌, map, All, Bytes,
  lookup,
}
use gae.Datastore.Key.{Key, KeyContext}
use gae.Datastore.PropertyMap.{PropertyMap}
use gae.Serialize.Cmpbin.{Cmpbin}
use gae.Memory.Datastore.Data.{key_bytes}
use gae.Filters.TxnBuf.Interface.{
  too_many_roots, Got, Outcome, panic, raise, ok, RawInterface, ◌>>=◌,
}
use gae.Filters.TxnBuf.State.{
  TxnBufState, Item, update_roots, is_live, is_unbuffered, picked, assign, with_entity, with_got,
  answer,
}
use gae.Filters.TxnBuf.Methods.{encode, item_of, ask_parent, get_items, get_multi, lift, roots_of}
use gae.Filters.TxnBuf.Keys.{IsKey}
use gae.Filters.TxnBuf.Buffer.{shown_at, entity_at}
use gae.Filters.TxnBuf.Calls.{contents, buf_get-inner}
use gae.Filters.TxnBuf.Mapping.{IsMap}
use gae.Filters.TxnBuf.Overlay.Items.{filled, filled_item, buffer-Fills, parent-fills, picked-All}
use gae.Filters.TxnBuf.Overlay.State.{IsOverlay, KeepsBelow, overlay, with_roots, ok-injective}

module _ (c : Cmpbin) (sha256 : Bytes → Bytes) (kc : KeyContext) where
  module _ {F : Type 0} (D : RawInterface F) (Inv : D.State → Type 0) (read : D.State → Key → Got F)
      (below : IsMap c sha256 kc D Inv read) where
    abbrev Good : TxnBufState × D.State → Type 0
    Good = IsOverlay c sha256 kc D Inv read

    abbrev Kept : TxnBufState × D.State → TxnBufState × D.State → Type 0
    Kept = KeepsBelow c sha256 kc D Inv read

    abbrev seen : TxnBufState × D.State → Key → Got F
    seen = overlay c sha256 kc D Inv read

    assign_nil :
        {R : Type 0} (p : Item F → Bool) (f : R → Item F → Item F) (is : List (Item F))
        → assign p f is [] ≡ is
    unfolding assign
    assign_nil p f [] = refl
    assign_nil p f (i ∷ is) = refl

    ask-reads :
        (is : List (Item F)) (ks : List Key) (s : D.State) (is' : List (Item F)) (s' : D.State)
        → Inv s
        → All (IsKey c sha256 kc) ks
        → ask_parent c sha256 D is ks s ≡ ok is' s'
        → (is' ≡ assign is_unbuffered with_got is (map (read s) ks))
          × Inv s'
          × ((j : Key) → read s' j ≡ read s j)
    unfolding ask_parent
    ask-reads is [] s is' s' v h e =
        let (same_items, same_state) = ok-injective e in
        rw (← same_items, ← same_state) (sym (assign_nil is_unbuffered with_got is), v, λ j. refl)
    ask-reads is (k ∷ ks) s is' s' v h e = of (D.get_multi (k ∷ ks) s) refl e
      where
        of :
            (o : Outcome F D.State (List (Got F)))
            → D.get_multi (k ∷ ks) s ≡ o
            → (o >>= λ gs. ok (assign is_unbuffered with_got is gs)) ≡ ok is' s'
            → (is' ≡ assign is_unbuffered with_got is (map (read s) (k ∷ ks)))
              × Inv s'
              × ((j : Key) → read s' j ≡ read s j)
        of panic g e = absurd (cc)
        of (raise x y) g e = absurd (cc)
        of (ok gs y) g e =
            let (same_items, same_state) = ok-injective e in
            let (answers, inv, same) = below.get_reads (k ∷ ks) s gs y v h g in
            rw (← same_items, ← same_state)
              (ap (λ l. assign is_unbuffered with_got is l) answers, inv, same)

    -- What the answers of a call and the state after it are.
    abbrev Reads : List Key → TxnBufState × D.State → List (Got F) → TxnBufState × D.State → Type 0
    Reads ks ts gs ts' =
        (gs ≡ map (seen ts) ks) × Good ts' × ((j : Key) → seen ts' j ≡ seen ts j) × Kept ts ts'

    -- The keys that the parent is asked for.
    abbrev pub asked : TxnBufState → List Key → List Key
    asked t ks = picked is_unbuffered (map (filled_item c sha256 kc {F = F} t) ks)

    filled-key :
        (t : TxnBufState) (k : Key) (o : Option ℕ) (e : Option PropertyMap)
        → (filled c sha256 kc {F = F} t k o e).key ≡ k
    filled-key t k none e = refl
    filled-key t k (some zero) e = refl
    filled-key t k (some (suc n)) none = refl
    filled-key t k (some (suc n)) (some pm) = refl

    pub asked-All :
        (ks : List Key) (t : TxnBufState)
        → All (IsKey c sha256 kc) ks
        → All (IsKey c sha256 kc) (asked t ks)
    asked-All ks t h =
        picked-All c sha256 kc {F = F} t (IsKey c sha256 kc) is_unbuffered
          (filled_item c sha256 kc t) ks
          (λ k.
            filled-key t k (lookup (encode c sha256 k) t.ent_state.key_to_size)
              (entity_at c (lookup (key_bytes c sha256 k) (contents c sha256 kc t.buf_ds))))
          h

    -- What GetMulti does once the buffer is read.
    abbrev pub ask :
        List Key → TxnBufState → D.State → Outcome F (TxnBufState × D.State) (List (Got F))
    ask ks t s = lift c sha256 D t (
        ask_parent c sha256 D (map (filled_item c sha256 kc t) ks) (asked t ks) s >>= λ is'.
        ok (map answer is'))

    asked-Reads :
        (ks : List Key) (t : TxnBufState) (s : D.State) (gs : List (Got F))
        (ts' : TxnBufState × D.State)
        → Good (t, s)
        → All (IsKey c sha256 kc) ks
        → ask ks t s ≡ ok gs ts'
        → Reads ks (t, s) gs ts'
    unfolding overlay
    asked-Reads ks t s gs ts' w h e =
        of (ask_parent c sha256 D (map (filled_item c sha256 kc t) ks) (asked t ks) s) refl e
      where
        of :
            (o : Outcome F D.State (List (Item F)))
            → ask_parent c sha256 D (map (filled_item c sha256 kc t) ks) (asked t ks) s ≡ o
            → lift c sha256 D t (o >>= λ is'. ok (map answer is')) ≡ ok gs ts'
            → Reads ks (t, s) gs ts'
        of panic g e = absurd (cc)
        of (raise x y) g e = absurd (cc)
        of (ok is' s') g e =
            let (same_answers, same_state) = ok-injective e in
            let (items, inv, same) =
              ask-reads (map (filled_item c sha256 kc t) ks) (asked t ks) s is' s' w.inv
                (asked-All ks t h) g in
            rw (← same_answers, ← same_state)
              (
                ap (map answer) items ∙ parent-fills c sha256 kc t (read s) ks,
                record { buffer = w.buffer; well_formed = w.well_formed; inv = inv },
                λ j.
                    ap
                      (shown_at c sha256 kc t.ent_state.key_to_size (contents c sha256 kc t.buf_ds)
                        j)
                      (same j),
                same,
              )

    pub get_items-ask :
        (ks : List Key) (t : TxnBufState) (s : D.State)
        → Good (t, s)
        → All (IsKey c sha256 kc) ks
        → get_items c sha256 D (map (item_of c sha256 t) ks) t s ≡ ask ks t s
    unfolding get_items
    get_items-ask ks t s w h =
        let is = map (item_of c sha256 t) ks in
        let (pms, found, fills) = buffer-Fills c sha256 kc t ks w.well_formed.aligned h in
        let good =
          picked-All c sha256 kc t (IsKey c sha256 kc) is_live (item_of c sha256 t) ks (λ k. refl)
            h in
        let from_buffer =
          buf_get-inner c sha256 kc (picked is_live is) t.buf_ds w.buffer good ∙ found in
        let ask_with : List (Item F) → Outcome F (TxnBufState × D.State) (List (Got F)) = λ l.
          lift c sha256 D t
            (ask_parent c sha256 D l (picked is_unbuffered l) s >>= λ is'. ok (map answer is')) in
        let after : Option (List PropertyMap) → Outcome F (TxnBufState × D.State) (List (Got F)) =
          λ o. elim o [ none ↦ panic | some pms ↦ ask_with (assign is_live with_entity is pms) ] in
        ap after from_buffer ∙ ap ask_with fills

    map-same :
        {A B : Type 0} (f g : A → B)
        → ((a : A) → f a ≡ g a)
        → (as' : List A) → map f as' ≡ map g as'
    map-same f g h [] = refl
    map-same f g h (a ∷ as') =
        ap (λ b. b ∷ map f as') (h a) ∙ ap (λ l. g a ∷ l) (map-same f g h as')

    pub get_multi-Reads :
        (ks : List Key) (ts : TxnBufState × D.State) (gs : List (Got F))
        (ts' : TxnBufState × D.State)
        → Good ts
        → All (IsKey c sha256 kc) ks
        → get_multi c sha256 D ks ts ≡ ok gs ts'
        → Reads ks ts gs ts'
    unfolding get_multi
    get_multi-Reads ks (t, s) gs ts' w h e = of (update_roots (roots_of c sha256 ks) t) refl e
      where
        of :
            (o : Option TxnBufState)
            → update_roots (roots_of c sha256 ks) t ≡ o
            → elim o [
              | none ↦ raise too_many_roots (t, s)
              | some t' ↦ get_items c sha256 D (map (item_of c sha256 t') ks) t' s
            ]
              ≡ ok gs ts'
            → Reads ks (t, s) gs ts'
        of none u e = absurd (cc)
        of (some t') u e =
            let (w', same) = with_roots c sha256 kc D Inv read (roots_of c sha256 ks) t t' s u w in
            let (answers, inv, after, kept) =
              asked-Reads ks t' s gs ts' w' h (sym (get_items-ask ks t' s w' h) ∙ e) in
            (
              answers ∙ map-same (seen (t', s)) (seen (t, s)) same ks,
              inv,
              λ j. after j ∙ same j,
              kept,
            )
