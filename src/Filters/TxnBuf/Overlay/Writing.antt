-- ===== src/Filters/TxnBuf/Overlay/Writing.antt =====
-- A PutMulti and a DeleteMulti in a buffered transaction change what it shows.
use gae.Prelude.{
  ◌≡◌, ◌≢◌, refl, sym, ap, ◌∙◌, Option, none, some, List, [], ◌∷◌, map, All, Bytes, Option-cases,
  inl, inr, ◌⊎◌,
}
use gae.Datastore.Key.{Key, KeyContext}
use gae.Datastore.PropertyMap.{PropertyMap}
use gae.Serialize.Cmpbin.{Cmpbin}
use gae.Memory.Datastore.Data.{DataStoreData}
use gae.Filters.TxnBuf.Interface.{
  Error, too_many_roots, Got, Told, told, refused, Outcome, panic, raise, ok, RawInterface, ◌>>=◌,
}
use gae.Filters.TxnBuf.State.{TxnBufState, update_roots}
use gae.Filters.TxnBuf.Methods.{
  key_of, delete_multi, put_multi, put_fixed, fix_keys, fix_incomplete, incompletes, with_keys,
  set_puts, set_deletes, Fixed, fixed, not_fixed, lift, buf_put, buf_delete, roots_of,
}
use gae.Filters.TxnBuf.Keys.{IsKey}
use gae.Filters.TxnBuf.Calls.{IsRow, contents, buf_put-each, buf_delete-each}
use gae.Filters.TxnBuf.Mapping.{IsMap, after_puts, after_deletes}
use gae.Filters.TxnBuf.Rows.{
  rows-Replaceable, puts-IsWellFormed, deletes-IsWellFormed, puts-shown, deletes-shown,
}
use gae.Filters.TxnBuf.Overlay.State.{
  IsOverlay, KeepsBelow, overlay, with_roots, ok-injective, raise-injective,
}

module _ (c : Cmpbin) (sha256 : Bytes → Bytes) (kc : KeyContext) where
  module _ {F : Type 0} (D : RawInterface F) (Inv : D.State → Type 0) (read : D.State → Key → Got F)
      (below : IsMap c sha256 kc D Inv read) where
    abbrev Good : TxnBufState × D.State → Type 0
    Good = IsOverlay c sha256 kc D Inv read

    abbrev Kept : TxnBufState × D.State → TxnBufState × D.State → Type 0
    Kept = KeepsBelow c sha256 kc D Inv read

    abbrev seen : TxnBufState × D.State → Key → Got F
    seen = overlay c sha256 kc D Inv read

    abbrev pub Becomes :
        TxnBufState × D.State → (Key → Got F → Got F) → TxnBufState × D.State → Type 0
    Becomes ts f ts' =
        Good ts' × ((j : Key) → IsKey c sha256 kc j → seen ts' j ≡ f j (seen ts j)) × Kept ts ts'

    -- A DeleteMulti changes nothing, with an error, or deletes all the keys.
    pub delete_multi-of :
        (ks : List Key) (t : TxnBufState) (s : D.State)
        → Good (t, s)
        → All (IsKey c sha256 kc) ks
        → (delete_multi c sha256 D ks (t, s) ≡ raise too_many_roots (t, s))
          ⊎ ((ts' : TxnBufState × D.State) × (delete_multi c sha256 D ks (t, s)
                ≡ ok (map (λ k. none) ks) ts')
              × Becomes (t, s) (after_deletes ks) ts')
    unfolding delete_multi overlay
    delete_multi-of ks t s w h = elim (Option-cases (update_roots (roots_of c sha256 ks) t)) [
      | inl u ↦ inl (ap after_roots u)
      | inr (t', u) ↦
          let (w', same) = with_roots c sha256 kc D Inv read (roots_of c sha256 ks) t t' s u w in
          let (d, left, b, m) = buf_delete-each c sha256 kc ks t'.buf_ds w'.buffer h (
            rows-Replaceable c sha256 kc (contents c sha256 kc t'.buf_ds)
              w'.well_formed.buf_rows) in
          let sizes = set_deletes c sha256 ks t'.ent_state in
          inr (
            (record t' { buf_ds = d; ent_state = sizes }, s),
            ap after_roots u ∙ ap (deleted t') left,
            (
              record {
                buffer = b;
                well_formed = rw m (
                    deletes-IsWellFormed c sha256 kc ks t'.ent_state
                      (contents c sha256 kc t'.buf_ds) h w'.well_formed);
                inv = w'.inv;
              },
              λ j l.
                  rw m (
                    deletes-shown c sha256 kc ks t'.ent_state (contents c sha256 kc t'.buf_ds) j
                      (read s j) h l)
                  ∙ ap (after_deletes ks j) (same j),
              λ j. refl,
            ),
          )
    ]
      where
        deleted :
            TxnBufState → Option DataStoreData → Outcome F (TxnBufState × D.State) (List (Option F))
        deleted t' o = elim o [
          | none ↦ panic
          | some d ↦
              ok (map (λ k. none) ks)
                (record t' { buf_ds = d; ent_state = set_deletes c sha256 ks t'.ent_state }, s)
        ]

        after_roots : Option TxnBufState → Outcome F (TxnBufState × D.State) (List (Option F))
        after_roots o = elim o [
          | none ↦ raise too_many_roots (t, s)
          | some t' ↦ deleted t' (buf_delete c sha256 ks t'.buf_ds)
        ]

    complete-incompletes :
        (kvs : List (Key × PropertyMap))
        → All (IsRow c sha256 kc) kvs
        → incompletes (map key_of kvs) ≡ []
    unfolding incompletes
    complete-incompletes [] h = refl
    complete-incompletes ((k, pm) ∷ kvs) (h, hs) =
        rw (h.0.complete, complete-incompletes kvs hs) refl

    with_keys-same : (kvs : List (Key × PropertyMap)) → with_keys (map key_of kvs) kvs ≡ kvs
    unfolding with_keys
    with_keys-same [] = refl
    with_keys-same ((k, pm) ∷ kvs) = ap (λ l. (k, pm) ∷ l) (with_keys-same kvs)

    keys-All :
        (kvs : List (Key × PropertyMap))
        → All (IsRow c sha256 kc) kvs
        → All (IsKey c sha256 kc) (map key_of kvs)
    keys-All [] h = tt
    keys-All ((k, pm) ∷ kvs) (h, hs) = (h.0, keys-All kvs hs)

    nothing_to_fix :
        (keys : List Key) (s : D.State)
        → incompletes keys ≡ []
        → fix_keys c sha256 D keys s ≡ ok (fixed keys) s
    unfolding fix_keys fix_incomplete
    nothing_to_fix keys s h = ap (λ l. fix_incomplete c sha256 D keys l s) h

    -- Complete keys are put as they are.
    put_multi-fixed :
        (kvs : List (Key × PropertyMap)) (t : TxnBufState) (s : D.State)
        → All (IsRow c sha256 kc) kvs
        → put_multi c sha256 D kvs (t, s) ≡ put_fixed c sha256 D kvs (t, s)
    unfolding put_multi
    put_multi-fixed kvs t s h =
        let after : Outcome F D.State (Fixed F)
            → Outcome F (TxnBufState × D.State) (List (Told F)) =
          λ o. ◌>>=◌ {A = Fixed F} (lift c sha256 D t o) (λ r. elim r [
            | not_fixed es ↦ ok (map refused es)
            | fixed keys ↦ put_fixed c sha256 D (with_keys keys kvs)
          ]) in
        ap after (nothing_to_fix (map key_of kvs) s (complete-incompletes kvs h))
        ∙ ap (λ l. put_fixed c sha256 D l (t, s)) (with_keys-same kvs)

    -- A PutMulti changes nothing, with an error, or puts all the entities.
    pub put_multi-of :
        (kvs : List (Key × PropertyMap)) (t : TxnBufState) (s : D.State)
        → Good (t, s)
        → All (IsRow c sha256 kc) kvs
        → (put_multi c sha256 D kvs (t, s) ≡ raise too_many_roots (t, s))
          ⊎ ((ts' : TxnBufState × D.State) × (put_multi c sha256 D kvs (t, s)
                ≡ ok (map (λ kv. told (key_of kv)) kvs) ts')
              × Becomes (t, s) (after_puts kvs) ts')
    unfolding put_fixed overlay
    put_multi-of kvs t s w h =
        let fixed_keys = put_multi-fixed kvs t s h in
        elim (Option-cases (update_roots roots t)) [
          | inl u ↦ inl (fixed_keys ∙ ap after_roots u)
          | inr (t', u) ↦
              let (w', same) = with_roots c sha256 kc D Inv read roots t t' s u w in
              let (d, left, b, m) = buf_put-each c sha256 kc kvs t'.buf_ds w'.buffer h (
                rows-Replaceable c sha256 kc (contents c sha256 kc t'.buf_ds)
                  w'.well_formed.buf_rows) in
              let sizes = set_puts c sha256 kvs t'.ent_state in
              inr (
                (record t' { buf_ds = d; ent_state = sizes }, s),
                fixed_keys ∙ ap after_roots u ∙ ap (written t') left,
                (
                  record {
                    buffer = b;
                    well_formed = rw m (
                        puts-IsWellFormed c sha256 kc kvs t'.ent_state
                          (contents c sha256 kc t'.buf_ds) h w'.well_formed);
                    inv = w'.inv;
                  },
                  λ j l.
                      rw m (
                        puts-shown c sha256 kc kvs t'.ent_state (contents c sha256 kc t'.buf_ds) j
                          (read s j) h l)
                      ∙ ap (after_puts kvs j) (same j),
                  λ j. refl,
                ),
              )
        ]
      where
        roots : List Bytes
        roots = roots_of c sha256 (map key_of kvs)

        written :
            TxnBufState → Option DataStoreData → Outcome F (TxnBufState × D.State) (List (Told F))
        written t' o = elim o [
          | none ↦ panic
          | some d ↦
              ok (map (λ kv. told (key_of kv)) kvs)
                (record t' { buf_ds = d; ent_state = set_puts c sha256 kvs t'.ent_state }, s)
        ]

        after_roots : Option TxnBufState → Outcome F (TxnBufState × D.State) (List (Told F))
        after_roots o = elim o [
          | none ↦ raise too_many_roots (t, s)
          | some t' ↦ written t' (buf_put c sha256 kvs t'.buf_ds)
        ]

    -- From which of the two outcomes a result or an error comes.
    result-of :
        {A : Type 0} {o : Outcome F (TxnBufState × D.State) A} {ts : TxnBufState × D.State}
        {B : TxnBufState × D.State → Type 0} {a b : A} {x : Error F} {ts' : TxnBufState × D.State}
        → (o ≡ raise x ts) ⊎ ((y : TxnBufState × D.State) × (o ≡ ok a y) × B y)
        → o ≡ ok b ts'
        → B ts'
    result-of (inl r) e = absurd (cc)
    result-of {B = B} (inr (y, r, h)) e = let (_, same) = ok-injective (sym r ∙ e) in rw (← same) h

    error-of :
        {A : Type 0} {o : Outcome F (TxnBufState × D.State) A} {ts : TxnBufState × D.State}
        {B : TxnBufState × D.State → Type 0} {a : A} {x x' : Error F} {ts' : TxnBufState × D.State}
        → (o ≡ raise x ts) ⊎ ((y : TxnBufState × D.State) × (o ≡ ok a y) × B y)
        → o ≡ raise x' ts'
        → ts ≡ ts'
    error-of (inl r) e = let (_, same) = raise-injective (sym r ∙ e) in same
    error-of (inr (y, r, h)) e = absurd (cc)

    returns-of :
        {A : Type 0} {o : Outcome F (TxnBufState × D.State) A} {ts : TxnBufState × D.State}
        {B : TxnBufState × D.State → Type 0} {a : A} {x : Error F}
        → (o ≡ raise x ts) ⊎ ((y : TxnBufState × D.State) × (o ≡ ok a y) × B y)
        → o ≢ panic
    returns-of (inl r) e = absurd (cc)
    returns-of (inr (y, r, h)) e = absurd (cc)

    pub put_multi-returns :
        (kvs : List (Key × PropertyMap)) (ts : TxnBufState × D.State)
        → Good ts
        → All (IsRow c sha256 kc) kvs
        → put_multi c sha256 D kvs ts ≢ panic
    put_multi-returns kvs ts w h =
        returns-of {B = Becomes ts (after_puts kvs)} (put_multi-of kvs ts.0 ts.1 w h)

    pub delete_multi-returns :
        (ks : List Key) (ts : TxnBufState × D.State)
        → Good ts
        → All (IsKey c sha256 kc) ks
        → delete_multi c sha256 D ks ts ≢ panic
    delete_multi-returns ks ts w h =
        returns-of {B = Becomes ts (after_deletes ks)} (delete_multi-of ks ts.0 ts.1 w h)

    pub put_multi-writes :
        (kvs : List (Key × PropertyMap)) (ts : TxnBufState × D.State) (es : List (Told F))
        (ts' : TxnBufState × D.State)
        → Good ts
        → All (IsRow c sha256 kc) kvs
        → put_multi c sha256 D kvs ts ≡ ok es ts'
        → Becomes ts (after_puts kvs) ts'
    put_multi-writes kvs ts es ts' w h e =
        result-of {B = Becomes ts (after_puts kvs)} (put_multi-of kvs ts.0 ts.1 w h) e

    pub put_multi-fails :
        (kvs : List (Key × PropertyMap)) (ts : TxnBufState × D.State) (x : Error F)
        (ts' : TxnBufState × D.State)
        → Good ts
        → All (IsRow c sha256 kc) kvs
        → put_multi c sha256 D kvs ts ≡ raise x ts'
        → ts ≡ ts'
    put_multi-fails kvs ts x ts' w h e =
        error-of {B = Becomes ts (after_puts kvs)} (put_multi-of kvs ts.0 ts.1 w h) e

    pub delete_multi-removes :
        (ks : List Key) (ts : TxnBufState × D.State) (es : List (Option F))
        (ts' : TxnBufState × D.State)
        → Good ts
        → All (IsKey c sha256 kc) ks
        → delete_multi c sha256 D ks ts ≡ ok es ts'
        → Becomes ts (after_deletes ks) ts'
    delete_multi-removes ks ts es ts' w h e =
        result-of {B = Becomes ts (after_deletes ks)} (delete_multi-of ks ts.0 ts.1 w h) e

    pub delete_multi-fails :
        (ks : List Key) (ts : TxnBufState × D.State) (x : Error F) (ts' : TxnBufState × D.State)
        → Good ts
        → All (IsKey c sha256 kc) ks
        → delete_multi c sha256 D ks ts ≡ raise x ts'
        → ts ≡ ts'
    delete_multi-fails ks ts x ts' w h e =
        error-of {B = Becomes ts (after_deletes ks)} (delete_multi-of ks ts.0 ts.1 w h) e
