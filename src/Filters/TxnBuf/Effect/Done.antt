-- ===== src/Filters/TxnBuf/Effect/Done.antt =====
-- A committed transaction: the datastore below shows what the transaction showed.
use gae.Prelude.{
  ◌≡◌, refl, sym, ap, ◌∙◌, Bool, true, false, Option, List, [], ◌∷◌, ◌++◌, All, any, arith, Bytes,
  Bool-cases, inl, inr,
}
use gae.Datastore.Key.{Key, KeyContext}
use gae.Datastore.PropertyMap.{PropertyMap}
use gae.Serialize.Cmpbin.{Cmpbin}
use gae.Filters.TxnBuf.Interface.{Got, Told, Error, Outcome, panic, raise, ok, RawInterface, ◌>>=◌}
use gae.Filters.TxnBuf.State.{TxnBufState}
use gae.Filters.TxnBuf.Methods.{is_error}
use gae.Filters.TxnBuf.Commit.{
  put_errors, certain, put_all, delete_all, do_effect, commit_locked, side, put_side, delete_side,
  do_both, commit_to_real,
}
use gae.Filters.TxnBuf.Keys.{IsKey}
use gae.Filters.TxnBuf.Calls.{IsRow}
use gae.Filters.TxnBuf.Mapping.{IsMap, after_puts, after_deletes}
use gae.Filters.TxnBuf.Overlay.State.{IsOverlay, overlay, ok-injective}
use gae.Filters.TxnBuf.Effect.{effect-IsEffect}

module _ (c : Cmpbin) (sha256 : Bytes → Bytes) (kc : KeyContext) where
  module _ {F : Type 0} (D : RawInterface F) (Inv : D.State → Type 0) (read : D.State → Key → Got F)
      (below : IsMap c sha256 kc D Inv read) where
    -- The state `s'` shows what `f` makes of what `s` shows.
    abbrev Becomes : D.State → (Key → Got F → Got F) → D.State → Type 0
    Becomes s f s' = Inv s' × ((j : Key) → IsKey c sha256 kc j → read s' j ≡ f j (read s j))

    -- A call whose errors are looked at, in one of the two ways.
    certain-ok :
        {A : Type 0} (o : Outcome F D.State A) (errors : A → List (Option F)) (s' : D.State)
        → certain c sha256 kc D o errors ≡ ok tt s'
        → (a : A) × (o ≡ ok a s') × (any is_error (errors a) ≡ false)
    certain-ok panic errors s' e = absurd (cc)
    certain-ok (raise x y) errors s' e = absurd (cc)
    certain-ok (ok a y) errors s' e = elim (Bool-cases (any is_error (errors a))) [
      | inl b ↦ absurd (ground (arith, e, b))
      | inr b ↦ (a, ground (arith, e, b), b)
    ]

    put_all-writes :
        (kvs : List (Key × PropertyMap)) (s s' : D.State)
        → Inv s
        → All (IsRow c sha256 kc) kvs
        → put_all c sha256 kc D kvs s ≡ ok tt s'
        → Becomes s (after_puts kvs) s'
    unfolding put_all
    put_all-writes [] s s' v h e =
        let (_, same) = ok-injective e in rw (← same) (v, λ j l. unfold after_puts in refl)
    put_all-writes (kv ∷ kvs) s s' v h e =
        let (ts, done, fine) = certain-ok (D.put_multi (kv ∷ kvs) s) put_errors s' e in
        let (v', shows) = below.put_writes (kv ∷ kvs) s ts s' v h done in (v', shows fine)

    delete_all-removes :
        (ks : List Key) (s s' : D.State)
        → Inv s
        → All (IsKey c sha256 kc) ks
        → delete_all c sha256 kc D ks s ≡ ok tt s'
        → Becomes s (after_deletes ks) s'
    unfolding delete_all
    delete_all-removes [] s s' v h e =
        let (_, same) = ok-injective e in rw (← same) (v, λ j l. unfold after_deletes in refl)
    delete_all-removes (k ∷ ks) s s' v h e =
        let (es, done, fine) = certain-ok (D.delete_multi (k ∷ ks) s) (λ es. es) s' e in
        let (v', shows) = below.delete_removes (k ∷ ks) s es s' v h done in (v', shows fine)

    then-Becomes :
        (f g : Key → Got F → Got F) (s s' s'' : D.State)
        → Becomes s f s'
        → Becomes s' g s''
        → Becomes s (λ j x. g j (f j x)) s''
    then-Becomes f g s s' s'' (v, a) (v', b) = (v', λ j l. b j l ∙ ap (g j) (a j l))

    bind-ok :
        {A B : Type 0} (o : Outcome F D.State A) (f : A → D.State → Outcome F D.State B) (b : B)
        (s' : D.State)
        → (o >>= f) ≡ ok b s'
        → (a : A) × (y : D.State) × (o ≡ ok a y) × (f a y ≡ ok b s')
    bind-ok panic f b s' e = absurd (cc)
    bind-ok (raise x y) f b s' e = absurd (cc)
    bind-ok (ok a y) f b s' e = (a, y, refl, e)

    -- After a commit the parent shows what the transaction showed.
    pub commit_locked-shows :
        (t : TxnBufState) (s s' : D.State)
        → IsOverlay c sha256 kc D Inv read (t, s)
        → commit_locked c sha256 kc D t s ≡ ok tt s'
        → Inv s'
          × ((j : Key) → IsKey c sha256 kc j → read s' j ≡ overlay c sha256 kc D Inv read (t, s) j)
    unfolding commit_locked overlay
    commit_locked-shows t s s' w e =
        let (x, is) = effect-IsEffect c sha256 kc {F = F} t w.well_formed in
        let (_, y, put, deleted) =
          bind-ok (put_all c sha256 kc D x.to_put s) (λ u. delete_all c sha256 kc D x.to_del) tt s'
            (sym (ap (λ o. do_effect c sha256 kc D o s) is.found) ∙ e) in
        let (v, same) =
          then-Becomes (after_puts x.to_put) (after_deletes x.to_del) s y s'
            (put_all-writes x.to_put s y w.inv is.puts put)
            (delete_all-removes x.to_del y s' (put_all-writes x.to_put s y w.inv is.puts put).0
              is.dels deleted) in
        (v, λ j l. same j l ∙ is.shows j (read s j) l)

    side-ok :
        {A : Type 0} (errors : A → List (Option F)) (o : Outcome F D.State A) (s' : D.State)
        → side c sha256 kc D errors o ≡ ok [] s'
        → (a : A) × (o ≡ ok a s') × (any is_error (errors a) ≡ false)
    side-ok errors panic s' e = absurd (cc)
    side-ok errors (raise x y) s' e = absurd (cc)
    side-ok errors (ok a y) s' e = elim (Bool-cases (any is_error (errors a))) [
      | inl b ↦ absurd (ground (arith, e, b))
      | inr b ↦ (a, ground (arith, e, b), b)
    ]

    put_side-writes :
        (kvs : List (Key × PropertyMap)) (s s' : D.State)
        → Inv s
        → All (IsRow c sha256 kc) kvs
        → put_side c sha256 kc D kvs s ≡ ok [] s'
        → Becomes s (after_puts kvs) s'
    unfolding put_side
    put_side-writes [] s s' v h e =
        let (_, same) = ok-injective e in rw (← same) (v, λ j l. unfold after_puts in refl)
    put_side-writes (kv ∷ kvs) s s' v h e =
        let (ts, done, fine) = side-ok put_errors (D.put_multi (kv ∷ kvs) s) s' e in
        let (v', shows) = below.put_writes (kv ∷ kvs) s ts s' v h done in (v', shows fine)

    delete_side-removes :
        (ks : List Key) (s s' : D.State)
        → Inv s
        → All (IsKey c sha256 kc) ks
        → delete_side c sha256 kc D ks s ≡ ok [] s'
        → Becomes s (after_deletes ks) s'
    unfolding delete_side
    delete_side-removes [] s s' v h e =
        let (_, same) = ok-injective e in rw (← same) (v, λ j l. unfold after_deletes in refl)
    delete_side-removes (k ∷ ks) s s' v h e =
        let (es, done, fine) = side-ok (λ es. es) (D.delete_multi (k ∷ ks) s) s' e in
        let (v', shows) = below.delete_removes (k ∷ ks) s es s' v h done in (v', shows fine)

    -- The errors of two calls, one after the other, are none.
    both-ok :
        (first : Outcome F D.State (List (Error F)))
        (second : D.State → Outcome F D.State (List (Error F)))
        (join : List (Error F) → List (Error F) → List (Error F)) (s' : D.State)
        → ((a b : List (Error F)) → join a b ≡ [] → (a ≡ []) × (b ≡ []))
        → (first >>= λ a s. second s >>= λ b. ok (join a b)) ≡ ok [] s'
        → (y : D.State) × (first ≡ ok [] y) × (second y ≡ ok [] s')
    both-ok first second join s' parts e =
        let (a, y, done, rest) = bind-ok first (λ a s. second s >>= λ b. ok (join a b)) [] s' e in
        let (b, z, done', end) = bind-ok (second y) (λ b. ok (join a b)) [] s' rest in
        let (none_left, same) = ok-injective end in
        let (no_a, no_b) = parts a b none_left in
        (y, done ∙ ap (λ l. ok l y) no_a, done' ∙ ap (λ l. ok l z) no_b ∙ ap (λ x. ok [] x) same)

    append-nil_parts : (a b : List (Error F)) → a ++ b ≡ [] → (a ≡ []) × (b ≡ [])
    append-nil_parts [] b e = (refl, e)
    append-nil_parts (x ∷ a) b e = absurd (cc)

    -- A result, and no error, with a state that is good.
    abbrev pub Returns : {A : Type 0} → Outcome F D.State A → Type 0
    Returns panic = ⊥
    Returns (raise x s) = ⊥
    Returns (ok a s) = Inv s

    put_side-Returns :
        (kvs : List (Key × PropertyMap)) (s : D.State)
        → Inv s
        → All (IsRow c sha256 kc) kvs
        → Returns (put_side c sha256 kc D kvs s)
    unfolding put_side
    put_side-Returns [] s v h = v
    put_side-Returns (kv ∷ kvs) s v h = of (D.put_multi (kv ∷ kvs) s) refl
      where
        of :
            (o : Outcome F D.State (List (Told F)))
            → D.put_multi (kv ∷ kvs) s ≡ o
            → Returns (side c sha256 kc D put_errors o)
        of panic e = below.put_returns (kv ∷ kvs) s v h e
        of (raise x y) e = below.put_fails (kv ∷ kvs) s x y v h e
        of (ok ts y) e = (below.put_writes (kv ∷ kvs) s ts y v h e).0

    delete_side-Returns :
        (ks : List Key) (s : D.State)
        → Inv s
        → All (IsKey c sha256 kc) ks
        → Returns (delete_side c sha256 kc D ks s)
    unfolding delete_side
    delete_side-Returns [] s v h = v
    delete_side-Returns (k ∷ ks) s v h = of (D.delete_multi (k ∷ ks) s) refl
      where
        of :
            (o : Outcome F D.State (List (Option F)))
            → D.delete_multi (k ∷ ks) s ≡ o
            → Returns (side c sha256 kc D (λ es. es) o)
        of panic e = below.delete_returns (k ∷ ks) s v h e
        of (raise x y) e = below.delete_fails (k ∷ ks) s x y v h e
        of (ok es y) e = (below.delete_removes (k ∷ ks) s es y v h e).0

    bind-Returns :
        {A B : Type 0} (o : Outcome F D.State A) (f : A → D.State → Outcome F D.State B)
        → Returns o
        → ((a : A) (y : D.State) → Inv y → Returns (f a y))
        → Returns (o >>= f)
    bind-Returns panic f r g = r
    bind-Returns (raise x y) f r g = r
    bind-Returns (ok a y) f r g = g a y r

    -- The commit of a transaction does not panic.
    pub commit_to_real-Returns :
        (deletes_first : Bool) (t : TxnBufState) (s : D.State)
        → IsOverlay c sha256 kc D Inv read (t, s)
        → Returns (commit_to_real c sha256 kc D deletes_first t s)
    unfolding commit_to_real
    commit_to_real-Returns true t s w =
        let (x, is) = effect-IsEffect c sha256 kc {F = F} t w.well_formed in
        rw is.found (
          bind-Returns (delete_side c sha256 kc D x.to_del s) _
            (delete_side-Returns x.to_del s w.inv is.dels)
            (λ a y v.
              bind-Returns (put_side c sha256 kc D x.to_put y) (λ b. ok (b ++ a))
                (put_side-Returns x.to_put y v is.puts) (λ b z v'. v')))
    commit_to_real-Returns false t s w =
        let (x, is) = effect-IsEffect c sha256 kc {F = F} t w.well_formed in
        rw is.found (
          bind-Returns (put_side c sha256 kc D x.to_put s) _
            (put_side-Returns x.to_put s w.inv is.puts)
            (λ a y v.
              bind-Returns (delete_side c sha256 kc D x.to_del y) (λ b. ok (a ++ b))
                (delete_side-Returns x.to_del y v is.dels) (λ b z v'. v')))

    -- After a commit without an error the datastore shows what the transaction showed, in whichever order the
    -- puts and the deletions are done.
    pub commit_to_real-shows :
        (deletes_first : Bool) (t : TxnBufState) (s s' : D.State)
        → IsOverlay c sha256 kc D Inv read (t, s)
        → commit_to_real c sha256 kc D deletes_first t s ≡ ok [] s'
        → Inv s'
          × ((j : Key) → IsKey c sha256 kc j → read s' j ≡ overlay c sha256 kc D Inv read (t, s) j)
    unfolding commit_to_real overlay
    commit_to_real-shows true t s s' w e =
        let (x, is) = effect-IsEffect c sha256 kc {F = F} t w.well_formed in
        let (y, deleted, put) =
          both-ok (delete_side c sha256 kc D x.to_del s) (put_side c sha256 kc D x.to_put)
            (λ a b. b ++ a) s' (λ a b h. let (p, q) = append-nil_parts b a h in (q, p))
            (sym (ap (λ o. do_both c sha256 kc D true o s) is.found) ∙ e) in
        let after = delete_side-removes x.to_del s y w.inv is.dels deleted in
        let (v, same) =
          then-Becomes (after_deletes x.to_del) (after_puts x.to_put) s y s' after
            (put_side-writes x.to_put y s' after.0 is.puts put) in
        (v, λ j l. same j l ∙ is.shows_reversed j (read s j) l)
    commit_to_real-shows false t s s' w e =
        let (x, is) = effect-IsEffect c sha256 kc {F = F} t w.well_formed in
        let (y, put, deleted) =
          both-ok (put_side c sha256 kc D x.to_put s) (delete_side c sha256 kc D x.to_del)
            (λ a b. a ++ b) s' append-nil_parts
            (sym (ap (λ o. do_both c sha256 kc D false o s) is.found) ∙ e) in
        let after = put_side-writes x.to_put s y w.inv is.puts put in
        let (v, same) =
          then-Becomes (after_puts x.to_put) (after_deletes x.to_del) s y s' after
            (delete_side-removes x.to_del y s' after.0 is.dels deleted) in
        (v, λ j l. same j l ∙ is.shows j (read s j) l)
