-- ===== src/Filters/TxnBuf/Effect.antt =====
-- The effect of a buffered transaction: its puts and deletions, done to a map, make it show what the
-- transaction shows.
pub mod Done
use gae.Prelude.{
  ℕ, zero, suc, ◌≡◌, refl, sym, ap, ◌∙◌, Bool, true, false, Option, none, some, List, [], ◌∷◌, All,
  arith, Bytes, same_bytes, same_bytes_iff, if◌then◌else◌, lookup, Bool-cases, inl, inr,
}
use gae.Datastore.Key.{Key, KeyContext, equal}
use gae.Datastore.PropertyMap.{PropertyMap}
use gae.Serialize.Cmpbin.{Cmpbin}
use gae.Serialize.Read.{read_key, read_property}
use gae.Memory.Datastore.Data.{Collection, key_bytes, strip_special_props, read_prop_map}
use gae.Filters.TxnBuf.Interface.{Got, got, no_such_entity}
use gae.Filters.TxnBuf.State.{TxnBufState}
use gae.Filters.TxnBuf.Methods.{encode}
use gae.Filters.TxnBuf.Commit.{
  Effect, effect, effect_of, with_put, with_delete, all_puts, all_deletes, key_read, maybe_key,
  read_queried,
}
use gae.Filters.TxnBuf.Keys.{IsKey, encode-reads, key_bytes-reads, same-encode, same-key_bytes}
use gae.Filters.TxnBuf.Buffer.{Sizes, Agree, entity_at, shown, shown_at}
use gae.Filters.TxnBuf.Calls.{IsRow, contents}
use gae.Filters.TxnBuf.Mapping.{after_puts, after_deletes}
use gae.Filters.TxnBuf.Rows.{IsDistinct, IsSizeRow, IsBufRow, IsWellFormed}

module _ (c : Cmpbin) (sha256 : Bytes → Bytes) (kc : KeyContext) where
  abbrev over : {F : Type 0} → Option PropertyMap → Got F → Got F
  over none g = g
  over (some pm) g = got (strip_special_props pm)

  abbrev unless_deleted : {F : Type 0} → Option ℕ → Got F → Got F
  unless_deleted (some zero) g = no_such_entity
  unless_deleted _ g = g

  abbrev PutsOf : Type 0 → Collection → Type 0
  PutsOf F m =
      (kvs : List (Key × PropertyMap)) × (all_puts c sha256 kc m ≡ some kvs)
      × All (IsRow c sha256 kc) kvs
      × ((j : Key) (g : Got F)
          → IsKey c sha256 kc j
          → after_puts kvs j g ≡ over (entity_at c (lookup (key_bytes c sha256 j) m)) g)

  effect-puts :
      {F : Type 0} (m : Collection) → All (IsBufRow c sha256 kc) m → IsDistinct m → PutsOf F m
  unfolding all_puts after_puts lookup
  effect-puts [] h d = ([], refl, tt, λ j g l. refl)
  effect-puts {F = F} ((b, e) ∷ m) (r, h) (fresh, d) =
      let (q, is_q, same_q) = r.queried_back in
      let (p, is_p, same_p) = r.got_back in
      let (kvs, found, rows, after) = effect-puts {F = F} m h d in
      let readable : key_read (read_property c false kc b) ≡ some r.key =
        ap (λ x. key_read (read_property c false kc x)) r.encoded
        ∙ key_bytes-reads c sha256 kc r.key r.is_key in
      (
        (r.key, r.entity) ∷ kvs,
        ap (λ x. with_put x (read_queried c sha256 kc e) (all_puts c sha256 kc m)) readable
            ∙ ap (λ x. with_put (some r.key) x (all_puts c sha256 kc m)) is_q
            ∙ ap (with_put (some r.key) (some q)) found
            ∙ ap (λ x. some ((r.key, x) ∷ kvs)) same_q,
        ((r.is_key, r.plain), rows),
        λ j g l.
            after j (if equal r.key j then got r.entity else g) l
            ∙ of j g (lookup (key_bytes c sha256 j) m)
                (ap (λ x. same_bytes x (key_bytes c sha256 j)) r.encoded
                  ∙ same-key_bytes c sha256 kc r.key j r.is_key l)
                refl p is_p same_p,
      )
    where
      of :
          (j : Key) (g : Got F) (o : Option Bytes)
          → same_bytes b (key_bytes c sha256 j) ≡ equal r.key j
          → lookup (key_bytes c sha256 j) m ≡ o
          → (p : PropertyMap) → read_prop_map c e ≡ some p
          → strip_special_props p ≡ r.entity
          → over (entity_at c o) (if equal r.key j then got r.entity else g)
            ≡ over (entity_at c (if same_bytes b (key_bytes c sha256 j) then some e else o)) g
      of j g o s u p is_p same_p = elim (Bool-cases (same_bytes b (key_bytes c sha256 j))) [
        | inl x ↦
            rw
              (
                x,
                sym s ∙ x,
                sym u
                    ∙ ap (λ k. lookup k m) (sym ((same_bytes_iff b (key_bytes c sha256 j)).0 x))
                    ∙ fresh,
                is_p,
              )
              (ap got (sym same_p))
        | inr x ↦ rw (x, sym s ∙ x) refl
      ]

  abbrev DeletesOf : Type 0 → Sizes → Type 0
  DeletesOf F m =
      (ks : List Key) × (all_deletes c sha256 kc m ≡ some ks)
      × All (IsKey c sha256 kc) ks
      × ((j : Key) (g : Got F)
          → IsKey c sha256 kc j
          → after_deletes ks j g ≡ unless_deleted (lookup (encode c sha256 j) m) g)

  effect-deletes :
      {F : Type 0} (m : Sizes) → All (IsSizeRow c sha256 kc) m → IsDistinct m → DeletesOf F m
  unfolding all_deletes after_deletes lookup
  effect-deletes [] h d = ([], refl, tt, λ j g l. refl)
  effect-deletes {F = F} ((b, zero) ∷ m) (r, h) (fresh, d) =
      let (ks, found, good, after) = effect-deletes {F = F} m h d in
      let readable : maybe_key (read_key c false kc b) ≡ some r.key =
        ap (λ x. maybe_key (read_key c false kc x)) r.encoded
        ∙ encode-reads c sha256 kc r.key r.is_key in
      (
        r.key ∷ ks,
        ap (λ x. with_delete x (all_deletes c sha256 kc m)) readable
            ∙ ap (with_delete (some r.key)) found,
        (r.is_key, good),
        λ j g l.
            after j (if equal r.key j then no_such_entity else g) l
            ∙ of j g (lookup (encode c sha256 j) m)
                (ap (λ x. same_bytes x (encode c sha256 j)) r.encoded
                  ∙ same-encode c sha256 kc r.key j r.is_key l)
                refl,
      )
    where
      of :
          (j : Key) (g : Got F) (o : Option ℕ)
          → same_bytes b (encode c sha256 j) ≡ equal r.key j
          → lookup (encode c sha256 j) m ≡ o
          → unless_deleted o (if equal r.key j then no_such_entity else g)
            ≡ unless_deleted (if same_bytes b (encode c sha256 j) then some 0 else o) g
      of j g o e u = ground (arith, same_bytes_iff b (encode c sha256 j), fresh, e, u)
  effect-deletes {F = F} ((b, suc n) ∷ m) (r, h) (fresh, d) =
      let (ks, found, good, after) = effect-deletes {F = F} m h d in
      (ks, found, good, λ j g l. after j g l ∙ of j g (lookup (encode c sha256 j) m) refl)
    where
      of :
          (j : Key) (g : Got F) (o : Option ℕ)
          → lookup (encode c sha256 j) m ≡ o
          → unless_deleted o g
            ≡ unless_deleted (if same_bytes b (encode c sha256 j) then some (suc n) else o) g
      of j g o u = ground (arith, same_bytes_iff b (encode c sha256 j), fresh, u)

  -- The puts first, then the deletions.
  both-shown :
      {F : Type 0} (o : Option ℕ) (e : Option Bytes) (g : Got F)
      → Agree c o e
      → unless_deleted o (over (entity_at c e) g) ≡ shown o (entity_at c e) g
  both-shown none e g a = rw a refl
  both-shown (some zero) e g a = refl
  both-shown (some (suc n)) e g (b, pm, a, r) = rw (a, r) refl

  -- The deletions first.
  reversed-shown :
      {F : Type 0} (o : Option ℕ) (e : Option Bytes) (g : Got F)
      → Agree c o e
      → over (entity_at c e) (unless_deleted o g) ≡ shown o (entity_at c e) g
  reversed-shown none e g a = rw a refl
  reversed-shown (some zero) e g a = rw a refl
  reversed-shown (some (suc n)) e g (b, pm, a, r) = rw (a, r) refl

  pub record IsEffect (F : Type 0) (t : TxnBufState) (e : Effect) : Type 0 where
    pub found : effect c sha256 kc t ≡ some e
    pub puts : All (IsRow c sha256 kc) e.to_put
    pub dels : All (IsKey c sha256 kc) e.to_del
    pub shows :
        (j : Key) (g : Got F)
        → IsKey c sha256 kc j
        → after_deletes e.to_del j (after_puts e.to_put j g)
          ≡ shown_at c sha256 kc t.ent_state.key_to_size (contents c sha256 kc t.buf_ds) j g
    pub shows_reversed :
        (j : Key) (g : Got F)
        → IsKey c sha256 kc j
        → after_puts e.to_put j (after_deletes e.to_del j g)
          ≡ shown_at c sha256 kc t.ent_state.key_to_size (contents c sha256 kc t.buf_ds) j g

  pub effect-IsEffect :
      {F : Type 0} (t : TxnBufState)
      → IsWellFormed c sha256 kc t.ent_state.key_to_size (contents c sha256 kc t.buf_ds)
      → (e : Effect) × IsEffect F t e
  unfolding effect
  effect-IsEffect {F = F} t w =
      let (kvs, found, rows, after) =
        effect-puts {F = F} (contents c sha256 kc t.buf_ds) w.buf_rows w.buf_distinct in
      let (ks, found', good, after') =
        effect-deletes {F = F} t.ent_state.key_to_size w.size_rows w.sizes_distinct in
      (
        record { to_put = kvs; to_del = ks },
        record {
          found =
              ap (λ x. effect_of x (all_deletes c sha256 kc t.ent_state.key_to_size)) found
              ∙ ap (effect_of (some kvs)) found';
          puts = rows;
          dels = good;
          shows = λ j g l.
              after' j (after_puts kvs j g) l
              ∙ ap (unless_deleted (lookup (encode c sha256 j) t.ent_state.key_to_size))
                  (after j g l)
              ∙ both-shown (lookup (encode c sha256 j) t.ent_state.key_to_size)
                  (lookup (key_bytes c sha256 j) (contents c sha256 kc t.buf_ds)) g (w.aligned j l);
          shows_reversed = λ j g l.
              after j (after_deletes ks j g) l
              ∙ ap
                  (over
                    (entity_at c (lookup (key_bytes c sha256 j) (contents c sha256 kc t.buf_ds))))
                  (after' j g l)
              ∙ reversed-shown (lookup (encode c sha256 j) t.ent_state.key_to_size)
                  (lookup (key_bytes c sha256 j) (contents c sha256 kc t.buf_ds)) g (w.aligned j l);
        },
      )
