-- ===== src/Filters/TxnBuf/Overlay/Items.antt =====
-- The items of a GetMulti in a buffered transaction: which are found in the buffer, which below.
use gae.Prelude.{
  ℕ, zero, suc, ◌≡◌, refl, ap, ◌∙◌, Bool, false, Option, none, some, List, [], ◌∷◌, map, All, Bytes,
  if◌then◌else◌, lookup, Bool-cases, inl, inr,
}
use gae.Datastore.Key.{Key, KeyContext}
use gae.Datastore.PropertyMap.{PropertyMap}
use gae.Serialize.Cmpbin.{Cmpbin}
use gae.Memory.Datastore.Data.{key_bytes, strip_special_props, get_multi_inner}
use gae.Filters.TxnBuf.SizeTracker.{get}
use gae.Filters.TxnBuf.Interface.{Got, got, no_such_entity, failed}
use gae.Filters.TxnBuf.State.{
  TxnBufState, Item, is_live, is_unbuffered, picked, assign, with_entity, with_got, answer,
}
use gae.Filters.TxnBuf.Methods.{all_entities, encode, item_of}
use gae.Filters.TxnBuf.Keys.{IsKey}
use gae.Filters.TxnBuf.Buffer.{Agree, Aligned, entity_at, shown_at, shown}
use gae.Filters.TxnBuf.Calls.{contents}

module _ (c : Cmpbin) (sha256 : Bytes → Bytes) (kc : KeyContext) where
  module _ {F : Type 0} (t : TxnBufState) where
    -- The item of a key after the buffer is read.
    abbrev pub filled : Key → Option ℕ → Option PropertyMap → Item F
    filled k none o = record { key = k; size = none; data_of = none; err = none }
    filled k (some zero) o = record { key = k; size = some zero; data_of = none; err = none }
    filled k (some (suc n)) none = record {
      key = k;
      size = some (suc n);
      data_of = none;
      err = none;
    }
    filled k (some (suc n)) (some pm) = record {
      key = k;
      size = some (suc n);
      data_of = some (strip_special_props pm);
      err = none;
    }

    abbrev pub filled_item : Key → Item F
    filled_item k =
        filled k (lookup (encode c sha256 k) t.ent_state.key_to_size)
          (entity_at c (lookup (key_bytes c sha256 k) (contents c sha256 kc t.buf_ds)))

    -- The entities of the live items are found, and go to their items.
    abbrev pub Fills : List (Item F) → List (Item F) → Type 0
    Fills is filled =
        (pms : List PropertyMap) × (all_entities
            (get_multi_inner c sha256 false (picked is_live is) (contents c sha256 kc t.buf_ds))
          ≡ some pms)
        × (assign is_live with_entity is pms ≡ filled)

    abbrev item_with : Key → Option ℕ → Item F
    item_with k o = record { key = k; size = o; data_of = none; err = none }

    -- An item that is passed over.
    passed :
        {R : Type 0} (p : Item F → Bool) (f : R → Item F → Item F) (i : Item F) (is : List (Item F))
        (rs : List R)
        → p i ≡ false
        → assign p f (i ∷ is) rs ≡ i ∷ assign p f is rs
    unfolding assign
    passed p f i [] [] h = refl
    passed p f i (j ∷ is) [] h = refl
    passed p f i is (r ∷ rs) h = rw h refl

    fill-next :
        (k : Key) (o : Option ℕ) (is filled_is : List (Item F))
        → Agree c o (lookup (key_bytes c sha256 k) (contents c sha256 kc t.buf_ds))
        → Fills is filled_is
        → Fills (item_with k o ∷ is) (
            filled k o (entity_at c (lookup (key_bytes c sha256 k) (contents c sha256 kc t.buf_ds)))
            ∷ filled_is)
    unfolding picked get_multi_inner assign
    fill-next k none is filled_is a (pms, e, f) = (
      pms,
      e,
      passed is_live with_entity (item_with k none) is pms refl ∙ ap (λ l. item_with k none ∷ l) f,
    )
    fill-next k (some zero) is filled_is a (pms, e, f) = (
      pms,
      e,
      passed is_live with_entity (item_with k (some 0)) is pms refl
          ∙ ap (λ l. item_with k (some 0) ∷ l) f,
    )
    fill-next k (some (suc n)) is filled_is (b, pm, a, r) (pms, e, f) =
        (strip_special_props pm ∷ pms, rw (a, r, e) refl, rw (a, r, f) refl)

    pub buffer-Fills :
        (ks : List Key)
        → Aligned c sha256 kc t.ent_state.key_to_size (contents c sha256 kc t.buf_ds)
        → All (IsKey c sha256 kc) ks
        → Fills (map (item_of c sha256 t) ks) (map filled_item ks)
    unfolding picked get_multi_inner assign get
    buffer-Fills [] a h = ([], refl, refl)
    buffer-Fills (k ∷ ks) a (h, hs) =
        fill-next k (lookup (encode c sha256 k) t.ent_state.key_to_size)
          (map (item_of c sha256 t) ks) (map filled_item ks) (a k h) (buffer-Fills ks a hs)

    answer-with_got : (k : Key) (g : Got F) → answer (with_got g (item_with k none)) ≡ g
    unfolding answer
    answer-with_got k (got pm) = refl
    answer-with_got k no_such_entity = refl
    answer-with_got k (failed e) = refl

    -- The answers of items, of which those that are not buffered have got what the parent says.
    abbrev pub answers : (Key → Got F) → List (Item F) → List (Got F)
    answers g is = map answer (assign is_unbuffered with_got is (map g (picked is_unbuffered is)))

    answers-buffered :
        (g : Key → Got F) (i : Item F) (is : List (Item F))
        → is_unbuffered i ≡ false
        → answers g (i ∷ is) ≡ answer i ∷ answers g is
    unfolding picked
    answers-buffered g i is h =
        ap
          (λ (b : Bool). map answer (
            assign is_unbuffered with_got (i ∷ is)
              (map g (if b then i.key ∷ picked is_unbuffered is else picked is_unbuffered is))))
          h
        ∙ ap (map answer) (passed is_unbuffered with_got i is (map g (picked is_unbuffered is)) h)

    answers-next :
        (g : Key → Got F) (k : Key) (o : Option ℕ) (e : Option PropertyMap) (is : List (Item F))
        → answers g (filled k o e ∷ is) ≡ shown o e (g k) ∷ answers g is
    unfolding picked assign answer
    answers-next g k none e is = ap (λ x. x ∷ answers g is) (answer-with_got k (g k))
    answers-next g k (some zero) e is = answers-buffered g (filled k (some zero) e) is refl
    answers-next g k (some (suc n)) none is =
        answers-buffered g (filled k (some (suc n)) none) is refl
    answers-next g k (some (suc n)) (some pm) is =
        answers-buffered g (filled k (some (suc n)) (some pm)) is refl

    abbrev pub shown_of : (Key → Got F) → Key → Got F
    shown_of g k =
        shown_at c sha256 kc t.ent_state.key_to_size (contents c sha256 kc t.buf_ds) k (g k)

    -- What the parent answers goes to the items that are not buffered.
    pub parent-fills :
        (g : Key → Got F) (ks : List Key) → answers g (map filled_item ks) ≡ map (shown_of g) ks
    unfolding picked assign
    parent-fills g [] = refl
    parent-fills g (k ∷ ks) =
        answers-next g k (lookup (encode c sha256 k) t.ent_state.key_to_size)
          (entity_at c (lookup (key_bytes c sha256 k) (contents c sha256 kc t.buf_ds)))
          (map filled_item ks)
        ∙ ap (λ l. shown_of g k ∷ l) (parent-fills g ks)

    -- The keys that the parent is asked for are good.
    pub picked-All :
        (P : Key → Type 0) (p : Item F → Bool) (f : Key → Item F) (ks : List Key)
        → ((k : Key) → (f k).key ≡ k)
        → All P ks
        → All P (picked p (map f ks))
    unfolding picked
    picked-All P p f [] e h = tt
    picked-All P p f (k ∷ ks) e (h, hs) = elim (Bool-cases (p (f k))) [
      | inl b ↦ rw (b, e k) (h, picked-All P p f ks e hs)
      | inr b ↦ rw b (picked-All P p f ks e hs)
    ]
