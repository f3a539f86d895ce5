-- ===== src/Filters/DsCache/Plan/Served.antt =====
-- What a GetMulti of the cache answers, and what it saves.
use gae.Prelude.{
  false, if◌then◌else◌, ℕ, ◌+◌, ◌≡◌, refl, sym, ap, ◌∙◌, true, Option, none, some, List, [], ◌∷◌,
  ◌++◌, map, All, length, length-append, arith, Bytes, same_bytes, ◌==◌, ◌⊎◌, inl, inr, Bool-cases,
  ℤ, ltb,
}
use gae.Datastore.Key.{Key, KeyContext}
use gae.Serialize.Cmpbin.{Cmpbin}
use gae.Memory.Memcache.{Item}
use gae.Filters.TxnBuf.Interface.{Got, got, no_such_entity, failed}
use gae.Filters.DsCache.{
  encode_item_value, decode_item_value, Decoded, found, missing, broken, Zlib, item_has_lock,
  item_has_data,
}
use gae.Filters.DsCache.Plan.{
  Choice, fetch, decoded, no_entity, Plan, Row, add, set_at, answer_of, fill, choose, plan_from,
  make_fetch_plan, saved, to_cas, value_size_limit, choice_of,
}

module _ (c : Cmpbin) (z : Zlib) (kc : KeyContext) where
  -- What a choice answers, where `g` is in the datastore.
  abbrev served : {F : Type 0} → Choice → Got F → Got F
  served (fetch save) g = g
  served (decoded pm) g = got pm
  served no_entity g = no_such_entity

  abbrev served_row : {F : Type 0} → (Key → Got F) → Bytes → Row → Option (Got F)
  served_row read nonce (k, item) = some (served (choose c z kc nonce item) (read k))

  -- What data in memcache stand for, where `g` is in the datastore.
  abbrev pub cached : {F : Type 0} → Decoded → Got F → Got F
  cached (found pm) g = got pm
  cached missing g = no_such_entity
  cached broken g = g

  -- What the answer for a row should be, whatever the nonce.
  abbrev pub expected : {F : Type 0} → (Key → Got F) → Row → Option (Got F)
  expected read (k, none) = some (read k)
  expected read (k, some item) = some (
      if item.flags == item_has_data
      then cached (decode_item_value c z kc item.value) (read k)
      else read k)

  cached-served : {F : Type 0} (d : Decoded) (g : Got F) → served (choice_of d) g ≡ cached d g
  cached-served (found pm) g = refl
  cached-served missing g = refl
  cached-served broken g = refl

  served-expected :
      {F : Type 0} (read : Key → Got F) (nonce : Bytes) (row : Row)
      → served_row read nonce row ≡ expected read row
  unfolding choose
  served-expected read nonce (k, none) = refl
  served-expected read nonce (k, some item) = elim (Bool-cases (item.flags == item_has_lock)) [
    | inl locked ↦
        rw (locked, lock_is_no_data item.flags locked)
          (elim (Bool-cases (same_bytes nonce item.value)) [
            | inl b ↦ rw b refl
            | inr b ↦ rw b refl
          ])
    | inr free ↦ rw free (elim (Bool-cases (item.flags == item_has_data)) [
      | inl b ↦ rw b (ap some (cached-served (decode_item_value c z kc item.value) (read k)))
      | inr b ↦ rw b refl
    ])
  ]
    where
      lock_is_no_data : (n : ℕ) → (n == item_has_lock) ≡ true → (n == item_has_data) ≡ false
      lock_is_no_data n h = ground (arith, h)

  map-expected :
      {F : Type 0} (read : Key → Got F) (nonce : Bytes) (rows : List Row)
      → map (served_row read nonce) rows ≡ map (expected read) rows
  map-expected read nonce [] = refl
  map-expected read nonce (row ∷ rows) =
      rw (served-expected read nonce row, map-expected read nonce rows) refl

  module _ {F : Type 0} (read : Key → Got F) (nonce : Bytes) where
    abbrev filled : Plan → List (Option (Got F)) → List (Option (Got F))
    filled p before = fill p.idx_map (map read p.to_get) (before ++ map answer_of p.decoded)

    set_at-append :
        (before : List (Option (Got F))) (a x : Option (Got F)) (rest : List (Option (Got F)))
        → set_at (length before) a (before ++ x ∷ rest) ≡ before ++ a ∷ rest
    unfolding set_at
    set_at-append [] a x rest = refl
    set_at-append (b ∷ before) a x rest = ap (λ l. b ∷ l) (set_at-append before a x rest)

    append-one :
        (before : List (Option (Got F))) (x : Option (Got F)) (rest : List (Option (Got F)))
        → (before ++ x ∷ []) ++ rest ≡ before ++ x ∷ rest
    append-one [] x rest = refl
    append-one (b ∷ before) x rest = ap (λ l. b ∷ l) (append-one before x rest)

    -- The plan of one more key.
    add-serves :
        (k : Key) (ch : Choice) (p : Plan) (before rest : List (Option (Got F)))
        → ((x : Option (Got F)) → filled p (before ++ x ∷ []) ≡ (before ++ x ∷ []) ++ rest)
        → filled (add (length before) k ch p) before ≡ before ++ some (served ch (read k)) ∷ rest
    unfolding fill
    add-serves k (fetch save) p before rest h =
        ap (fill p.idx_map (map read p.to_get)) (
          set_at-append before (some (read k)) none (map answer_of p.decoded)
          ∙ sym (append-one before (some (read k)) (map answer_of p.decoded)))
        ∙ h (some (read k))
        ∙ append-one before (some (read k)) rest
    add-serves k (decoded pm) p before rest h =
        ap (fill p.idx_map (map read p.to_get))
          (sym (append-one before (some (got pm)) (map answer_of p.decoded)))
        ∙ h (some (got pm))
        ∙ append-one before (some (got pm)) rest
    add-serves k no_entity p before rest h =
        ap (fill p.idx_map (map read p.to_get))
          (sym (append-one before (some no_such_entity) (map answer_of p.decoded)))
        ∙ h (some no_such_entity)
        ∙ append-one before (some no_such_entity) rest

    append_nothing : (before : List (Option (Got F))) → before ++ [] ≡ before
    append_nothing [] = refl
    append_nothing (b ∷ before) = ap (λ l. b ∷ l) (append_nothing before)

    plan_from-serves :
        (rows : List Row) (idx : ℕ) (before : List (Option (Got F)))
        → length before ≡ idx
        → filled (plan_from c z kc nonce idx rows) before
          ≡ before ++ map (served_row read nonce) rows
    unfolding plan_from fill
    plan_from-serves [] idx before e = refl
    plan_from-serves ((k, item) ∷ rows) idx before e =
        ap
          (λ i.
            filled (add i k (choose c z kc nonce item) (plan_from c z kc nonce (idx + 1) rows))
              before)
          (sym e)
        ∙ add-serves k (choose c z kc nonce item) (plan_from c z kc nonce (idx + 1) rows) before
            (map (served_row read nonce) rows)
            (λ x.
              plan_from-serves rows (idx + 1) (before ++ x ∷ [])
                (omega (arith, length-append before (x ∷ []), e)))

  -- GetMulti of the cache answers each key as follows, whatever the nonce: where the item of memcache is
  -- marked as data, with the entity that its value decodes to, or with no entity where the value is empty;
  -- and with what the datastore has where there is no such item, or its value does not decode.
  pub make_fetch_plan-serves :
      {F : Type 0} (read : Key → Got F) (nonce : Bytes) (rows : List Row)
      → let p = make_fetch_plan c z kc nonce rows in
        fill p.idx_map (map read p.to_get) (map answer_of p.decoded) ≡ map (expected read) rows
  unfolding make_fetch_plan
  make_fetch_plan-serves read nonce rows =
      plan_from-serves read nonce rows 0 [] refl ∙ map-expected read nonce rows

  -- The item of a row holds the lock of this very call.
  abbrev pub Held : Bytes → List Row → Item → Type 0
  Held nonce [] item = ⊥
  Held nonce ((k, o) ∷ rows) item =
      ((o ≡ some item)
        × ((item.flags == item_has_lock) ≡ true)
        × (same_bytes nonce item.value ≡ true))
      ⊎ Held nonce rows item

  abbrev SaveHeld : Bytes → List Row → Option Item → Type 0
  SaveHeld nonce rows none = Unit
  SaveHeld nonce rows (some item) = Held nonce rows item

  -- To be fetched and saved is only an item with the lock.
  choose-Held :
      (nonce : Bytes) (k : Key) (o save : Option Item) (rows : List Row)
      → choose c z kc nonce o ≡ fetch save
      → SaveHeld nonce ((k, o) ∷ rows) save
  unfolding choose
  choose-Held nonce k o none rows e = tt
  choose-Held nonce k none (some item) rows e = absurd (cc)
  choose-Held nonce k (some i) (some item) rows e = inl (ground (arith, e))

  more-Held :
      (nonce : Bytes) (row : Row) (rows : List Row) (saves : List (Option Item))
      → All (SaveHeld nonce rows) saves
      → All (SaveHeld nonce (row ∷ rows)) saves
  more-Held nonce row rows [] h = tt
  more-Held nonce (k, o) rows (none ∷ saves) h = (tt, more-Held nonce (k, o) rows saves h.1)
  more-Held nonce (k, o) rows (some item ∷ saves) h =
      (inr h.0, more-Held nonce (k, o) rows saves h.1)

  plan_from-Held :
      (nonce : Bytes) (idx : ℕ) (rows : List Row)
      → All (SaveHeld nonce rows) (plan_from c z kc nonce idx rows).to_save
  unfolding plan_from
  plan_from-Held nonce idx [] = tt
  plan_from-Held nonce idx ((k, o) ∷ rows) = of (choose c z kc nonce o) refl (
      more-Held nonce (k, o) rows (plan_from c z kc nonce (idx + 1) rows).to_save
        (plan_from-Held nonce (idx + 1) rows))
    where
      of :
          (ch : Choice)
          → choose c z kc nonce o ≡ ch
          → All (SaveHeld nonce ((k, o) ∷ rows)) (plan_from c z kc nonce (idx + 1) rows).to_save
          → All
              (SaveHeld nonce ((k, o) ∷ rows))
              (add idx k ch (plan_from c z kc nonce (idx + 1) rows)).to_save
      of (fetch save) e h = (choose-Held nonce k o save rows e, h)
      of (decoded pm) e h = h
      of no_entity e h = h

  -- An item to be saved is that of a row that holds the lock, with a new value.
  abbrev pub Saves : Bytes → List Row → Item → Type 0
  Saves nonce rows item =
      (old : Item) × Held nonce rows old × (item.key ≡ old.key) × (item.cas_id ≡ old.cas_id)

  saved-Saves :
      (nonce : Bytes) (rows : List Row) (item : Item) (e : ℤ) (bytes : Bytes)
      → Held nonce rows item
      → Saves nonce rows (saved c z kc item e bytes)
  saved-Saves nonce rows item e bytes h = elim (Bool-cases (ltb value_size_limit (length bytes))) [
    | inl b ↦ rw b (item, h, refl, refl)
    | inr b ↦ rw b (item, h, refl, refl)
  ]

  to_cas-Saves :
      {F : Type 0} (nonce : Bytes) (rows : List Row) (saves : List (Option Item)) (es : List ℤ)
      (gs : List (Got F))
      → All (SaveHeld nonce rows) saves
      → All (Saves nonce rows) (to_cas c z kc saves es gs)
  unfolding to_cas
  to_cas-Saves nonce rows [] es gs h = tt
  to_cas-Saves nonce rows (o ∷ saves) [] gs h = tt
  to_cas-Saves nonce rows (o ∷ saves) (e ∷ es) [] h = tt
  to_cas-Saves nonce rows (none ∷ saves) (e ∷ es) (g ∷ gs) h =
      to_cas-Saves nonce rows saves es gs h.1
  to_cas-Saves nonce rows (some item ∷ saves) (e ∷ es) (got pm ∷ gs) h = (
    saved-Saves nonce rows item e (encode_item_value c z pm) h.0,
    to_cas-Saves nonce rows saves es gs h.1,
  )
  to_cas-Saves nonce rows (some item ∷ saves) (e ∷ es) (no_such_entity ∷ gs) h =
      (saved-Saves nonce rows item e [] h.0, to_cas-Saves nonce rows saves es gs h.1)
  to_cas-Saves nonce rows (some item ∷ saves) (e ∷ es) (failed x ∷ gs) h =
      to_cas-Saves nonce rows saves es gs h.1

  -- GetMulti of the cache saves only under the CAS IDs of items that held the lock with the nonce of this
  -- very call, whatever the datastore answered: never over a lock of another, and never over data.
  pub make_fetch_plan-Saves :
      {F : Type 0} (nonce : Bytes) (rows : List Row) (es : List ℤ) (gs : List (Got F))
      → All (Saves nonce rows) (to_cas c z kc (make_fetch_plan c z kc nonce rows).to_save es gs)
  unfolding make_fetch_plan
  make_fetch_plan-Saves nonce rows es gs =
      to_cas-Saves nonce rows (plan_from c z kc nonce 0 rows).to_save es gs
        (plan_from-Held nonce 0 rows)
