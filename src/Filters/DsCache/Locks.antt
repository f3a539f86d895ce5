-- ===== src/Filters/DsCache/Locks.antt =====
-- The locks of a transaction: every shard of every key that is changed is locked, once.
use gae.Prelude.{
  ℕ, zero, suc, ◌+◌, ◌≤◌, ◌<◌, ◌⊎◌, ◌↔◌, ◌≡◌, refl, sym, ap, ◌∙◌, Bool, true, false, not, ◌||◌,
  Option, none, some, List, [], ◌∷◌, ◌++◌, length, length-append, arith, pos, negsuc, ltb_ℤ,
  pos_part, ℤ, Bytes, same_bytes, same_bytes_iff, if◌then◌else◌, Bool-cases, inl, inr,
}
use gae.Datastore.Key.{Key, is_incomplete}
use gae.Filters.DsCache.{
  mk_all_keys, make_memcache_key, shard_keys, apply_shards, num_shards, max_shards, DsTxnState,
  has_key, add_keys, add,
}

module _ (hash : Key → Bytes) (hex : ℕ → Bytes) (fns : List (Key → Option ℤ)) where
  abbrev State : Type 0
  State = DsTxnState hash hex fns

  has_key-append :
      (p : Bytes) (ks js : List Bytes)
      → has_key hash hex fns p (ks ++ js) ≡ (has_key hash hex fns p ks || has_key hash hex fns p js)
  has_key-append p [] js = refl
  has_key-append p (k ∷ ks) js = ground (arith, has_key-append p ks js)

  abbrev pub IsOnce : List Bytes → Type 0
  IsOnce [] = Unit
  IsOnce (k ∷ ks) = (has_key hash hex fns k ks ≡ false) × IsOnce ks

  -- The keys to delete stand once, and the items to lock are theirs, as many.
  pub record IsLocking (s : State) : Type 0 where
    pub once : IsOnce s.to_delete
    pub same_keys :
        (p : Bytes) → has_key hash hex fns p s.to_lock ≡ has_key hash hex fns p s.to_delete
    pub same_count : length s.to_lock ≡ length s.to_delete

  abbrev added : Bytes → State → State
  added k s =
      if not (has_key hash hex fns k s.to_delete)
      then record { to_lock = s.to_lock ++ k ∷ []; to_delete = k ∷ s.to_delete }
      else s

  abbrev Locks : (Bytes → Bool) → State → State → Type 0
  Locks new s s' =
      IsLocking s'
      × ((p : Bytes)
          → has_key hash hex fns p s'.to_lock ≡ (new p || has_key hash hex fns p s.to_lock))

  added-Locks : (k : Bytes) (s : State) → IsLocking s → Locks (λ p. same_bytes p k) s (added k s)
  added-Locks k s w = elim (Bool-cases (has_key hash hex fns k s.to_delete)) [
    | inl old ↦
        rw old (w, λ p. ground (arith, same_bytes_iff p k, old, w.same_keys k, w.same_keys p))
    | inr new ↦ rw new (
      record {
        once = (new, w.once);
        same_keys = λ p. ground (arith, has_key-append p s.to_lock (k ∷ []), w.same_keys p);
        same_count = omega (arith, length-append s.to_lock (k ∷ []), w.same_count);
      },
      λ p. ground (arith, has_key-append p s.to_lock (k ∷ [])),
    )
  ]

  add_keys-Locks :
      (ks : List Bytes) (s : State)
      → IsLocking s
      → Locks (λ p. has_key hash hex fns p ks) s (add_keys hash hex fns ks s)
  unfolding add_keys
  add_keys-Locks [] s w = (w, λ p. refl)
  add_keys-Locks (k ∷ ks) s w =
      let (w', has') = added-Locks k s w in
      let (w'', has'') = add_keys-Locks ks (added k s) w' in
      (w'', λ p. ground (arith, has' p, has'' p))

  abbrev pub or_known : Option ℤ → Option ℤ → Option ℤ
  or_known o none = o
  or_known o (some n) = some n

  abbrev pub or_amount : ℤ → Option ℤ → ℤ
  or_amount n none = n
  or_amount n (some m) = m

  -- What the last of the functions that know a key says of it.
  abbrev pub last_amount : List (Key → Option ℤ) → Key → Option ℤ
  last_amount [] k = none
  last_amount (f ∷ fs) k = or_known (f k) (last_amount fs k)

  -- The number of shards that a key wants: 1 where no function knows the key.
  abbrev pub amount : Key → ℤ
  amount k = or_amount (pos 1) (last_amount fns k)

  -- The bytes are the key of memcache of a shard of one of the keys, which is complete: of a shard whose
  -- number is below the amount that the key wants, and below 256.
  abbrev pub IsShardOf : Bytes → List Key → Type 0
  IsShardOf p [] = ⊥
  IsShardOf p (k ∷ ks) =
      ((is_incomplete k ≡ false)
        × ((i : ℕ) × (ltb_ℤ (pos i) (amount k) ≡ true)
            × (i < 256)
            × (p ≡ make_memcache_key hash hex fns i k)))
      ⊎ IsShardOf p ks

  amount-apply :
      (fs : List (Key → Option ℤ)) (k : Key) (n : ℤ)
      → apply_shards fs k n ≡ or_amount n (last_amount fs k)
  amount-apply [] k n = refl
  amount-apply (f ∷ fs) k n =
      first n (f k) ∙ amount-apply fs k (or_amount n (f k)) ∙ of (last_amount fs k) (f k)
    where
      first :
          (n : ℤ) (o : Option ℤ)
          → apply_shards fs k (elim o [ none ↦ n | some amt ↦ amt ])
            ≡ apply_shards fs k (or_amount n o)
      first n none = refl
      first n (some m) = refl

      of : (o q : Option ℤ) → or_amount (or_amount n q) o ≡ or_amount n (or_known q o)
      of none none = refl
      of none (some m) = refl
      of (some m) q = refl

  below-num_shards :
      (k : Key) (i : ℕ) → (i < num_shards fns k) ↔ ((ltb_ℤ (pos i) (amount k) ≡ true) × (i < 256))
  unfolding num_shards
  below-num_shards k i = rw (amount-apply fns k (pos 1)) (of (amount k))
    where
      of :
          (r : ℤ)
          → (i < (
              if ltb_ℤ r (pos 1)
              then 0
              else if ltb_ℤ (pos max_shards) r
              then max_shards
              else pos_part r))
            ↔ ((ltb_ℤ (pos i) r ≡ true) × (i < 256))
      of (pos n) = (λ h. ground (arith, h), λ h. ground (arith, h))
      of (negsuc n) = (λ h. ground (arith, h), λ h. ground (arith, h))

  split_first : (s i : ℕ) → s ≤ i → (s ≡ i) ⊎ (s + 1 ≤ i)
  split_first s i h = ground (arith, h)

  abbrev IsFrom : Bytes → Key → ℕ → ℕ → Type 0
  IsFrom p k shard n =
      (i : ℕ) × (shard ≤ i) × (i < shard + n) × (p ≡ make_memcache_key hash hex fns i k)

  has-shard_keys :
      (p : Bytes) (k : Key) (n shard : ℕ)
      → (has_key hash hex fns p (shard_keys hash hex fns shard n k) ≡ true) ↔ IsFrom p k shard n
  has-shard_keys p k zero shard = (λ h. absurd (cc), λ (i, l, m, e). absurd (omega (arith, l, m)))
  has-shard_keys p k (suc n) shard =
      let again = has-shard_keys p k n (shard + 1) in (to again, from again)
    where
      this : Bytes
      this = make_memcache_key hash hex fns shard k

      more : Bool
      more = has_key hash hex fns p (shard_keys hash hex fns (shard + 1) n k)

      to :
          (more ≡ true) ↔ IsFrom p k (shard + 1) n
          → (if same_bytes p this then true else more) ≡ true
          → IsFrom p k shard (suc n)
      to again h = elim (Bool-cases (same_bytes p this)) [
        | inl b ↦ (shard, omega arith, omega arith, (same_bytes_iff p this).0 b)
        | inr b ↦
            let (i, l, m, e) = again.0 (ground (arith, h, b)) in
            (i, omega (arith, l), omega (arith, m), e)
      ]

      from :
          (more ≡ true) ↔ IsFrom p k (shard + 1) n
          → IsFrom p k shard (suc n)
          → (if same_bytes p this then true else more) ≡ true
      from again (i, l, m, e) = elim (split_first shard i l) [
        | inl s ↦
            rw
              ((same_bytes_iff p this).1 (e ∙ ap (λ j. make_memcache_key hash hex fns j k) (sym s)))
              refl
        | inr s ↦ let later = again.1 (i, s, omega (arith, m), e) in ground (arith, later)
      ]

  has-mk_all_keys :
      (p : Bytes) (keys : List Key)
      → (has_key hash hex fns p (mk_all_keys hash hex fns keys) ≡ true) ↔ IsShardOf p keys
  unfolding mk_all_keys
  has-mk_all_keys p [] = (λ h. absurd (cc), λ h. absurd h)
  has-mk_all_keys p (k ∷ ks) = of (is_incomplete k) refl (has-mk_all_keys p ks)
    where
      shards : List Bytes
      shards = shard_keys hash hex fns 0 (num_shards fns k) k

      rest : Bool
      rest = has_key hash hex fns p (mk_all_keys hash hex fns ks)

      of_shard : is_incomplete k ≡ false → IsFrom p k 0 (num_shards fns k) → IsShardOf p (k ∷ ks)
      of_shard b (i, l, m, e) =
          let (w, x) = (below-num_shards k i).0 (omega (arith, m)) in inl (b, (i, w, x, e))

      to :
          (rest ≡ true) ↔ IsShardOf p ks
          → is_incomplete k ≡ false
          → (has_key hash hex fns p shards || rest) ≡ true
          → IsShardOf p (k ∷ ks)
      to again b h = elim (Bool-cases (has_key hash hex fns p shards)) [
        | inl x ↦ of_shard b ((has-shard_keys p k (num_shards fns k) 0).0 x)
        | inr x ↦ inr (again.0 (ground (arith, h, x)))
      ]

      from :
          (rest ≡ true) ↔ IsShardOf p ks
          → IsShardOf p (k ∷ ks)
          → (has_key hash hex fns p shards || rest) ≡ true
      from again (inl (b, (i, w, x, e))) =
          let m = (below-num_shards k i).1 (w, x) in
          rw ((has-shard_keys p k (num_shards fns k) 0).1 (i, omega arith, omega (arith, m), e))
            refl
      from again (inr x) = let y = again.1 x in ground (arith, y)

      either : Bool → Bool
      either b =
          has_key hash hex fns p
            (if not b then shards ++ mk_all_keys hash hex fns ks else mk_all_keys hash hex fns ks)

      of :
          (b : Bool)
          → is_incomplete k ≡ b
          → (rest ≡ true) ↔ IsShardOf p ks
          → (either b ≡ true) ↔ IsShardOf p (k ∷ ks)
      of true b again =
          (λ h. inr (again.0 h), λ h. elim h [ inl x ↦ absurd (cc (x.0, b)) | inr x ↦ again.1 x ])
      of false b again =
          rw (has_key-append p shards (mk_all_keys hash hex fns ks)) (to again b, from again)

  -- After the transaction's state takes keys, the items to lock are those of before and the keys of
  -- memcache of every shard of the complete ones among them, and no others: as many shards as the last
  -- function that knows the key says, 1 where none does, and 256 at most. The items to lock stay those of
  -- the keys to delete, none twice.
  pub add-Locks :
      (keys : List Key) (s : State)
      → IsLocking s
      → IsLocking (add hash hex fns keys s)
        × ((p : Bytes)
            → (has_key hash hex fns p (add hash hex fns keys s).to_lock ≡ true)
              ↔ (IsShardOf p keys ⊎ (has_key hash hex fns p s.to_lock ≡ true)))
  unfolding add
  add-Locks keys s w =
      let (good, locks) = add_keys-Locks (mk_all_keys hash hex fns keys) s w in
      (good, λ p. rw (locks p) (either p))
    where
      either :
          (p : Bytes)
          → ((has_key hash hex fns p (mk_all_keys hash hex fns keys)
                || has_key hash hex fns p s.to_lock)
              ≡ true)
            ↔ (IsShardOf p keys ⊎ (has_key hash hex fns p s.to_lock ≡ true))
      either p =
          let (to, from) = has-mk_all_keys p keys in
          elim (Bool-cases (has_key hash hex fns p (mk_all_keys hash hex fns keys))) [
            | inl x ↦ rw x (λ h. inl (to x), λ h. refl)
            | inr x ↦ rw x (λ h. inr h, λ h. elim h [ inl y ↦ absurd (cc (from y, x)) | inr y ↦ y ])
          ]
