-- ===== src/Filters/TxnBuf/Roots.antt =====
-- The roots of a buffered transaction: they stay within its limit, and a child's commit fits its parent.
use gae.Prelude.{
  ℕ, suc, ◌+◌, ◌≤◌, ◌<◌, ◌≡◌, ◌≢◌, refl, sym, ◌∙◌, Bool, true, false, not, ◌||◌, none, some, List,
  [], ◌∷◌, ◌++◌, length, length-append, ltb, leb, arith, Bytes, same_bytes, same_bytes_iff,
  if◌then◌else◌, Bool-cases, inl, inr, ◌⊎◌,
}
use gae.Filters.TxnBuf.State.{TxnBufState, has, add, propose, update_roots}

-- A set: no string stands twice.
abbrev pub IsStringset : List Bytes → Type 0
IsStringset [] = Unit
IsStringset (r ∷ rs) = (has r rs ≡ false) × IsStringset rs

-- Every string of the one set is in the other.
abbrev pub Within : List Bytes → List Bytes → Type 0
Within rs qs = (r : Bytes) → has r rs ≡ true → has r qs ≡ true

unfoldable remove : Bytes → List Bytes → List Bytes
remove q [] = []
remove q (r ∷ rs) = if same_bytes q r then rs else r ∷ remove q rs

length-remove :
    (q : Bytes) (rs : List Bytes) → has q rs ≡ true → suc (length (remove q rs)) ≡ length rs
unfolding remove has
length-remove q [] h = absurd (cc)
length-remove q (r ∷ rs) h = ground (arith, h, length-remove q rs)

has-remove :
    (q p : Bytes) (rs : List Bytes)
    → same_bytes p q ≡ false
    → has p rs ≡ true
    → has p (remove q rs) ≡ true
unfolding remove has
has-remove q p [] n h = h
has-remove q p (r ∷ rs) n h = ground (arith, n, h, same_bytes_iff q r, has-remove q p rs n)

has_self : (r : Bytes) (rs : List Bytes) → has r (r ∷ rs) ≡ true
unfolding has
has_self r rs = ground (arith, same_bytes_iff r r)

-- A set within another is not larger.
pub Within-length : (rs qs : List Bytes) → IsStringset rs → Within rs qs → length rs ≤ length qs
unfolding has
Within-length [] qs d w = omega arith
Within-length (r ∷ rs) qs (fresh, d) w =
    let found = w r (has_self r rs) in
    let fewer = Within-length rs (remove r qs) d (λ p h.
      has-remove r p qs (ground (arith, same_bytes_iff p r, h, fresh)) (w p (ground (arith, h)))) in
    omega (arith, fewer, length-remove r qs found)

has-append : (r : Bytes) (rs qs : List Bytes) → has r (rs ++ qs) ≡ (has r rs || has r qs)
unfolding has
has-append r [] qs = refl
has-append r (p ∷ rs) qs = ground (arith, has-append r rs qs)

-- The roots that one more root makes of the proposed ones.
abbrev step : List Bytes → List Bytes → Bytes → List Bytes
step cur proposed r = if not (has r cur) then add r proposed else proposed

step-IsStringset :
    (cur proposed : List Bytes) (r : Bytes)
    → IsStringset (proposed ++ cur)
    → IsStringset (step cur proposed r ++ cur)
unfolding add
step-IsStringset cur proposed r h = elim (Bool-cases (has r cur)) [
  | inl old ↦ rw old h
  | inr new ↦ elim (Bool-cases (has r proposed)) [
    | inl old ↦ rw (new, old) h
    | inr new' ↦ rw (new, new') (has-append r proposed cur ∙ ground (arith, new, new'), h)
  ]
]

-- What is in it afterwards: the root, and what was.
step-has :
    (cur proposed : List Bytes) (r p : Bytes)
    → has p (step cur proposed r ++ cur) ≡ (same_bytes p r || has p (proposed ++ cur))
unfolding add has
step-has cur proposed r p =
    ground (arith, has-append p proposed cur, has-append r proposed cur, same_bytes_iff p r)

module _ (cur : List Bytes) (limit : ℕ) where
  propose-IsStringset :
      (proposed rs : List Bytes)
      → IsStringset (proposed ++ cur)
      → IsStringset (propose cur limit proposed rs ++ cur)
  unfolding propose
  propose-IsStringset proposed [] h = h
  propose-IsStringset proposed (r ∷ rs) h =
      let next = step-IsStringset cur proposed r h in
      elim (Bool-cases (leb (length (step cur proposed r) + length cur) limit)) [
        | inl b ↦ rw b (propose-IsStringset (step cur proposed r) rs next)
        | inr b ↦ rw b next
      ]

  step-Within :
      (proposed rs qs : List Bytes) (r : Bytes)
      → Within (proposed ++ cur) qs
      → Within (r ∷ rs) qs
      → Within (step cur proposed r ++ cur) qs
  unfolding has
  step-Within proposed rs qs r w v p h =
      ground (arith, step-has cur proposed r p, h, w p, v r, same_bytes_iff p r, same_bytes_iff r r)

  propose-Within :
      (proposed rs qs : List Bytes)
      → Within (proposed ++ cur) qs
      → Within rs qs
      → Within (propose cur limit proposed rs ++ cur) qs
  unfolding propose has
  propose-Within proposed [] qs w v = w
  propose-Within proposed (r ∷ rs) qs w v =
      let next = step-Within proposed rs qs r w v in
      elim (Bool-cases (leb (length (step cur proposed r) + length cur) limit)) [
        | inl b ↦
            rw b (propose-Within (step cur proposed r) rs qs next (λ p h. v p (ground (arith, h))))
        | inr b ↦ rw b next
      ]

  -- If the loop does not end early, all is proposed that is new.
  propose-all :
      (proposed rs : List Bytes) (p : Bytes)
      → leb (length (propose cur limit proposed rs) + length cur) limit ≡ true
      → (has p rs || has p (proposed ++ cur)) ≡ true
      → has p (propose cur limit proposed rs ++ cur) ≡ true
  unfolding propose has
  propose-all proposed [] p l h = h
  propose-all proposed (r ∷ rs) p l h =
      elim (Bool-cases (leb (length (step cur proposed r) + length cur) limit)) [
        | inl b ↦ rw b (
            propose-all (step cur proposed r) rs p (ground (arith, l, b))
              (ground (arith, step-has cur proposed r p, h)))
        | inr b ↦ absurd (ground (arith, l, b))
      ]

-- The roots that `updateRootsLocked` proposes.
abbrev proposed_roots : List Bytes → TxnBufState → List Bytes
proposed_roots rs t = propose t.roots t.root_limit [] rs

-- It takes them if there are not too many.
update_roots-cases :
    (rs : List Bytes) (t : TxnBufState)
    → let all = proposed_roots rs t ++ t.roots in
      ((update_roots rs t ≡ none) × (t.root_limit < length all))
      ⊎ ((update_roots rs t ≡ some (record t { roots = all })) × (length all ≤ t.root_limit))
unfolding update_roots
update_roots-cases rs t =
    let new = proposed_roots rs t in
    let sum = length-append new t.roots in
    elim (Bool-cases (ltb t.root_limit (length new + length t.roots))) [
      | inl b ↦ rw b (inl (refl, ground (arith, b, sum)))
      | inr b ↦ rw b (inr (refl, ground (arith, b, sum)))
    ]

same_has : (a b : Bool) → (a ≡ true → b ≡ true) → (b ≡ true → a ≡ true) → a ≡ b
same_has true b f g = sym (f refl)
same_has false true f g = g refl
same_has false false f g = refl

pub record IsUpdated (rs : List Bytes) (t t' : TxnBufState) : Type 0 where
  pub is_stringset : IsStringset t'.roots
  pub in_limit : length t'.roots ≤ t'.root_limit
  pub same_limit : t'.root_limit ≡ t.root_limit
  pub all_roots : (r : Bytes) → has r t'.roots ≡ (has r rs || has r t.roots)

-- When `updateRootsLocked` takes roots, the transaction has these and those that it had, each once, and
-- they are within its limit, which stays; the roots that it had are each there once.
pub update_roots-IsUpdated :
    (rs : List Bytes) (t t' : TxnBufState)
    → IsStringset t.roots
    → update_roots rs t ≡ some t'
    → IsUpdated rs t t'
update_roots-IsUpdated rs t t' d e = elim (update_roots-cases rs t) [
  | inl (refused, _) ↦ absurd (cc)
  | inr (taken, l) ↦
      let same : record t { roots = new ++ t.roots } ≡ t' = cc in
      rw (← same) (record {
        is_stringset = propose-IsStringset t.roots t.root_limit [] rs d;
        in_limit = l;
        same_limit = refl;
        all_roots = λ r.
            same_has (has r (new ++ t.roots)) (has r rs || has r t.roots)
              (λ h. sym (has-append r rs t.roots) ∙ within r h)
              (propose-all t.roots t.root_limit [] rs r
                (ground (arith, l, length-append new t.roots)));
      })
]
  where
    new : List Bytes
    new = proposed_roots rs t

    within : Within (new ++ t.roots) (rs ++ t.roots)
    within =
        propose-Within t.roots t.root_limit [] rs (rs ++ t.roots)
          (λ r h. ground (arith, has-append r rs t.roots, h))
          (λ r h. ground (arith, has-append r rs t.roots, h))

-- Roots are not refused if they and those of the transaction are in a set within the limit.
pub update_roots-fits :
    (rs qs : List Bytes) (t : TxnBufState)
    → IsStringset t.roots
    → Within rs qs
    → Within t.roots qs
    → length qs ≤ t.root_limit
    → update_roots rs t ≢ none
update_roots-fits rs qs t d w v l e =
    let fewer =
      Within-length (proposed_roots rs t ++ t.roots) qs
        (propose-IsStringset t.roots t.root_limit [] rs d)
        (propose-Within t.roots t.root_limit [] rs qs v w) in
    elim (update_roots-cases rs t) [
      | inl (refused, more) ↦ omega (arith, fewer, more, l)
      | inr (taken, _) ↦ absurd (cc)
    ]
