-- ===== src/Datastore/Query/Finalize/Orders.antt =====
-- The sort orders of a finalized query.
use gae.Prelude.{
  lookup, ◌≡◌, ◌≢◌, refl, ◌∙◌, ap, Bool, true, false, not, ◌&&◌, ◌||◌, none, List, [], ◌∷◌, ◌++◌,
  arith, Bytes, same_bytes, same_bytes_iff, if◌then◌else◌, any, Bool-cases, inl, inr,
}
use gae.Datastore.IndexColumn.{IndexColumn}
use gae.Datastore.Query.{Query, key_field}
use gae.Datastore.Query.Finalize.{
  FinalizedQuery, ok, finalize, finalize_impl, finalize_error, kindless_error, ineq_check,
  ascending, kept_orders, seen_after, projected_orders, implied_orders, implied_seen,
  explicit_orders, with_key, ends_in_key, is_eq_field, is_some, first_order_is, sort_strings,
  projection,
}

last_key :
    (os : List IndexColumn)
    → ends_in_key os ≡ true
    → (front : List IndexColumn) × (o : IndexColumn) × (os ≡ front ++ o ∷ [])
      × (o.property ≡ key_field)
last_key [] h = absurd (cc)
last_key (o ∷ []) h = ([], o, refl, (same_bytes_iff o.property key_field).0 h)
last_key (o ∷ p ∷ os) h =
    let (front, l, e, k) = last_key (p ∷ os) h in (o ∷ front, l, ap (λ r. o ∷ r) e, k)

with_key-ends :
    (os : List IndexColumn)
    → (front : List IndexColumn) × (o : IndexColumn) × (with_key os ≡ front ++ o ∷ [])
      × (o.property ≡ key_field)
unfolding with_key
with_key-ends os = elim (Bool-cases (ends_in_key os)) [
  | inl e ↦ let (front, o, p, k) = last_key os e in (front, o, rw e p, k)
  | inr e ↦ (os, ascending key_field, rw e refl, refl)
]

orders_of :
    (q : Query) (fq : FinalizedQuery)
    → finalize q ≡ ok fq
    → fq.orders ≡ with_key (explicit_orders q)
unfolding finalize finalize_impl
orders_of q fq h = ground (arith, h)

-- The last order of a finalized query is on `__key__`.
pub finalize-ends_in_key :
    (q : Query) (fq : FinalizedQuery)
    → finalize q ≡ ok fq
    → (front : List IndexColumn) × (o : IndexColumn) × (fq.orders ≡ front ++ o ∷ [])
      × (o.property ≡ key_field)
finalize-ends_in_key q fq h = rw (orders_of q fq h) (with_key-ends (explicit_orders q))

first_order :
    (q : Query) (fq : FinalizedQuery)
    → finalize q ≡ ok fq
    → q.ineq_filt_prop ≢ []
    → first_order_is q.ineq_filt_prop q.order ≡ true
unfolding finalize finalize_impl finalize_error kindless_error ineq_check
first_order q fq h n = ground (arith, h, same_bytes_iff q.ineq_filt_prop [])

with_key-cons :
    (o : IndexColumn) (os : List IndexColumn)
    → (rest : List IndexColumn) × (with_key (o ∷ os) ≡ o ∷ rest)
unfolding with_key
with_key-cons o os = elim (Bool-cases (ends_in_key (o ∷ os))) [
  | inl e ↦ (os, rw e refl)
  | inr e ↦ (os ++ ascending key_field ∷ [], rw e refl)
]

-- A first order on this field.
abbrev pub StartsWith : Bytes → List IndexColumn → Type 0
StartsWith f os =
    (d : Bool) × (rest : List IndexColumn) × (os ≡ record { property = f; descending = d } ∷ rest)

explicit-starts :
    (q : Query) (l : List IndexColumn)
    → q.order ≡ l
    → q.ineq_filt_prop ≢ []
    → first_order_is q.ineq_filt_prop l ≡ true
    → is_eq_field q q.ineq_filt_prop ≡ false
    → StartsWith q.ineq_filt_prop (explicit_orders q)
unfolding explicit_orders
explicit-starts q [] e n f g = (
  false,
  kept_orders q (implied_seen q) q.order
      ++ projected_orders (seen_after q (implied_seen q) q.order) (sort_strings (projection q)),
  ap
      (λ i.
        (i ++ kept_orders q (implied_seen q) q.order)
        ++ projected_orders (seen_after q (implied_seen q) q.order) (sort_strings (projection q)))
      implied,
)
  where
    implied : implied_orders q ≡ ascending q.ineq_filt_prop ∷ []
    implied = unfold implied_orders in ground (arith, e, same_bytes_iff q.ineq_filt_prop [])
explicit-starts q (o ∷ os) e n f g = (
  o.descending,
  kept_orders q (o.property ∷ []) os
      ++ projected_orders (seen_after q (implied_seen q) q.order) (sort_strings (projection q)),
  ap
      (λ i.
        i ++ projected_orders (seen_after q (implied_seen q) q.order) (sort_strings (projection q)))
      kept,
)
  where
    none_implied : implied_orders q ≡ []
    none_implied = unfold implied_orders in ground (arith, e)

    none_seen : implied_seen q ≡ []
    none_seen = unfold implied_seen in ground (arith, e)

    same : o.property ≡ q.ineq_filt_prop
    same = (same_bytes_iff o.property q.ineq_filt_prop).0 f

    kept :
        implied_orders q ++ kept_orders q (implied_seen q) q.order
        ≡ record { property = q.ineq_filt_prop; descending = o.descending }
          ∷ kept_orders q (o.property ∷ []) os
    kept = rw (none_implied, none_seen, e) (unfold kept_orders in ground (arith, same, g))

-- A finalized query with an inequality filter orders by the field of the filter first. No equality
-- filter is on that field.
pub finalize-inequality_first :
    (q : Query) (fq : FinalizedQuery)
    → finalize q ≡ ok fq
    → q.ineq_filt_prop ≢ []
    → lookup q.ineq_filt_prop q.eq_filts ≡ none
    → StartsWith q.ineq_filt_prop fq.orders
finalize-inequality_first q fq h n g =
    let (d, rest, e) = explicit-starts q q.order refl n (first_order q fq h n) (ap is_some g) in
    let (more, p) = with_key-cons (record { property = q.ineq_filt_prop; descending = d }) rest in
    (d, more, orders_of q fq h ∙ ap with_key e ∙ p)

-- Some order of the list is on the field.
abbrev pub on_field : Bytes → List IndexColumn → Bool
on_field f = any (λ o. same_bytes f o.property)

-- No two orders are on one field.
abbrev pub Distinct : List IndexColumn → Type 0
Distinct [] = Unit
Distinct (o ∷ os) = (on_field o.property os ≡ false) × Distinct os

same_bytes_refl : (a : Bytes) → same_bytes a a ≡ true
same_bytes_refl a = (same_bytes_iff a a).1 refl

kept-new :
    (q : Query) (f : Bytes) (seen : List Bytes) (os : List IndexColumn)
    → any (same_bytes f) seen ≡ true
    → on_field f (kept_orders q seen os) ≡ false
unfolding kept_orders
kept-new q f seen [] h = refl
kept-new q f seen (o ∷ os) h = ground (
  arith,
  kept-new q f seen os h,
  kept-new q f (o.property ∷ seen) os,
  same_bytes_iff f o.property,
)

Distinct-at :
    (b c : Bool) (dropped kept : List IndexColumn)
    → Distinct dropped
    → Distinct kept
    → Distinct (if b then dropped else if c then dropped else kept)
Distinct-at true c dropped kept d k = d
Distinct-at false true dropped kept d k = d
Distinct-at false false dropped kept d k = k

kept-Distinct :
    (q : Query) (seen : List Bytes) (os : List IndexColumn) → Distinct (kept_orders q seen os)
unfolding kept_orders
kept-Distinct q seen [] = tt
kept-Distinct q seen (o ∷ os) =
    Distinct-at _ _ _ (o ∷ kept_orders q (o.property ∷ seen) os) (kept-Distinct q seen os) (
      kept-new q o.property (o.property ∷ seen) os (ground (arith, same_bytes_refl o.property)),
      kept-Distinct q (o.property ∷ seen) os,
    )

kept_complete :
    (q : Query) (f : Bytes) (seen : List Bytes) (os : List IndexColumn)
    → is_eq_field q f ≡ false
    → (any (same_bytes f) seen || on_field f (kept_orders q seen os))
      ≡ (any (same_bytes f) seen || on_field f os)
unfolding kept_orders
kept_complete q f seen [] h = refl
kept_complete q f seen (o ∷ os) h = ground (
  arith,
  kept_complete q f seen os h,
  kept_complete q f (o.property ∷ seen) os h,
  same_bytes_iff f o.property,
)

kept-free :
    (q : Query) (f : Bytes) (seen : List Bytes) (os : List IndexColumn)
    → is_eq_field q f ≡ true
    → on_field f (kept_orders q seen os) ≡ false
unfolding kept_orders
kept-free q f seen [] h = refl
kept-free q f seen (o ∷ os) h = ground (
  arith,
  kept-free q f seen os h,
  kept-free q f (o.property ∷ seen) os h,
  same_bytes_iff f o.property,
)

-- The orders that a finalized query keeps are on distinct fields, and a field has one exactly if the
-- query orders by it, no equality filter is on it, and it was not seen before.
pub kept_orders-fields :
    (q : Query) (f : Bytes) (seen : List Bytes) (os : List IndexColumn)
    → Distinct (kept_orders q seen os)
      × (on_field f (kept_orders q seen os)
          ≡ (on_field f os && not (is_eq_field q f) && not (any (same_bytes f) seen)))
kept_orders-fields q f seen os = (
  kept-Distinct q seen os,
  ground (arith, kept-new q f seen os, kept_complete q f seen os, kept-free q f seen os),
)
