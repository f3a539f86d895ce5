-- ===== src/Datastore/Query/Filter/Bounds.antt =====
-- What the inequality filters of a query mean: each method narrows the range of the query by its
-- own comparison, whichever bound was there before.
use gae.Prelude.{
  Ordering, ◌≡◌, refl, Bool, true, false, not, ◌&&◌, ◌||◌, none, some, arith, if◌then◌else◌, Bytes,
  is_lt, is_eq, eq_right,
}
use gae.Datastore.Property.{Input, ok, set_value, less_with, equal_with}
use gae.Datastore.KeyProperty.{
  Property, less, equal, compare_property, compare_property-IsOrder, IsIndexable,
}
use gae.Datastore.Key.{Key}
use gae.Datastore.Query.{Query, mod_query, set_err}
use gae.Datastore.Query.Filter.{
  lt, lte, gt, gte, lt_property, lte_property, gt_property, gte_property, set_high, set_low,
  ineq_error,
}

abbrev pub below_high : Query → Property → Bool
below_high q v =
    not q.ineq_filt_high_set
    || less v q.ineq_filt_high
    || (q.ineq_filt_high_incl && equal v q.ineq_filt_high)

abbrev pub above_low : Query → Property → Bool
above_low q v =
    not q.ineq_filt_low_set
    || less q.ineq_filt_low v
    || (q.ineq_filt_low_incl && equal v q.ineq_filt_low)

-- The value passes the inequality filters of the query.
unfoldable pub in_range : Query → Property → Bool
in_range q v = above_low q v && below_high q v

-- The bounds can be compared with the other values.
pub record IsBounded (q : Query) : Type 0 where
  pub low : IsIndexable q.ineq_filt_low
  pub high : IsIndexable q.ineq_filt_high

pub less-cmp : (p v : Property) → less p v ≡ is_lt (compare_property p v)
unfolding less less_with compare_property
less-cmp p v = refl

pub equal-cmp : (p v : Property) → equal p v ≡ is_eq (compare_property p v)
unfolding equal equal_with compare_property
equal-cmp p v = refl

-- How `v` stands to `p` follows from how it stands to `h`, and `h` to `p`.
module _ (v p h : Property) (iv : IsIndexable v) (ip : IsIndexable p) (ih : IsIndexable h) where
  open compare_property-IsOrder use {swapped, eq_left, lt_trans}

  below_below :
      compare_property h p ≡ Ordering.lt
      → compare_property v h ≡ Ordering.lt
      → compare_property v p ≡ Ordering.lt
  below_below c b = lt_trans v h p iv ih ip b c

  same_left : compare_property v h ≡ Ordering.eq → compare_property v p ≡ compare_property h p
  same_left b = eq_left v h p iv ih ip b

  same_right : compare_property h p ≡ Ordering.eq → compare_property v h ≡ compare_property v p
  same_right c = eq_right compare_property-IsOrder v h p iv ih ip c

  above_below :
      compare_property h p ≡ Ordering.gt
      → compare_property v p ≡ Ordering.lt
      → compare_property v h ≡ Ordering.lt
  above_below c a = lt_trans v p h iv ip ih a (ground (arith, swapped h p ih ip))

  above_same :
      compare_property h p ≡ Ordering.gt
      → compare_property v p ≡ Ordering.eq
      → compare_property v h ≡ Ordering.lt
  above_same c a = ground (arith, swapped h p ih ip, eq_left v p h iv ip ih a)

-- The range after `set_high` or `set_low` has accepted the filter.
module _ (q : Query) (field : Bytes) (p v : Property) (b : IsBounded q) (ip : IsIndexable p)
    (iv : IsIndexable v) where
  lt-range :
      (lt_property field p q).err ≡ none
      → in_range (lt_property field p q) v ≡ (in_range q v && less v p)
  unfolding lt_property set_high in_range
  lt-range e = ground (
    arith,
    less-cmp q.ineq_filt_high p,
    less-cmp v q.ineq_filt_high,
    equal-cmp q.ineq_filt_high p,
    equal-cmp v q.ineq_filt_high,
    less-cmp v p,
    equal-cmp v p,
    below_below v p q.ineq_filt_high iv ip b.high,
    same_left v p q.ineq_filt_high iv ip b.high,
    same_right v p q.ineq_filt_high iv ip b.high,
    above_below v p q.ineq_filt_high iv ip b.high,
    above_same v p q.ineq_filt_high iv ip b.high,
  )

  lte-range :
      (lte_property field p q).err ≡ none
      → in_range (lte_property field p q) v ≡ (in_range q v && (less v p || equal v p))
  unfolding lte_property set_high in_range
  lte-range e = ground (
    arith,
    less-cmp q.ineq_filt_high p,
    less-cmp v q.ineq_filt_high,
    equal-cmp q.ineq_filt_high p,
    equal-cmp v q.ineq_filt_high,
    less-cmp v p,
    equal-cmp v p,
    below_below v p q.ineq_filt_high iv ip b.high,
    same_left v p q.ineq_filt_high iv ip b.high,
    same_right v p q.ineq_filt_high iv ip b.high,
    above_below v p q.ineq_filt_high iv ip b.high,
    above_same v p q.ineq_filt_high iv ip b.high,
  )

  gt-range :
      (gt_property field p q).err ≡ none
      → in_range (gt_property field p q) v ≡ (in_range q v && less p v)
  unfolding gt_property set_low in_range
  gt-range e = ground (
    arith,
    less-cmp p q.ineq_filt_low,
    less-cmp q.ineq_filt_low v,
    equal-cmp p q.ineq_filt_low,
    equal-cmp v q.ineq_filt_low,
    compare_property-IsOrder.swapped q.ineq_filt_low v b.low iv,
    compare_property-IsOrder.swapped p v ip iv,
    less-cmp p v,
    equal-cmp v p,
    below_below p v q.ineq_filt_low ip iv b.low,
    same_left p v q.ineq_filt_low ip iv b.low,
    same_right p v q.ineq_filt_low ip iv b.low,
    above_below p v q.ineq_filt_low ip iv b.low,
    above_same p v q.ineq_filt_low ip iv b.low,
  )

  gte-range :
      (gte_property field p q).err ≡ none
      → in_range (gte_property field p q) v ≡ (in_range q v && (less p v || equal v p))
  unfolding gte_property set_low in_range
  gte-range e = ground (
    arith,
    less-cmp p q.ineq_filt_low,
    less-cmp q.ineq_filt_low v,
    equal-cmp p q.ineq_filt_low,
    equal-cmp v q.ineq_filt_low,
    compare_property-IsOrder.swapped q.ineq_filt_low v b.low iv,
    compare_property-IsOrder.swapped p v ip iv,
    less-cmp p v,
    equal-cmp v p,
    below_below p v q.ineq_filt_low ip iv b.low,
    same_left p v q.ineq_filt_low ip iv b.low,
    same_right p v q.ineq_filt_low ip iv b.low,
    above_below p v q.ineq_filt_low ip iv b.low,
    above_same p v q.ineq_filt_low ip iv b.low,
  )

-- The four inequality methods, and the comparison that each is named for.
pub data Method : Type 0 where
  is_below is_at_most is_above is_at_least : Method

abbrev pub restrict : Method → Bytes → Input Key → Query → Query
restrict is_below = lt
restrict is_at_most = lte
restrict is_above = gt
restrict is_at_least = gte

abbrev pub passes : Method → Property → Property → Bool
passes is_below v p = less v p
passes is_at_most v p = less v p || equal v p
passes is_above v p = less p v
passes is_at_least v p = less p v || equal v p

-- The bounds that are set are on the field.
pub record IsOn (field : Bytes) (q : Query) : Type 0 where
  pub low_on : q.ineq_filt_low_set ≡ true → q.ineq_filt_prop ≡ field
  pub high_on : q.ineq_filt_high_set ≡ true → q.ineq_filt_prop ≡ field

-- The field of the inequality filters of the new query.
module _ (q : Query) (field : Bytes) (p : Property) (on : IsOn field q) where
  lt-field : (lt_property field p q).err ≡ none → (lt_property field p q).ineq_filt_prop ≡ field
  unfolding lt_property set_high
  lt-field e = ground (arith, on.high_on)

  lte-field : (lte_property field p q).err ≡ none → (lte_property field p q).ineq_filt_prop ≡ field
  unfolding lte_property set_high
  lte-field e = ground (arith, on.high_on)

  gt-field : (gt_property field p q).err ≡ none → (gt_property field p q).ineq_filt_prop ≡ field
  unfolding gt_property set_low
  gt-field e = ground (arith, on.low_on)

  gte-field : (gte_property field p q).err ≡ none → (gte_property field p q).ineq_filt_prop ≡ field
  unfolding gte_property set_low
  gte-field e = ground (arith, on.low_on)

-- Adding an inequality filter on a field narrows the range of the query by exactly its own comparison: a
-- value passes the bounds of the new query if and only if it passed those of the old one and stands to
-- the given value as the method says, and the bounds of the new query are on that field. This holds for
-- `Lt`, `Lte`, `Gt` and `Gte`, whether a bound was set before or not, if the bounds that were set are on
-- the same field, `SetValue` accepts the given value, the new query is in no error, and the bounds, the
-- given value and the value tested are ones that the index orders (no NaN, no key with a token that has
-- both IDs).
pub restrict-range :
    (m : Method) (field : Bytes) (i : Input Key) (q : Query) (p v : Property)
    → set_value i false ≡ ok p
    → IsOn field q
    → IsBounded q
    → IsIndexable p
    → IsIndexable v
    → (restrict m field i q).err ≡ none
    → (in_range (restrict m field i q) v ≡ (in_range q v && passes m v p))
      × ((restrict m field i q).ineq_filt_prop ≡ field)
unfolding lt lte gt gte
restrict-range is_below field i q p v a on b ip iv e =
    rw a (lt-range q field p v b ip iv (rw a at e), lt-field q field p on (rw a at e))
restrict-range is_at_most field i q p v a on b ip iv e =
    rw a (lte-range q field p v b ip iv (rw a at e), lte-field q field p on (rw a at e))
restrict-range is_above field i q p v a on b ip iv e =
    rw a (gt-range q field p v b ip iv (rw a at e), gt-field q field p on (rw a at e))
restrict-range is_at_least field i q p v a on b ip iv e =
    rw a (gte-range q field p v b ip iv (rw a at e), gte-field q field p on (rw a at e))

pick : (b : Bool) {x y : Query} → IsBounded x → IsBounded y → IsBounded (if b then x else y)
pick true p q = p
pick false p q = q

modified :
    (cb : Query → Query) (q : Query) → IsBounded q → IsBounded (cb q) → IsBounded (mod_query cb q)
modified cb q p r = elim q.err as (λ o. IsBounded (elim o [ none ↦ cb q | some e ↦ q ])) [
  | none ↦ r
  | some e ↦ p
]

module _ (field : Bytes) (p : Property) (incl : Bool) (q : Query) (b : IsBounded q)
    (ip : IsIndexable p) where
  set_high-IsBounded : IsBounded (set_high field p incl q)
  unfolding set_high
  set_high-IsBounded =
      elim (ineq_error field p q)
        as (λ o. IsBounded (elim o [
          | some e ↦ set_err e q
          | none ↦ record q {
            ineq_filt_prop = field;
            ineq_filt_high_set = true;
            ineq_filt_high = p;
            ineq_filt_high_incl = incl;
          }
        ])) [
          | some e ↦ record { low = b.low; high = b.high }
          | none ↦ record { low = b.low; high = ip }
        ]

  set_low-IsBounded : IsBounded (set_low field p incl q)
  unfolding set_low
  set_low-IsBounded =
      elim (ineq_error field p q)
        as (λ o. IsBounded (elim o [
          | some e ↦ set_err e q
          | none ↦ record q {
            ineq_filt_prop = field;
            ineq_filt_low_set = true;
            ineq_filt_low = p;
            ineq_filt_low_incl = incl;
          }
        ])) [
          | some e ↦ record { low = b.low; high = b.high }
          | none ↦ record { low = ip; high = b.high }
        ]

-- The bounds of the new query are ones that the index orders too.
pub restrict-IsBounded :
    (m : Method) (field : Bytes) (i : Input Key) (q : Query) (p : Property)
    → set_value i false ≡ ok p
    → IsBounded q
    → IsIndexable p
    → IsBounded (restrict m field i q)
unfolding lt lte gt gte lt_property lte_property gt_property gte_property
restrict-IsBounded is_below field i q p a b ip = rw a (
    pick _ b
      (pick _ b (modified (set_high field p false) q b (set_high-IsBounded field p false q b ip))))
restrict-IsBounded is_at_most field i q p a b ip = rw a (
    pick _ b
      (pick _ b (modified (set_high field p true) q b (set_high-IsBounded field p true q b ip))))
restrict-IsBounded is_above field i q p a b ip = rw a (
    pick _ b
      (pick _ b (modified (set_low field p false) q b (set_low-IsBounded field p false q b ip))))
restrict-IsBounded is_at_least field i q p a b ip = rw a (
    pick _ b
      (pick _ b (modified (set_low field p true) q b (set_low-IsBounded field p true q b ip))))
