-- ===== src/Datastore/Query/Finalize.antt =====
-- service/datastore/query.go: `Finalize`, which checks a query and computes its sort orders.
pub mod Orders
pub mod Checks
use gae.Prelude.{
  lookup, ◌==◌, Ordering, Bool, true, false, not, ◌&&◌, ◌||◌, Option, none, some, List, [], ◌∷◌,
  ◌++◌, length, ltb, if◌then◌else◌, ℤ, Bytes, same_bytes, any, cmp_bytes, is_lt,
}
use gae.Datastore.Property.{Value}
use gae.Datastore.KeyProperty.{Property, less, equal}
use gae.Datastore.Key.{Key, has_ancestor}
use gae.Datastore.IndexColumn.{IndexColumn}
use gae.Datastore.Query.{
  Query, QueryError, null_query, kindless_filter, kindless_equality, kindless_order,
  project_keys_only, first_order_mismatch, key_not_descendant, project_equality, key_field,
  ancestor_field, Filters,
}

pub record FinalizedQuery : Type 0 where
  pub kind : Bytes
  pub keys_only : Bool
  pub eventually_consistent : Bool
  pub distinct : Bool
  pub limit : Option ℤ
  pub offset : Option ℤ
  pub start : Option Bytes
  pub end : Option Bytes
  pub project : List Bytes
  pub orders : List IndexColumn
  pub eq_filts : Filters
  pub ineq_filt_prop : Bytes
  pub ineq_filt_low : Property
  pub ineq_filt_low_incl : Bool
  pub ineq_filt_low_set : Bool
  pub ineq_filt_high : Property
  pub ineq_filt_high_incl : Bool
  pub ineq_filt_high_set : Bool

pub data Finalized : Type 0 where
  ok : FinalizedQuery → Finalized
  err : QueryError → Finalized

abbrev pub is_some : {A : Type 0} → Option A → Bool
is_some none = false
is_some (some a) = true

-- The conversion to a key of a value that is one: `Ancestor` and `ineqOK` see to that.
abbrev pub key_of : Property → Option Key
key_of p = elim p.value [ Value.key k ↦ some k | _ ↦ none ]

abbrev pub first_key : Option (List Property) → Option Key
first_key (some (p ∷ ps)) = key_of p
first_key _ = none

unfoldable pub ancestor_of : Query → Option Key
ancestor_of q = first_key (lookup ancestor_field q.eq_filts)

abbrev pub is_eq_field : Query → Bytes → Bool
is_eq_field q f = is_some (lookup f q.eq_filts)

abbrev bad_kindless_order : IndexColumn → Bool
bad_kindless_order o = not (same_bytes o.property key_field) || o.descending

unfoldable pub kindless_error : Query → Option QueryError
kindless_error q =
    if not (same_bytes q.kind [])
    then none
    else if not (same_bytes q.ineq_filt_prop []) && not (same_bytes q.ineq_filt_prop key_field)
    then some kindless_filter
    else if ltb (if is_some (ancestor_of q) then 1 else 0) (length q.eq_filts)
    then some kindless_equality
    else if any bad_kindless_order q.order
    then some kindless_order
    else none

abbrev pub first_order_is : Bytes → List IndexColumn → Bool
first_order_is f [] = true
first_order_is f (o ∷ os) = same_bytes o.property f

-- No value is above the lower bound and below the upper one.
unfoldable pub no_room : Query → Bool
no_room q =
    q.ineq_filt_low_set
    && q.ineq_filt_high_set
    && (less q.ineq_filt_high q.ineq_filt_low
        || (equal q.ineq_filt_high q.ineq_filt_low
            && (not q.ineq_filt_low_incl || not q.ineq_filt_high_incl)))

-- The bound is a key that is no descendant of the ancestor.
unfoldable pub outside : Option Key → Property → Bool
outside none p = false
outside (some a) p = elim (key_of p) [ none ↦ false | some k ↦ not (has_ancestor k a) ]

unfoldable pub ineq_check : Query → Option QueryError
ineq_check q =
    if same_bytes q.ineq_filt_prop []
    then none
    else if not (first_order_is q.ineq_filt_prop q.order)
    then some first_order_mismatch
    else if no_room q
    then some null_query
    else if same_bytes q.ineq_filt_prop key_field
        && ((q.ineq_filt_low_set && outside (ancestor_of q) q.ineq_filt_low)
            || (q.ineq_filt_high_set && outside (ancestor_of q) q.ineq_filt_high))
    then some key_not_descendant
    else none

abbrev pub names : Option (List Bytes) → List Bytes
names none = []
names (some fs) = fs

-- The checks of `finalizeImpl`, in turn.
unfoldable pub finalize_error : Query → Option QueryError
finalize_error q = elim (kindless_error q) [
  | some e ↦ some e
  | none ↦
      if q.keys_only && ltb 0 (length (names q.project))
      then some project_keys_only
      else elim (ineq_check q) [
        | some e ↦ some e
        | none ↦ if any (is_eq_field q) (names q.project) then some project_equality else none
      ]
]

-- `sort.Strings`
insert_sorted : Bytes → List Bytes → List Bytes
insert_sorted x [] = x ∷ []
insert_sorted x (y ∷ ys) =
    let rest = insert_sorted x ys in if is_lt (cmp_bytes y x) then y ∷ rest else x ∷ y ∷ ys

unfoldable pub sort_strings : List Bytes → List Bytes
unfolding insert_sorted
sort_strings [] = []
sort_strings (x ∷ xs) = insert_sorted x (sort_strings xs)

unfoldable pub is_distinct : Query → Bool
is_distinct q = elim q.project [ none ↦ false | some fs ↦ q.distinct && ltb 0 (length fs) ]

-- The projection, with the inequality field in front if a distinct query needs it.
unfoldable pub projection : Query → List Bytes
projection q =
    let fs = names q.project in
    if is_distinct q
      && not (same_bytes q.ineq_filt_prop [])
      && not (any (same_bytes q.ineq_filt_prop) fs)
    then q.ineq_filt_prop ∷ fs
    else fs

abbrev pub ascending : Bytes → IndexColumn
ascending f = record { property = f; descending = false }

-- The orders of the query that are kept: on no equality field, and the first on their field. `seen`
-- is the set `seenOrders`.
unfoldable pub kept_orders : Query → List Bytes → List IndexColumn → List IndexColumn
kept_orders q seen [] = []
kept_orders q seen (o ∷ os) =
    let dropped = kept_orders q seen os in
    let kept = o ∷ kept_orders q (o.property ∷ seen) os in
    if is_eq_field q o.property
    then dropped
    else if any (same_bytes o.property) seen
    then dropped
    else kept

-- `seenOrders` after the loop.
unfoldable pub seen_after : Query → List Bytes → List IndexColumn → List Bytes
seen_after q seen [] = seen
seen_after q seen (o ∷ os) =
    let same = seen_after q seen os in
    let more = seen_after q (o.property ∷ seen) os in
    if is_eq_field q o.property
    then same
    else if any (same_bytes o.property) seen
    then same
    else more

unfoldable pub projected_orders : List Bytes → List Bytes → List IndexColumn
projected_orders seen [] = []
projected_orders seen (p ∷ ps) =
    let rest = projected_orders seen ps in
    if not (any (same_bytes p) seen) then ascending p ∷ rest else rest

-- The order on the inequality field that a query without orders gets.
unfoldable pub implied_orders : Query → List IndexColumn
implied_orders q = elim q.order [
  | [] ↦ if not (same_bytes q.ineq_filt_prop []) then ascending q.ineq_filt_prop ∷ [] else []
  | o ∷ os ↦ []
]

unfoldable pub implied_seen : Query → List Bytes
implied_seen q = elim q.order [
  | [] ↦ if not (same_bytes q.ineq_filt_prop []) then q.ineq_filt_prop ∷ [] else []
  | o ∷ os ↦ []
]

-- The orders before `__key__` is added at the end.
unfoldable pub explicit_orders : Query → List IndexColumn
explicit_orders q =
    (implied_orders q ++ kept_orders q (implied_seen q) q.order)
    ++ projected_orders (seen_after q (implied_seen q) q.order) (sort_strings (projection q))

abbrev pub ends_in_key : List IndexColumn → Bool
ends_in_key [] = false
ends_in_key (o ∷ []) = same_bytes o.property key_field
ends_in_key (o ∷ p ∷ os) = ends_in_key (p ∷ os)

unfoldable pub with_key : List IndexColumn → List IndexColumn
with_key os = if not (ends_in_key os) then os ++ ascending key_field ∷ [] else os

unfoldable pub finalize_impl : Query → Finalized
finalize_impl q = elim (finalize_error q) [
  | some e ↦ err e
  | none ↦ ok (record {
    kind = q.kind;
    keys_only = q.keys_only;
    eventually_consistent = q.eventual_consistency || not (is_some (ancestor_of q));
    distinct = is_distinct q;
    limit = q.limit;
    offset = if is_some q.start then none else q.offset;
    start = q.start;
    end = q.end;
    project = sort_strings (projection q);
    orders = with_key (explicit_orders q);
    eq_filts = q.eq_filts;
    ineq_filt_prop = q.ineq_filt_prop;
    ineq_filt_low = q.ineq_filt_low;
    ineq_filt_low_incl = q.ineq_filt_low_incl;
    ineq_filt_low_set = q.ineq_filt_low_set;
    ineq_filt_high = q.ineq_filt_high;
    ineq_filt_high_incl = q.ineq_filt_high_incl;
    ineq_filt_high_set = q.ineq_filt_high_set;
  })
]

-- `Finalize` keeps its result in the query, which never changes it: here it is computed anew.
unfoldable pub finalize : Query → Finalized
finalize q = elim q.err [ some e ↦ err e | none ↦ finalize_impl q ]
