-- ===== src/Datastore/Query/Filter.antt =====
-- service/datastore/query.go: the equality and inequality filters of a query.
pub mod Bounds
pub mod Equality
pub mod Leftover
use gae.Prelude.{
  lookup, insert, Bool, true, false, not, ◌&&◌, ◌||◌, Option, none, some, List, [], ◌∷◌,
  if◌then◌else◌, Bytes, same_bytes,
}
use gae.Datastore.Property.{
  Value, Input, Checked, ok, err, set_value, property_type_of, rank, pt_key,
}
use gae.Datastore.KeyProperty.{Property, less, equal}
use gae.Datastore.Key.{Key}
use gae.Datastore.Query.{
  Query, QueryError, bad_value, multiple_inequality_filter, key_filter_type, key_field,
  ancestor_field, mod_query, set_err, reserved,
}

-- `sort.Search` for the first element that is not below `p`, and the insertion before it of a `p`
-- that is not there.
unfoldable pub insert_property : Property → List Property → List Property
insert_property p [] = p ∷ []
insert_property p (x ∷ xs) =
    let rest = insert_property p xs in
    if equal x p || less p x then (if equal x p then x ∷ xs else p ∷ x ∷ xs) else x ∷ rest

abbrev pub or_empty : Option (List Property) → List Property
or_empty none = []
or_empty (some s) = s

unfoldable pub slice_of : Bytes → Query → List Property
slice_of field q = or_empty (lookup field q.eq_filts)

-- The loop of `Eq` over the values, with the slice so far.
unfoldable pub eq_loop : Bytes → List (Input Key) → List Property → Query → Query
eq_loop field [] s q = record q { eq_filts = insert field s q.eq_filts }
eq_loop field (v ∷ vs) s q = elim (set_value v false) [
  | err e ↦ set_err (bad_value e) q
  | ok p ↦ eq_loop field vs (insert_property p s) q
]

unfoldable pub eq_reserved : Bytes → List (Input Key) → Query → Query
eq_reserved field values q = elim (reserved field) [
  | some e ↦ set_err e q
  | none ↦ eq_loop field values (slice_of field q) q
]

unfoldable pub eq : Bytes → List (Input Key) → Query → Query
eq field [] q = q
eq field values q = mod_query (eq_reserved field values) q

abbrev is_key : Property → Bool
is_key p = elim (property_type_of p.value) [ pt_key ↦ true | _ ↦ false ]

-- `ineqOK`: the error that it sets, or `none` if the filter is admissible.
unfoldable pub ineq_error : Bytes → Property → Query → Option QueryError
ineq_error field p q = elim (reserved field) [
  | some e ↦ some e
  | none ↦
      if same_bytes field key_field && not (is_key p)
      then some key_filter_type
      else if not (same_bytes q.ineq_filt_prop []) && not (same_bytes q.ineq_filt_prop field)
      then some multiple_inequality_filter
      else none
]

unfoldable pub set_high : Bytes → Property → Bool → Query → Query
set_high field p incl q = elim (ineq_error field p q) [
  | some e ↦ set_err e q
  | none ↦ record q {
    ineq_filt_prop = field;
    ineq_filt_high_set = true;
    ineq_filt_high = p;
    ineq_filt_high_incl = incl;
  }
]

unfoldable pub set_low : Bytes → Property → Bool → Query → Query
set_low field p incl q = elim (ineq_error field p q) [
  | some e ↦ set_err e q
  | none ↦ record q {
    ineq_filt_prop = field;
    ineq_filt_low_set = true;
    ineq_filt_low = p;
    ineq_filt_low_incl = incl;
  }
]

-- The filters on a value that `SetValue` has accepted.
unfoldable pub lt_property : Bytes → Property → Query → Query
lt_property field p q =
    if q.ineq_filt_high_set && less q.ineq_filt_high p
    then q
    else if q.ineq_filt_high_set && (equal q.ineq_filt_high p && not q.ineq_filt_high_incl)
    then q
    else mod_query (set_high field p false) q

unfoldable pub lte_property : Bytes → Property → Query → Query
lte_property field p q =
    if q.ineq_filt_high_set && less q.ineq_filt_high p
    then q
    else if q.ineq_filt_high_set && equal q.ineq_filt_high p
    then q
    else mod_query (set_high field p true) q

unfoldable pub gt_property : Bytes → Property → Query → Query
gt_property field p q =
    if q.ineq_filt_low_set && less p q.ineq_filt_low
    then q
    else if q.ineq_filt_low_set && (equal p q.ineq_filt_low && not q.ineq_filt_low_incl)
    then q
    else mod_query (set_low field p false) q

unfoldable pub gte_property : Bytes → Property → Query → Query
gte_property field p q =
    if q.ineq_filt_low_set && less p q.ineq_filt_low
    then q
    else if q.ineq_filt_low_set && equal p q.ineq_filt_low
    then q
    else mod_query (set_low field p true) q

-- A value that `SetValue` refuses puts its error in the query.
abbrev pub with_checked : (Property → Query → Query) → Checked Property → Query → Query
with_checked f (ok p) q = f p q
with_checked f (err e) q = mod_query (set_err (bad_value e)) q

unfoldable pub lt : Bytes → Input Key → Query → Query
lt field i q = with_checked (lt_property field) (set_value i false) q

unfoldable pub lte : Bytes → Input Key → Query → Query
lte field i q = with_checked (lte_property field) (set_value i false) q

unfoldable pub gt : Bytes → Input Key → Query → Query
gt field i q = with_checked (gt_property field) (set_value i false) q

unfoldable pub gte : Bytes → Input Key → Query → Query
gte field i q = with_checked (gte_property field) (set_value i false) q

unfoldable pub clear_filters : Query → Query
clear_filters = mod_query (λ q. record q {
  eq_filts = elim (lookup ancestor_field q.eq_filts) [
    | none ↦ []
    | some a ↦ (ancestor_field, a) ∷ []
  ];
  ineq_filt_low_set = false;
  ineq_filt_high_set = false;
})
