-- ===== src/Datastore/Query.antt =====
-- service/datastore/query.go: the query builder. A query is a value: each method returns a new one.
-- `stringset.Set` is a list without repetitions, a map an association list; nil is `none` for the
-- set and the empty list for the map, of which the code asks no more.
pub mod Filter
pub mod Finalize
pub mod Finalized
use gae.Prelude.{
  insert, delete, ℕ, Ordering, Bool, true, false, not, ◌&&◌, ◌||◌, Option, none, some, List, [],
  ◌∷◌, ◌++◌, length, leb, if◌then◌else◌, ℤ, pos, ltb_ℤ, Bytes, codes, same_bytes, any,
}
use gae.Datastore.Property.{PropertyOf, Value, null, ValueError}
use gae.Datastore.KeyProperty.{Property}
use gae.Datastore.Key.{Key}
use gae.Datastore.IndexColumn.{
  IndexColumn, parse_index_column, parsed, invalid_order, empty_order, Parsed,
}

pub data QueryError : Type 0 where
  multiple_inequality_filter null_query : QueryError
  bad_value : ValueError → QueryError
  bad_order no_order : QueryError
  empty_field reserved_field project_key key_filter_type : QueryError
  kindless_filter kindless_equality kindless_order : QueryError
  project_keys_only first_order_mismatch key_not_descendant project_equality : QueryError

abbrev pub key_field : Bytes
key_field = codes "__key__"

abbrev pub ancestor_field : Bytes
ancestor_field = codes "__ancestor__"

abbrev pub scatter_field : Bytes
scatter_field = codes "__scatter__"

-- A map from field names to property slices.
abbrev pub Filters : Type 0
Filters = List (Bytes × List Property)

pub record Query : Type 0 where
  pub kind : Bytes
  pub eventual_consistency : Bool
  pub keys_only : Bool
  pub distinct : Bool
  pub limit : Option ℤ
  pub offset : Option ℤ
  pub order : List IndexColumn
  pub project : Option (List Bytes)
  pub eq_filts : Filters
  pub ineq_filt_prop : Bytes
  pub ineq_filt_low : Property
  pub ineq_filt_low_incl : Bool
  pub ineq_filt_low_set : Bool
  pub ineq_filt_high : Property
  pub ineq_filt_high_incl : Bool
  pub ineq_filt_high_set : Bool
  pub start : Option Bytes
  pub end : Option Bytes
  pub err : Option QueryError

-- The zero `Property`.
abbrev pub no_property : Property
no_property = record { value = null; no_index = false }

abbrev pub new_query : Bytes → Query
new_query kind = record {
  kind = kind;
  eventual_consistency = false;
  keys_only = false;
  distinct = false;
  limit = none;
  offset = none;
  order = [];
  project = none;
  eq_filts = [];
  ineq_filt_prop = [];
  ineq_filt_low = no_property;
  ineq_filt_low_incl = false;
  ineq_filt_low_set = false;
  ineq_filt_high = no_property;
  ineq_filt_high_incl = false;
  ineq_filt_high_set = false;
  start = none;
  end = none;
  err = none;
}

-- A modification of a query that is in error is no modification. The copy that Go makes first is
-- the value itself here.
abbrev pub mod_query : (Query → Query) → Query → Query
mod_query cb q = elim q.err [ none ↦ cb q | some e ↦ q ]

abbrev pub set_err : QueryError → Query → Query
set_err e q = record q { err = some e }

unfoldable pub with_kind : Bytes → Query → Query
with_kind kind = mod_query (λ q. record q { kind = kind })

unfoldable pub ancestor : Option Key → Query → Query
ancestor none = mod_query (λ q. record q { eq_filts = delete ancestor_field q.eq_filts })
ancestor (some k) = mod_query (λ q. record q {
  eq_filts =
      insert ancestor_field (record { value = Value.key k; no_index = false } ∷ []) q.eq_filts;
})

unfoldable pub with_eventual_consistency : Bool → Query → Query
with_eventual_consistency on = mod_query (λ q. record q { eventual_consistency = on })

unfoldable pub with_limit : ℤ → Query → Query
with_limit limit = mod_query (λ q.
    if ltb_ℤ limit (pos 0) then record q { limit = none } else record q { limit = some limit })

unfoldable pub with_offset : ℤ → Query → Query
with_offset offset = mod_query (λ q.
    if ltb_ℤ offset (pos 0) then record q { offset = none } else record q { offset = some offset })

unfoldable pub with_keys_only : Bool → Query → Query
with_keys_only on = mod_query (λ q. record q { keys_only = on })

abbrev two_underscores : Bytes → Bool
two_underscores (a ∷ b ∷ r) = same_bytes (a ∷ b ∷ []) (codes "__")
two_underscores r = false

abbrev ends_in_underscores : Bytes → Bool
ends_in_underscores (a ∷ b ∷ c ∷ r) = ends_in_underscores (b ∷ c ∷ r)
ends_in_underscores (a ∷ b ∷ []) = same_bytes (a ∷ b ∷ []) (codes "__")
ends_in_underscores r = false

-- The error that a reserved field name puts in the query; `none` for a field that is not reserved.
unfoldable pub reserved : Bytes → Option QueryError
reserved field =
    if same_bytes field key_field || same_bytes field scatter_field
    then none
    else if same_bytes field []
    then some empty_field
    else if two_underscores field && ends_in_underscores field
    then some reserved_field
    else none

order_loop : List Bytes → Query → Query
order_loop [] q = q
order_loop (fn ∷ fns) q = elim (parse_index_column fn) [
  | Parsed.invalid_order ↦ set_err bad_order q
  | Parsed.empty_order ↦ set_err no_order q
  | parsed ic ↦ elim (reserved ic.property) [
    | some e ↦ set_err e q
    | none ↦ order_loop fns (record q { order = q.order ++ ic ∷ [] })
  ]
]

unfoldable pub add_order : List Bytes → Query → Query
unfolding order_loop
add_order [] q = q
add_order fields q = mod_query (order_loop fields) q

unfoldable pub clear_order : Query → Query
clear_order = mod_query (λ q. record q { order = [] })

unfoldable pub add_name : Bytes → Option (List Bytes) → List Bytes
add_name f none = f ∷ []
add_name f (some fs) = if any (same_bytes f) fs then fs else fs ++ f ∷ []

project_loop : List Bytes → Query → Query
project_loop [] q = q
project_loop (f ∷ fs) q = elim (reserved f) [
  | some e ↦ set_err e q
  | none ↦
      let rest = project_loop fs (record q { project = some (add_name f q.project) }) in
      if same_bytes f key_field then set_err project_key q else rest
]

unfoldable pub add_project : List Bytes → Query → Query
unfolding project_loop
add_project [] q = q
add_project fields q = mod_query (project_loop fields) q

unfoldable pub with_distinct : Bool → Query → Query
with_distinct on = mod_query (λ q. record q { distinct = on })

unfoldable pub clear_project : Query → Query
clear_project = mod_query (λ q. record q { project = none })

unfoldable pub with_start : Option Bytes → Query → Query
with_start c = mod_query (λ q. record q { start = c })

unfoldable pub with_end : Option Bytes → Query → Query
with_end c = mod_query (λ q. record q { end = c })
