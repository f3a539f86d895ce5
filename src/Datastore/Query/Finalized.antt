-- ===== src/Datastore/Query/Finalized.antt =====
-- service/datastore/finalized_query.go: what a backend reads of a finalized query, and `Valid`.
pub mod Reading
use gae.Prelude.{
  Bool, true, false, not, ◌&&◌, Option, none, some, List, [], ◌∷◌, if◌then◌else◌, ℤ, pos, Bytes,
  codes, same_bytes, lookup,
}
use gae.Datastore.KeyProperty.{Property}
use gae.Datastore.Key.{Key, KeyContext}
use gae.Datastore.Key
use gae.Datastore.Query.{no_property, key_field, ancestor_field}
use gae.Datastore.Query.Finalize.{FinalizedQuery, key_of, first_key}

abbrev pub present : Option ℤ → ℤ × Bool
present (some n) = (n, true)
present none = (pos 0, false)

unfoldable pub limit : FinalizedQuery → ℤ × Bool
limit fq = present fq.limit

unfoldable pub offset : FinalizedQuery → ℤ × Bool
offset fq = present fq.offset

unfoldable pub bounds : FinalizedQuery → Option Bytes × Option Bytes
bounds fq = (fq.start, fq.end)

unfoldable pub ancestor : FinalizedQuery → Option Key
ancestor fq = first_key (lookup ancestor_field fq.eq_filts)

-- The field, the operator and the value.
abbrev pub Bound : Type 0
Bound = Bytes × Bytes × Property

unfoldable pub ineq_filter_low : FinalizedQuery → Bound
ineq_filter_low fq =
    if fq.ineq_filt_low_set
    then (
      fq.ineq_filt_prop,
      (if fq.ineq_filt_low_incl then codes ">=" else codes ">"),
      fq.ineq_filt_low,
    )
    else ([], [], no_property)

unfoldable pub ineq_filter_high : FinalizedQuery → Bound
ineq_filter_high fq =
    if fq.ineq_filt_high_set
    then (
      fq.ineq_filt_prop,
      (if fq.ineq_filt_high_incl then codes "<=" else codes "<"),
      fq.ineq_filt_high,
    )
    else ([], [], no_property)

pub data InvalidKey : Type 0 where
  ancestor_not_valid ancestor_incomplete low_not_valid high_not_valid : InvalidKey
  -- The panic at a bound on `__key__` that is no key: `ineqOK` lets none through.
  no_key_bound : InvalidKey

unfoldable pub ancestor_error : KeyContext → Option Key → Option InvalidKey
ancestor_error kc none = none
ancestor_error kc (some anc) =
    if not (Key.valid false kc anc)
    then some ancestor_not_valid
    else if Key.is_incomplete anc
    then some ancestor_incomplete
    else none

unfoldable pub bound_error : InvalidKey → KeyContext → Option Key → Option InvalidKey
bound_error e kc none = some no_key_bound
bound_error e kc (some k) = if not (Key.valid false kc k) then some e else none

-- The first error.
abbrev pub first_error : Option InvalidKey → Option InvalidKey → Option InvalidKey
first_error (some e) rest = some e
first_error none rest = rest

unfoldable pub valid : KeyContext → FinalizedQuery → Option InvalidKey
valid kc fq = first_error (ancestor_error kc (ancestor fq)) (
    if same_bytes fq.ineq_filt_prop key_field
    then first_error
        (if fq.ineq_filt_low_set
          then bound_error low_not_valid kc (key_of fq.ineq_filt_low)
          else none)
        (if fq.ineq_filt_high_set
          then bound_error high_not_valid kc (key_of fq.ineq_filt_high)
          else none)
    else none)
