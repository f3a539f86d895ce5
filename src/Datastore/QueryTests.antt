-- ===== src/Datastore/QueryTests.antt =====
-- Runs of the query model, and its theorems at concrete inputs.
use gae.Prelude.{
  ℕ, ◌≡◌, ◌↔◌, ◌≢◌, refl, sym, true, false, not, ◌&&◌, ◌||◌, none, List, [], ◌∷◌, ◌++◌, pos, Bytes,
  codes, lookup, same_bytes, same_bytes_iff, cmp_bytes, any,
}
use gae.Datastore.Property.{
  Value, Input, set_value, index_type_and_value, less_with, equal_with, compare_with,
}
use gae.Datastore.KeyProperty.{Property, less, equal}
use gae.Datastore.Key.{Key, KeyContext}
use gae.Datastore.IndexColumn.{IndexColumn}
use gae.Datastore.Query.{Query, new_query, reserved, key_field}
use gae.Datastore.Query.Filter
use gae.Datastore.Query.Filter.{
  slice_of, clear_filters, lt_property, set_high, ineq_error, gt_property, set_low,
}
use gae.Datastore.Query.Filter.Bounds.{in_range, restrict-range, is_below}
use gae.Datastore.Query.Filter.Equality.{eq-holds, Ascending, has}
use gae.Datastore.Query.Finalize.{
  FinalizedQuery, Finalized, finalize, finalize_impl, finalize_error, kindless_error, ineq_check,
  no_room, kept_orders, is_eq_field, ascending, with_key, explicit_orders, implied_orders,
  implied_seen, projected_orders, seen_after, sort_strings, projection, is_distinct, ancestor_of,
  outside,
}
use gae.Datastore.Query.Finalize.Checks.{null_query-empty}
use gae.Datastore.Query.Finalize.Orders.{
  finalize-ends_in_key, finalize-inequality_first, StartsWith, kept_orders-fields, Distinct,
  on_field,
}
use gae.Datastore.Query.Finalized.{ineq_filter_low, ineq_filter_high, valid}
use gae.Datastore.Query.Finalized.Reading.{finalize-bounds, admits, valid_iff, HasValidKeys}

abbrev number : ℕ → Property
number n = record { value = Value.int (pos n); no_index = false }

abbrev input : ℕ → Input Key
input n = Input.value (Value.int (pos n))

abbrev field_a : Bytes
field_a = codes "a"

abbrev field_b : Bytes
field_b = codes "b"

b_ne_a : field_b ≢ field_a
unfolding same_bytes cmp_bytes
b_ne_a = λ e. cc ((same_bytes_iff field_b field_a).1 e)

a_ne_b : field_a ≢ field_b
a_ne_b = λ e. b_ne_a (sym e)

b_ne_key : field_b ≢ key_field
unfolding same_bytes cmp_bytes
b_ne_key = λ e. cc ((same_bytes_iff field_b key_field).1 e)

abbrev things : Query
things = new_query (codes "Thing")

-- The query for things with `a` below 5.
abbrev small_things : Query
small_things = record things {
  ineq_filt_prop = field_a;
  ineq_filt_high_set = true;
  ineq_filt_high = number 5;
}

small_things_built : Filter.lt field_a (input 5) things ≡ small_things
unfolding Filter.lt lt_property set_high ineq_error set_value reserved same_bytes cmp_bytes
small_things_built = refl

-- The same with `a` above 5 too.
abbrev no_things : Query
no_things = record small_things { ineq_filt_low_set = true; ineq_filt_low = number 5 }

no_things_built : Filter.gt field_a (input 5) small_things ≡ no_things
unfolding Filter.gt gt_property set_low ineq_error set_value reserved same_bytes cmp_bytes
no_things_built = refl

abbrev key_last : FinalizedQuery
key_last = record {
  kind = codes "Thing";
  keys_only = false;
  eventually_consistent = true;
  distinct = false;
  limit = none;
  offset = none;
  start = none;
  end = none;
  project = [];
  orders = ascending field_a ∷ ascending key_field ∷ [];
  eq_filts = [];
  ineq_filt_prop = field_a;
  ineq_filt_low = record { value = Value.null; no_index = false };
  ineq_filt_low_incl = false;
  ineq_filt_low_set = false;
  ineq_filt_high = number 5;
  ineq_filt_high_incl = false;
  ineq_filt_high_set = true;
}

small_things_final : finalize small_things ≡ Finalized.ok key_last
unfolding finalize finalize_impl finalize_error kindless_error ineq_check no_room with_key
    explicit_orders implied_orders implied_seen projected_orders seen_after sort_strings projection
    is_distinct ancestor_of outside kept_orders same_bytes cmp_bytes lookup
small_things_final = refl

restrict-range_example :
    (in_range (Filter.lt field_a (input 5) things) (number 3)
      ≡ (in_range things (number 3) && less (number 3) (number 5)))
    × ((Filter.lt field_a (input 5) things).ineq_filt_prop ≡ field_a)
unfolding index_type_and_value set_value Filter.lt lt_property set_high ineq_error reserved
    same_bytes
restrict-range_example =
    restrict-range is_below field_a (input 5) things (number 5) (number 3) refl
      (record { low_on = λ h. absurd (cc); high_on = λ h. absurd (cc) })
      (record { low = tt; high = tt }) tt tt refl

eq-holds_example :
    Ascending (slice_of field_a (Filter.eq field_a (input 2 ∷ input 1 ∷ []) things))
    × (has (number 1) (slice_of field_a (Filter.eq field_a (input 2 ∷ input 1 ∷ []) things))
        ≡ (has (number 1) (number 2 ∷ number 1 ∷ []) || has (number 1) (slice_of field_a things)))
    × (slice_of field_b (Filter.eq field_a (input 2 ∷ input 1 ∷ []) things)
        ≡ slice_of field_b things)
unfolding index_type_and_value set_value reserved same_bytes slice_of lookup
eq-holds_example =
    eq-holds field_a field_b (input 2 ∷ input 1 ∷ []) (number 2 ∷ number 1 ∷ []) things (number 1)
      refl refl (refl, tt, (refl, tt, tt)) tt tt tt b_ne_a

null_query-empty_example : in_range no_things (number 5) ≡ false
unfolding index_type_and_value finalize finalize_impl finalize_error kindless_error ineq_check
    no_room less equal less_with equal_with compare_with same_bytes cmp_bytes ancestor_of lookup
null_query-empty_example =
    null_query-empty no_things (number 5) refl (record { low = tt; high = tt }) tt refl

finalize-ends_in_key_example :
    (front : List IndexColumn) × (o : IndexColumn) × (key_last.orders ≡ front ++ o ∷ [])
    × (o.property ≡ key_field)
finalize-ends_in_key_example = finalize-ends_in_key small_things key_last small_things_final

finalize-inequality_first_example : StartsWith field_a key_last.orders
unfolding lookup
finalize-inequality_first_example =
    finalize-inequality_first small_things key_last small_things_final (λ e. cc) refl

kept_orders-fields_example :
    Distinct (kept_orders things [] (ascending field_a ∷ ascending field_a ∷ []))
    × (on_field field_a (kept_orders things [] (ascending field_a ∷ ascending field_a ∷ [])) ≡ (
        on_field field_a (ascending field_a ∷ ascending field_a ∷ [])
        && not (is_eq_field things field_a)
        && not (any (same_bytes field_a) [])))
kept_orders-fields_example =
    kept_orders-fields things field_a [] (ascending field_a ∷ ascending field_a ∷ [])

finalize-bounds_example : in_range small_things (number 5) ≡ (
    admits (ineq_filter_low key_last) (number 5) && admits (ineq_filter_high key_last) (number 5))
finalize-bounds_example =
    finalize-bounds small_things key_last (number 5) small_things_final (λ e. cc)

abbrev context : KeyContext
context = record { app_id = codes "app"; namespace = [] }

valid_iff_example : (valid context key_last ≡ none) ↔ HasValidKeys context key_last
valid_iff_example = valid_iff context key_last
