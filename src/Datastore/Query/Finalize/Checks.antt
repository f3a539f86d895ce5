-- ===== src/Datastore/Query/Finalize/Checks.antt =====
-- When `Finalize` refuses a query.
use gae.Prelude.{◌≡◌, true, false, none, arith, eq_right}
use gae.Datastore.KeyProperty.{Property, compare_property-IsOrder, IsIndexable}
use gae.Datastore.Query.{Query, null_query}
use gae.Datastore.Query.Filter.Bounds.{in_range, IsBounded, less-cmp, equal-cmp}
use gae.Datastore.Query.Finalize.{
  err, finalize, finalize_impl, finalize_error, kindless_error, ineq_check, no_room,
}

-- A range with no room between its bounds holds no value.
no_room-empty :
    (q : Query) (v : Property)
    → IsBounded q
    → IsIndexable v
    → no_room q ≡ true
    → in_range q v ≡ false
unfolding no_room in_range
no_room-empty q v b iv h = ground (
  arith,
  h,
  less-cmp q.ineq_filt_high q.ineq_filt_low,
  equal-cmp q.ineq_filt_high q.ineq_filt_low,
  less-cmp v q.ineq_filt_high,
  equal-cmp v q.ineq_filt_high,
  less-cmp q.ineq_filt_low v,
  equal-cmp v q.ineq_filt_low,
  compare_property-IsOrder.swapped q.ineq_filt_low v b.low iv,
  compare_property-IsOrder.eq_left v q.ineq_filt_high q.ineq_filt_low iv b.high b.low,
  eq_right compare_property-IsOrder v q.ineq_filt_high q.ineq_filt_low iv b.high b.low,
  compare_property-IsOrder.lt_trans v q.ineq_filt_high q.ineq_filt_low iv b.high b.low,
)

null_query→no_room : (q : Query) → q.err ≡ none → finalize q ≡ err null_query → no_room q ≡ true
unfolding finalize finalize_impl finalize_error kindless_error ineq_check
null_query→no_room q fine h = ground (arith, fine, h)

-- If `Finalize` answers that a query can never have results, then no value passes the inequality
-- filters of the query. The query was in no error before, and its bounds and the value are ones
-- that the index orders (no NaN, no key with a token that has both IDs).
pub null_query-empty :
    (q : Query) (v : Property)
    → q.err ≡ none
    → IsBounded q
    → IsIndexable v
    → finalize q ≡ err null_query
    → in_range q v ≡ false
null_query-empty q v fine b iv h = no_room-empty q v b iv (null_query→no_room q fine h)
