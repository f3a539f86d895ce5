-- ===== src/Datastore/Query/Filter/Leftover.antt =====
-- Two places where the inequality filters of a query do not follow its documentation.
use gae.Prelude.{◌≡◌, ◌≢◌, true, false, none, some, [], arith, Bytes, same_bytes_iff}
use gae.Datastore.Property.{Input, ok, set_value}
use gae.Datastore.KeyProperty.{Property, less}
use gae.Datastore.Key.{Key}
use gae.Datastore.Query.{Query, multiple_inequality_filter, key_field, reserved}
use gae.Datastore.Query.Filter.{lt, lt_property, set_high, ineq_error, clear_filters}

-- After `ClearFilters` the field of the old inequality filters still binds: `Lt` on another field
-- puts `ErrMultipleInequalityFilter` in the query. The query was in no error and had an inequality
-- filter, and the other field is neither reserved nor `__key__`.
pub clear_filters-leaves_field :
    (q : Query) (field : Bytes) (i : Input Key) (p : Property)
    → q.err ≡ none
    → q.ineq_filt_prop ≢ []
    → q.ineq_filt_prop ≢ field
    → reserved field ≡ none
    → field ≢ key_field
    → set_value i false ≡ ok p
    → (lt field i (clear_filters q)).err ≡ some multiple_inequality_filter
unfolding lt lt_property set_high ineq_error clear_filters
clear_filters-leaves_field q field i p fine had other free plain a = rw a (
    ground (
      arith,
      fine,
      free,
      same_bytes_iff q.ineq_filt_prop [],
      same_bytes_iff q.ineq_filt_prop field,
      same_bytes_iff field key_field,
    ))

-- A second `Lt` with a larger value is dropped even where it names another field: the query stays
-- as it was, and in no error. The query had no upper bound before the first `Lt`, which succeeded.
pub lt-drops_field :
    (f g : Bytes) (i j : Input Key) (p p' : Property) (q : Query)
    → set_value i false ≡ ok p
    → set_value j false ≡ ok p'
    → less p p' ≡ true
    → q.ineq_filt_high_set ≡ false
    → (lt f i q).err ≡ none
    → lt g j (lt f i q) ≡ lt f i q
unfolding lt lt_property set_high
lt-drops_field f g i j p p' q a b l n e = rw (a, b) (drop (rw a at e))
  where
    drop : (lt_property f p q).err ≡ none → lt_property g p' (lt_property f p q) ≡ lt_property f p q
    drop e = ground (arith, l, n, e)
