-- ===== src/Datastore/Query/Finalized/Reading.antt =====
-- What a backend reads of a finalized query is what the query says.
use gae.Prelude.{
  ◌≡◌, ◌≢◌, ◌↔◌, ◌⊎◌, inl, inr, refl, Bool, true, false, not, ◌&&◌, ◌||◌, Option, none, some, List,
  [], ◌∷◌, if◌then◌else◌, arith, Bytes, codes, same_bytes, same_bytes_iff,
}
use gae.Datastore.KeyProperty.{Property, less, equal}
use gae.Datastore.Key.{Key, KeyContext, last_of}
use gae.Datastore.Key
use gae.Datastore.KeyTok
use gae.Datastore.KeyTok.{KeyTok}
use gae.Datastore.Query.{Query, no_property, key_field}
use gae.Datastore.Query.Filter.Bounds.{in_range}
use gae.Datastore.Query.Finalize.{FinalizedQuery, ok, finalize, finalize_impl, key_of}
use gae.Datastore.Query.Finalized.{
  Bound, InvalidKey, low_not_valid, high_not_valid, ineq_filter_low, ineq_filter_high, valid,
  ancestor, ancestor_error, bound_error,
}

-- The meaning of the operator between the value and the bound.
abbrev compares : Bytes → Property → Property → Bool
compares op v p =
    if same_bytes op (codes ">")
    then less p v
    else if same_bytes op (codes ">=")
    then less p v || equal v p
    else if same_bytes op (codes "<")
    then less v p
    else same_bytes op (codes "<=") && (less v p || equal v p)

-- A bound with no field is no bound.
abbrev pub admits : Bound → Property → Bool
admits (field, op, p) v = same_bytes field [] || compares op v p

no_field : (field : Bytes) → field ≢ [] → same_bytes field [] ≡ false
no_field field n = ground (arith, same_bytes_iff field [])

admits-low :
    (field : Bytes) (on incl : Bool) (p v : Property)
    → field ≢ []
    → admits
        (if on then (field, (if incl then codes ">=" else codes ">"), p) else ([], [], no_property))
        v
      ≡ (not on || less p v || (incl && equal v p))
unfolding same_bytes
admits-low field true true p v n = rw (no_field field n) refl
admits-low field true false p v n = rw (no_field field n) (ground arith)
admits-low field false incl p v n = refl

admits-high :
    (field : Bytes) (on incl : Bool) (p v : Property)
    → field ≢ []
    → admits
        (if on then (field, (if incl then codes "<=" else codes "<"), p) else ([], [], no_property))
        v
      ≡ (not on || less v p || (incl && equal v p))
unfolding same_bytes
admits-high field true true p v n = rw (no_field field n) refl
admits-high field true false p v n = rw (no_field field n) (ground arith)
admits-high field false incl p v n = refl

-- The bounds of the finalized query are those of the query.
low_of :
    (q : Query) (fq : FinalizedQuery)
    → finalize q ≡ ok fq
    → ineq_filter_low fq ≡ (
        if q.ineq_filt_low_set
        then (
          q.ineq_filt_prop,
          (if q.ineq_filt_low_incl then codes ">=" else codes ">"),
          q.ineq_filt_low,
        )
        else ([], [], no_property))
unfolding finalize finalize_impl ineq_filter_low
low_of q fq h = ground (arith, h)

high_of :
    (q : Query) (fq : FinalizedQuery)
    → finalize q ≡ ok fq
    → ineq_filter_high fq ≡ (
        if q.ineq_filt_high_set
        then (
          q.ineq_filt_prop,
          (if q.ineq_filt_high_incl then codes "<=" else codes "<"),
          q.ineq_filt_high,
        )
        else ([], [], no_property))
unfolding finalize finalize_impl ineq_filter_high
high_of q fq h = ground (arith, h)

-- A value passes the inequality filters of a query exactly if it stands to both bounds of the
-- finalized query as their operators say; a bound with no field admits every value. The
-- query has a field for its inequality filters.
pub finalize-bounds :
    (q : Query) (fq : FinalizedQuery) (v : Property)
    → finalize q ≡ ok fq
    → q.ineq_filt_prop ≢ []
    → in_range q v ≡ (admits (ineq_filter_low fq) v && admits (ineq_filter_high fq) v)
unfolding in_range
finalize-bounds q fq v h n =
    rw
      (
        low_of q fq h,
        high_of q fq h,
        admits-low q.ineq_filt_prop q.ineq_filt_low_set q.ineq_filt_low_incl q.ineq_filt_low v n,
        admits-high q.ineq_filt_prop q.ineq_filt_high_set q.ineq_filt_high_incl q.ineq_filt_high v
            n,
      )
      refl

-- The key is there and valid.
abbrev pub IsValidKey : KeyContext → Option Key → Type 0
IsValidKey kc o = (k : Key) × (o ≡ some k) × (Key.valid false kc k ≡ true)

bound_error-none :
    (e : InvalidKey) (kc : KeyContext) (o : Option Key)
    → (bound_error e kc o ≡ none) ↔ IsValidKey kc o
unfolding bound_error
bound_error-none e kc none = (λ h. cc, λ (k, h, _). cc)
bound_error-none e kc (some k) =
    (λ h. (k, refl, ground (arith, h)), λ (j, same, v). ground (arith, same, v))

last_complete :
    (a : Bool) (t : KeyTok) (ts : List KeyTok)
    → Key.valid_toks a (t ∷ ts) ≡ true
    → KeyTok.is_incomplete (last_of t ts) ≡ false
unfolding Key.valid_toks
last_complete a t [] h = ground (arith, h)
last_complete a t (u ∷ us) h = last_complete a u us (ground (arith, h))

valid_complete :
    (a : Bool) (kc : KeyContext) (k : Key) → Key.valid a kc k ≡ true → Key.is_incomplete k ≡ false
unfolding Key.valid Key.is_incomplete Key.last_tok
valid_complete a kc k h = last_complete a k.first k.others (ground (arith, h))

ancestor_error-none :
    (kc : KeyContext) (o : Option Key)
    → (ancestor_error kc o ≡ none) ↔ ((o ≡ none) ⊎ IsValidKey kc o)
unfolding ancestor_error
ancestor_error-none kc none = (λ h. inl refl, λ h. refl)
ancestor_error-none kc (some k) = (
  λ h. inr (k, refl, ground (arith, h)),
  λ s. elim s [
    | inl e ↦ absurd (cc)
    | inr (j, same, v) ↦ ground (arith, same, v, valid_complete false kc k)
  ],
)

-- The keys that `Valid` is to check: the ancestor, and the bounds of filters on `__key__`.
abbrev pub HasValidKeys : KeyContext → FinalizedQuery → Type 0
HasValidKeys kc fq =
    ((ancestor fq ≡ none) ⊎ IsValidKey kc (ancestor fq))
    × (fq.ineq_filt_prop ≡ key_field
        → fq.ineq_filt_low_set ≡ true
        → IsValidKey kc (key_of fq.ineq_filt_low))
    × (fq.ineq_filt_prop ≡ key_field
        → fq.ineq_filt_high_set ≡ true
        → IsValidKey kc (key_of fq.ineq_filt_high))

-- `Valid` finds no error exactly if the ancestor, where there is one, and each bound of a filter on
-- `__key__` are keys that are valid in the context.
pub valid_iff : (kc : KeyContext) (fq : FinalizedQuery) → (valid kc fq ≡ none) ↔ HasValidKeys kc fq
unfolding valid
valid_iff kc fq = (
  λ h. (
    (ancestor_error-none kc (ancestor fq)).0 (ground (arith, h)),
    (λ e on.
        (bound_error-none low_not_valid kc (key_of fq.ineq_filt_low)).0
          (ground (arith, h, on, same_bytes_iff fq.ineq_filt_prop key_field))),
    (λ e on.
        (bound_error-none high_not_valid kc (key_of fq.ineq_filt_high)).0
          (ground (arith, h, on, same_bytes_iff fq.ineq_filt_prop key_field))),
  ),
  λ (a, low, high). ground (
    arith,
    (ancestor_error-none kc (ancestor fq)).1 a,
    λ (e : fq.ineq_filt_prop ≡ key_field) (on : fq.ineq_filt_low_set ≡ true).
        (bound_error-none low_not_valid kc (key_of fq.ineq_filt_low)).1 (low e on),
    λ (e : fq.ineq_filt_prop ≡ key_field) (on : fq.ineq_filt_high_set ≡ true).
        (bound_error-none high_not_valid kc (key_of fq.ineq_filt_high)).1 (high e on),
    same_bytes_iff fq.ineq_filt_prop key_field,
  ),
)
