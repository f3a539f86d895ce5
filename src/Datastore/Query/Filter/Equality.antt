-- ===== src/Datastore/Query/Filter/Equality.antt =====
-- What the equality filters of a query mean: a slice of values for a field is strictly ascending,
-- and holds the values of all calls of `Eq`, in any grouping.
use gae.Prelude.{
  insert, lookup-insert_self, lookup-insert_ne, ◌≢◌, ◌≡◌, refl, Bool, true, false, ◌||◌, none, List,
  [], ◌∷◌, arith, if◌then◌else◌, Bytes, any, All, ap,
}
use gae.Datastore.Property.{Input, ok, set_value}
use gae.Datastore.KeyProperty.{Property, less, equal, compare_property-IsOrder, IsIndexable}
use gae.Datastore.Key.{Key}
use gae.Datastore.Query.{Query, reserved}
use gae.Datastore.Query.Filter.{eq, eq_loop, eq_reserved, slice_of, or_empty, insert_property}
use gae.Datastore.Query.Filter.Bounds.{less-cmp, equal-cmp}

-- Each value of a slice is below the next.
abbrev pub Ascending : List Property → Type 0
Ascending [] = Unit
Ascending (x ∷ []) = Unit
Ascending (x ∷ y ∷ r) = (less x y ≡ true) × Ascending (y ∷ r)

abbrev pub has : Property → List Property → Bool
has w = any (λ x. equal x w)

-- The three outcomes of `insert_property` at `y`, behind a smaller `x`.
Ascending-behind :
    (b c : Bool) (p x y : Property) (r rest : List Property)
    → less x p ≡ true
    → less x y ≡ true
    → Ascending (if b then (if c then y ∷ r else p ∷ y ∷ r) else y ∷ rest)
    → Ascending (x ∷ (if b then (if c then y ∷ r else p ∷ y ∷ r) else y ∷ rest))
Ascending-behind true true p x y r rest xp xy h = (xy, h)
Ascending-behind true false p x y r rest xp xy h = (xp, h)
Ascending-behind false c p x y r rest xp xy h = (xy, h)

insert-behind :
    (p x : Property) (s : List Property)
    → less x p ≡ true
    → Ascending (x ∷ s)
    → Ascending (insert_property p s)
    → Ascending (x ∷ insert_property p s)
unfolding insert_property
insert-behind p x [] xp h a = (xp, tt)
insert-behind p x (y ∷ r) xp h a = Ascending-behind _ _ p x y r _ xp h.0 a

Ascending-at :
    (b c : Bool) (p x : Property) (s rest : List Property)
    → b ≡ (equal x p || less p x)
    → c ≡ equal x p
    → (less x p || equal x p || less p x) ≡ true
    → Ascending (x ∷ s)
    → (less x p ≡ true → Ascending (x ∷ rest))
    → Ascending (if b then (if c then x ∷ s else p ∷ x ∷ s) else x ∷ rest)
Ascending-at true true p x s rest e f t h k = h
Ascending-at true false p x s rest e f t h k = (ground arith, h)
Ascending-at false c p x s rest e f t h k = k (ground arith)

trichotomy :
    (x p : Property) → IsIndexable x → IsIndexable p → (less x p || equal x p || less p x) ≡ true
trichotomy x p ix ip =
    ground
      (arith, equal-cmp x p, less-cmp p x, less-cmp x p, compare_property-IsOrder.swapped x p ix ip)

Ascending-tail : (x : Property) (s : List Property) → Ascending (x ∷ s) → Ascending s
Ascending-tail x [] h = tt
Ascending-tail x (y ∷ r) h = h.1

insert-Ascending :
    (p : Property) (s : List Property)
    → IsIndexable p
    → All IsIndexable s
    → Ascending s
    → Ascending (insert_property p s)
unfolding insert_property
insert-Ascending p [] ip is h = tt
insert-Ascending p (x ∷ s) ip is h =
    Ascending-at _ _ p x s (insert_property p s) refl refl (trichotomy x p is.0 ip) h
      λ xp. insert-behind p x s xp h (insert-Ascending p s ip is.1 (Ascending-tail x s h))

insert-All :
    (p : Property) (s : List Property)
    → IsIndexable p
    → All IsIndexable s
    → All IsIndexable (insert_property p s)
unfolding insert_property
insert-All p [] ip is = (ip, tt)
insert-All p (x ∷ s) ip is =
    all_at (equal x p || less p x) (equal x p) (x ∷ s) (p ∷ x ∷ s) (x ∷ insert_property p s)
      (is.0, is.1) (ip, (is.0, is.1)) (is.0, insert-All p s ip is.1)
  where
    all_at :
        (b c : Bool) (u v w : List Property)
        → All IsIndexable u
        → All IsIndexable v
        → All IsIndexable w
        → All IsIndexable (if b then (if c then u else v) else w)
    all_at true true u v w hu hv hw = hu
    all_at true false u v w hu hv hw = hv
    all_at false c u v w hu hv hw = hw

insert-has :
    (p w : Property) (s : List Property)
    → IsIndexable p
    → IsIndexable w
    → All IsIndexable s
    → has w (insert_property p s) ≡ (equal p w || has w s)
unfolding insert_property
insert-has p w [] ip iw is = ground arith
insert-has p w (x ∷ r) ip iw is = ground (
  arith,
  equal-cmp x p,
  equal-cmp x w,
  equal-cmp p w,
  compare_property-IsOrder.eq_left x p w is.0 ip iw,
  insert-has p w r ip iw is.1,
)

-- `SetValue` makes the properties of the inputs.
abbrev pub Accepted : List (Input Key) → List Property → Type 0
Accepted [] [] = Unit
Accepted (v ∷ vs) (p ∷ ps) = (set_value v false ≡ ok p) × IsIndexable p × Accepted vs ps
Accepted _ _ = ⊥

-- A slice with these values added one by one.
abbrev insert_all : List Property → List Property → List Property
insert_all [] s = s
insert_all (p ∷ ps) s = insert_all ps (insert_property p s)

eq_loop-insert_all :
    (field : Bytes) (vs : List (Input Key)) (ps s : List Property) (q : Query)
    → Accepted vs ps
    → eq_loop field vs s q ≡ record q { eq_filts = insert field (insert_all ps s) q.eq_filts }
unfolding eq_loop
eq_loop-insert_all field [] [] s q a = refl
eq_loop-insert_all field [] (p ∷ ps) s q a = absurd a
eq_loop-insert_all field (v ∷ vs) [] s q a = absurd a
eq_loop-insert_all field (v ∷ vs) (p ∷ ps) s q (a, ip, b) =
    rw (a, eq_loop) (eq_loop-insert_all field vs ps (insert_property p s) q b)

insert_all-good :
    (ps s : List Property)
    → All IsIndexable ps
    → All IsIndexable s
    → Ascending s
    → Ascending (insert_all ps s)
insert_all-good [] s ips is h = h
insert_all-good (p ∷ ps) s (ip, ips) is h =
    insert_all-good ps (insert_property p s) ips (insert-All p s ip is)
      (insert-Ascending p s ip is h)

insert_all-has :
    (w : Property) (ps s : List Property)
    → IsIndexable w
    → All IsIndexable ps
    → All IsIndexable s
    → has w (insert_all ps s) ≡ (has w ps || has w s)
insert_all-has w [] s iw ips is = refl
insert_all-has w (p ∷ ps) s iw (ip, ips) is = ground (
  arith,
  insert_all-has w ps (insert_property p s) iw ips (insert-All p s ip is),
  insert-has p w s ip iw is,
)

Accepted-All : (vs : List (Input Key)) (ps : List Property) → Accepted vs ps → All IsIndexable ps
Accepted-All [] [] a = tt
Accepted-All [] (p ∷ ps) a = absurd a
Accepted-All (v ∷ vs) [] a = absurd a
Accepted-All (v ∷ vs) (p ∷ ps) (a, ip, b) = (ip, Accepted-All vs ps b)

-- The calls of `Eq` in the rest are on a field that is not reserved, and on a query in no error.
module _ (field : Bytes) (q : Query) (fine : q.err ≡ none) (free : reserved field ≡ none) where
  eq-filts :
      (v : Input Key) (vs : List (Input Key)) (ps : List Property)
      → Accepted (v ∷ vs) ps
      → eq field (v ∷ vs) q
        ≡ record q { eq_filts = insert field (insert_all ps (slice_of field q)) q.eq_filts }
  unfolding eq eq_reserved
  eq-filts v vs ps a =
      ground (arith, fine, free, eq_loop-insert_all field (v ∷ vs) ps (slice_of field q) q a)

  eq-slice :
      (vs : List (Input Key)) (ps : List Property)
      → Accepted vs ps
      → slice_of field (eq field vs q) ≡ insert_all ps (slice_of field q)
  unfolding slice_of
  eq-slice [] [] a = unfold eq in refl
  eq-slice [] (p ∷ ps) a = absurd a
  eq-slice (v ∷ vs) ps a =
      rw (eq-filts v vs ps a)
        (ap or_empty (lookup-insert_self field (insert_all ps (slice_of field q)) q.eq_filts))

  eq-slice_ne :
      (vs : List (Input Key)) (ps : List Property) (g : Bytes)
      → Accepted vs ps
      → g ≢ field
      → slice_of g (eq field vs q) ≡ slice_of g q
  unfolding slice_of
  eq-slice_ne [] ps g a n = unfold eq in refl
  eq-slice_ne (v ∷ vs) ps g a n =
      rw (eq-filts v vs ps a)
        (ap or_empty (lookup-insert_ne field g (insert_all ps (slice_of field q)) q.eq_filts n))

-- After `Eq` the slice of the field is strictly ascending if it was before, it has exactly the values
-- that it had and the new ones, and the slice of any other field is unchanged. The query is in no
-- error, the field is not reserved, `SetValue` accepts the values, and the values, those kept for the
-- field before and the one tested are ones that the index orders (no NaN, no key with a token that has
-- both IDs).
pub eq-holds :
    (field g : Bytes) (vs : List (Input Key)) (ps : List Property) (q : Query) (w : Property)
    → q.err ≡ none
    → reserved field ≡ none
    → Accepted vs ps
    → All IsIndexable (slice_of field q)
    → Ascending (slice_of field q)
    → IsIndexable w
    → g ≢ field
    → Ascending (slice_of field (eq field vs q))
      × (has w (slice_of field (eq field vs q)) ≡ (has w ps || has w (slice_of field q)))
      × (slice_of g (eq field vs q) ≡ slice_of g q)
eq-holds field g vs ps q w fine free a is h iw n =
    let ips = Accepted-All vs ps a in
    rw (eq-slice field q fine free vs ps a) (
      insert_all-good ps (slice_of field q) ips is h,
      insert_all-has w ps (slice_of field q) iw ips is,
      eq-slice_ne field q fine free vs ps g a n,
    )
