-- ===== src/Datastore/Property/Order.antt =====
-- The order of properties in an index (`Compare`, `Less` and `Equal` of properties.go).
use gae.Prelude.{
  ℕ, Ordering, lt, eq, gt, ◌≡◌, refl, Bool, true, false, not, ◌&&◌, arith, if◌then◌else◌,
  cmp_bytes-IsOrder, compare, compare-IsOrder, IsOrder, by_part, agree, lex-IsOrder, both-IsOrder,
  or_else, is_eq, flip,
}
use gae.Datastore.Float.{IsNumber, HasNumbers, cmp_float-IsOrder, cmp_geo-IsOrder}
use gae.Datastore.Property.{
  PropertyOf, IndexValue, null, int, bool, string, float, geo_point, key, rank, index_type,
  index_type_and_value, cmp_key, cmp_values, compare_with,
}

-- No float in the value is a NaN, and a key is one of those that `P` allows.
abbrev pub IsComparable : {K : Type 0} → (K → Type 0) → IndexValue K → Type 0
IsComparable P (float f) = IsNumber f
IsComparable P (geo_point g) = HasNumbers g
IsComparable P (key k) = P k
IsComparable P _ = Unit

abbrev pub PropertyIsComparable : {K : Type 0} → (K → Type 0) → PropertyOf K → Type 0
PropertyIsComparable P p = IsComparable P (index_type_and_value p).1

abbrev pub setting_rank : Bool → ℕ
setting_rank false = 0
setting_rank true = 1

abbrev bool_rank : Bool → ℕ
bool_rank false = 0
bool_rank true = 1

-- The tests of `compare_with` in turn are one lexicographic comparison.
ladder :
    (s t : Bool) (c d : Ordering)
    → (if s && not t then gt else if not s && t then lt else if not (is_eq c) then c else d)
      ≡ or_else (compare (setting_rank s) (setting_rank t)) (or_else c d)
ladder s t c d = ground arith

module _ {K : Type 0} (P : K → Type 0) (key_equal key_less : K → K → Bool)
    (keys : IsOrder P (cmp_key key_equal key_less)) where
  abbrev HasOrder : IndexValue K → Type 0
  HasOrder v = IsComparable P v

  abbrev pub cmp : IndexValue K → IndexValue K → Ordering
  cmp = cmp_values key_equal key_less

  abbrev SameType : IndexValue K → IndexValue K → Type 0
  SameType a b = compare (rank (index_type a)) (rank (index_type b)) ≡ eq

  cmp-swapped :
      (a b : IndexValue K) → HasOrder a → HasOrder b → SameType a b → cmp b a ≡ flip (cmp a b)
  unfolding cmp_values
  cmp-swapped null null p q h = refl
  cmp-swapped (int a) (int b) p q h = ground arith
  cmp-swapped (bool a) (bool b) p q h = ground arith
  cmp-swapped (string a) (string b) p q h = cmp_bytes-IsOrder.swapped a b tt tt
  cmp-swapped (float a) (float b) p q h = cmp_float-IsOrder.swapped a b p q
  cmp-swapped (geo_point a) (geo_point b) p q h = cmp_geo-IsOrder.swapped a b p q
  cmp-swapped (key a) (key b) p q h = keys.swapped a b p q
  cmp-swapped _ _ p q h = cc

  cmp-eq_left :
      (a b c : IndexValue K)
      → HasOrder a
      → HasOrder b
      → HasOrder c
      → SameType a b
      → SameType a c
      → cmp a b ≡ eq
      → cmp a c ≡ cmp b c
  unfolding cmp_values
  cmp-eq_left null null null p q r h k e = refl
  cmp-eq_left (int a) (int b) (int c) p q r h k e = ground arith
  cmp-eq_left (bool a) (bool b) (bool c) p q r h k e = ground arith
  cmp-eq_left (string a) (string b) (string c) p q r h k e =
      cmp_bytes-IsOrder.eq_left a b c tt tt tt e
  cmp-eq_left (float a) (float b) (float c) p q r h k e = cmp_float-IsOrder.eq_left a b c p q r e
  cmp-eq_left (geo_point a) (geo_point b) (geo_point c) p q r h k e =
      cmp_geo-IsOrder.eq_left a b c p q r e
  cmp-eq_left (key a) (key b) (key c) p q r h k e = keys.eq_left a b c p q r e
  cmp-eq_left _ _ _ p q r h k e = cc

  cmp-lt_trans :
      (a b c : IndexValue K)
      → HasOrder a
      → HasOrder b
      → HasOrder c
      → SameType a b
      → SameType a c
      → cmp a b ≡ lt
      → cmp b c ≡ lt
      → cmp a c ≡ lt
  unfolding cmp_values
  cmp-lt_trans null null null p q r h k e f = e
  cmp-lt_trans (int a) (int b) (int c) p q r h k e f = ground arith
  cmp-lt_trans (bool a) (bool b) (bool c) p q r h k e f = ground arith
  cmp-lt_trans (string a) (string b) (string c) p q r h k e f =
      cmp_bytes-IsOrder.lt_trans a b c tt tt tt e f
  cmp-lt_trans (float a) (float b) (float c) p q r h k e f =
      cmp_float-IsOrder.lt_trans a b c p q r e f
  cmp-lt_trans (geo_point a) (geo_point b) (geo_point c) p q r h k e f =
      cmp_geo-IsOrder.lt_trans a b c p q r e f
  cmp-lt_trans (key a) (key b) (key c) p q r h k e f = keys.lt_trans a b c p q r e f
  cmp-lt_trans _ _ _ p q r h k e f = cc

  abbrev pub type_cmp : IndexValue K → IndexValue K → Ordering
  type_cmp a b = compare (rank (index_type a)) (rank (index_type b))

  same_type : (k a b : IndexValue K) → SameType k a → SameType k b → SameType a b
  same_type k a b h g = ground (
    arith,
    compare-IsOrder.eq_left (rank (index_type k)) (rank (index_type a)) (rank (index_type b)) tt tt
        tt h,
  )

  typed_values : IsOrder HasOrder (λ a b. or_else (type_cmp a b) (cmp a b))
  typed_values =
      lex-IsOrder type_cmp cmp
        (by_part compare-IsOrder HasOrder (λ (v : IndexValue K). rank (index_type v)) (λ _ _. tt))
        λ k _. record {
          swapped = λ a b p q. cmp-swapped a b p.0 q.0 (same_type k a b p.1 q.1);
          eq_left = λ a b c p q r.
              cmp-eq_left a b c p.0 q.0 r.0 (same_type k a b p.1 q.1) (same_type k a c p.1 r.1);
          lt_trans = λ a b c p q r.
              cmp-lt_trans a b c p.0 q.0 r.0 (same_type k a b p.1 q.1) (same_type k a c p.1 r.1);
        }

  abbrev PropertyHasOrder : PropertyOf K → Type 0
  PropertyHasOrder p = PropertyIsComparable P p

  abbrev pub setting_cmp : PropertyOf K → PropertyOf K → Ordering
  setting_cmp p o = compare (setting_rank p.no_index) (setting_rank o.no_index)

  abbrev pub value_cmp : PropertyOf K → PropertyOf K → Ordering
  value_cmp p o =
      or_else (type_cmp (index_type_and_value p).1 (index_type_and_value o).1)
        (cmp (index_type_and_value p).1 (index_type_and_value o).1)

  pub compare-lex :
      (p o : PropertyOf K)
      → compare_with key_equal key_less p o ≡ or_else (setting_cmp p o) (value_cmp p o)
  unfolding compare_with
  compare-lex p o =
      ladder p.no_index o.no_index (type_cmp (index_type_and_value p).1 (index_type_and_value o).1)
        (cmp (index_type_and_value p).1 (index_type_and_value o).1)

  -- If the keys are ordered, so are the properties that hold such keys and no NaN.
  pub compare_with-IsOrder : IsOrder (PropertyIsComparable P) (compare_with key_equal key_less)
  compare_with-IsOrder =
      agree (compare_with key_equal key_less)
        (both-IsOrder setting_cmp value_cmp
          (by_part compare-IsOrder PropertyHasOrder (λ (p : PropertyOf K). setting_rank p.no_index)
            (λ _ _. tt))
          (by_part typed_values PropertyHasOrder (λ (p : PropertyOf K). (index_type_and_value p).1)
            (λ _ h. h)))
        λ a b _ _. compare-lex a b
