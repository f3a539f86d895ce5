-- ===== src/Prelude/Compare.antt =====
-- Three-way comparisons. Go's `int` result is read by its sign: below, equal to or above zero.
use Prim.Native.Nat.{ℕ, compare, Ordering}
use Prim.Native.Nat.Ordering.{lt, eq, gt}
use mathlib.Core.Path.{◌≡◌}
use mathlib.Core.Bool.{Bool, true, false}
use native.Mathlib.Omega.{arith}

abbrev pub is_lt : Ordering → Bool
is_lt lt = true
is_lt eq = false
is_lt gt = false

abbrev pub is_eq : Ordering → Bool
is_eq lt = false
is_eq eq = true
is_eq gt = false

abbrev pub flip : Ordering → Ordering
flip lt = gt
flip eq = eq
flip gt = lt

-- The first comparison that tells the two apart decides.
abbrev pub or_else : Ordering → Ordering → Ordering
or_else lt o = lt
or_else eq o = o
or_else gt o = gt

-- `cmp` orders the values that satisfy `P`: a total preorder, whose classes `cmp` reports as `eq`.
pub record IsOrder {ℓ} {A : Type ℓ} (P : A → Type 0) (cmp : A → A → Ordering) : Type ℓ where
  pub swapped : (a b : A) → P a → P b → cmp b a ≡ flip (cmp a b)
  pub eq_left : (a b c : A) → P a → P b → P c → cmp a b ≡ eq → cmp a c ≡ cmp b c
  pub lt_trans : (a b c : A) → P a → P b → P c → cmp a b ≡ lt → cmp b c ≡ lt → cmp a c ≡ lt

pub compare-IsOrder : IsOrder (λ (a : ℕ). Unit) compare
compare-IsOrder = record {
  swapped = λ a b _ _. ground arith;
  eq_left = λ a b c _ _ _ h. ground arith;
  lt_trans = λ a b c _ _ _ h k. ground arith;
}

module _ {ℓ} {A : Type ℓ} {P : A → Type 0} {cmp : A → A → Ordering} (o : IsOrder P cmp) where
  pub cmp_refl : (a : A) → P a → cmp a a ≡ eq
  cmp_refl a p = ground (arith, o.swapped a a p p)

  pub eq_right : (a b c : A) → P a → P b → P c → cmp b c ≡ eq → cmp a b ≡ cmp a c
  eq_right a b c p q r h =
      ground (arith, o.eq_left b c a q r p h, o.swapped a b p q, o.swapped a c p r)

  -- The order of fewer values, and the order of values by a part of them.
  pub narrow : (Q : A → Type 0) → ((a : A) → Q a → P a) → IsOrder Q cmp
  narrow Q f = record {
    swapped = λ a b p q. o.swapped a b (f a p) (f b q);
    eq_left = λ a b c p q r h. o.eq_left a b c (f a p) (f b q) (f c r) h;
    lt_trans = λ a b c p q r h k. o.lt_trans a b c (f a p) (f b q) (f c r) h k;
  }

  pub by_part {κ} :
      {B : Type κ} (Q : B → Type 0) (g : B → A)
      → ((b : B) → Q b → P (g b))
      → IsOrder Q (λ x y. cmp (g x) (g y))
  by_part Q g f = record {
    swapped = λ a b p q. o.swapped (g a) (g b) (f a p) (f b q);
    eq_left = λ a b c p q r h. o.eq_left (g a) (g b) (g c) (f a p) (f b q) (f c r) h;
    lt_trans = λ a b c p q r h k. o.lt_trans (g a) (g b) (g c) (f a p) (f b q) (f c r) h k;
  }

-- A comparison that agrees with an order where it is used.
pub agree {ℓ} :
    {A : Type ℓ} {P : A → Type 0} {c : A → A → Ordering} (d : A → A → Ordering)
    → IsOrder P c
    → ((a b : A) → P a → P b → d a b ≡ c a b)
    → IsOrder P d
agree d o h = record {
  swapped = λ a b p q. rw (h b a q p, h a b p q) (o.swapped a b p q);
  eq_left =
      λ a b c p q r e. rw (h a c p r, h b c q r) (o.eq_left a b c p q r (rw (h a b p q) at e));
  lt_trans = λ a b c p q r e f.
      rw (h a c p r) (o.lt_trans a b c p q r (rw (h a b p q) at e) (rw (h b c q r) at f));
}

module _ {ℓ} {A : Type ℓ} {P : A → Type 0} (c₁ c₂ : A → A → Ordering) (o₁ : IsOrder P c₁)
    (o₂ : (k : A) → P k → IsOrder (λ a. P a × (c₁ k a ≡ eq)) c₂) where
  abbrev lex : A → A → Ordering
  lex a b = or_else (c₁ a b) (c₂ a b)

  lex-swapped : (a b : A) → P a → P b → lex b a ≡ flip (lex a b)
  lex-swapped a b p q = ground (
    arith,
    o₁.swapped a b p q,
    cmp_refl o₁ a p,
    λ (h : c₁ a b ≡ eq). (o₂ a p).swapped a b (p, cmp_refl o₁ a p) (q, h),
  )

  lex-eq_left : (a b c : A) → P a → P b → P c → lex a b ≡ eq → lex a c ≡ lex b c
  lex-eq_left a b c p q r h = ground (
    arith,
    λ (e : c₁ a b ≡ eq). o₁.eq_left a b c p q r e,
    λ (e : c₁ a b ≡ eq) (f : c₁ a c ≡ eq) (g : c₂ a b ≡ eq).
        (o₂ a p).eq_left a b c (p, cmp_refl o₁ a p) (q, e) (r, f) g,
  )

  lex-lt_trans : (a b c : A) → P a → P b → P c → lex a b ≡ lt → lex b c ≡ lt → lex a c ≡ lt
  lex-lt_trans a b c p q r h k = ground (
    arith,
    λ (e : c₁ a b ≡ eq). o₁.eq_left a b c p q r e,
    λ (e : c₁ b c ≡ eq). eq_right o₁ a b c p q r e,
    λ (e : c₁ a b ≡ lt) (f : c₁ b c ≡ lt). o₁.lt_trans a b c p q r e f,
    λ (e : c₁ a b ≡ eq) (f : c₁ a c ≡ eq) (g : c₂ a b ≡ lt) (i : c₂ b c ≡ lt).
        (o₂ a p).lt_trans a b c (p, cmp_refl o₁ a p) (q, e) (r, f) g i,
  )

  -- Two comparisons in turn order the values, if the second orders those that the first joins.
  pub lex-IsOrder : IsOrder P (λ a b. or_else (c₁ a b) (c₂ a b))
  lex-IsOrder = record { swapped = lex-swapped; eq_left = lex-eq_left; lt_trans = lex-lt_trans }

module _ {ℓ} {A : Type ℓ} {P : A → Type 0} (c₁ c₂ : A → A → Ordering) (o₁ : IsOrder P c₁)
    (o₂ : IsOrder P c₂) where
  pub both-IsOrder : IsOrder P (λ a b. or_else (c₁ a b) (c₂ a b))
  both-IsOrder = lex-IsOrder c₁ c₂ o₁ (λ k _. narrow o₂ _ (λ a h. h.0))
