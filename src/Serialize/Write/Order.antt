-- ===== src/Serialize/Write/Order.antt =====
-- The bytes of indexed properties compare as the properties do.
use gae.Prelude.{
  ℕ, ◌+◌, ◌≡◌, refl, sym, ap, ◌∙◌, Ordering, Bool, true, false, [], ◌∷◌, ◌++◌, arith, Bytes,
  cmp_bytes, or_else, compare, cmp_list, same_bytes, inl, inr, Bool-cases, cmp_bytes-IsOrder,
  cmp_refl,
}
use mathlib.Core.List.{append_assoc}
use gae.Datastore.Float.{GeoPoint, cmp_geo, cmp_float}
use gae.Datastore.Property.{
  IndexValue, null, int, bool, string, float, geo_point, key, compare_with, cmp_values, rank,
  index_type, index_type_and_value,
}
use gae.Datastore.Property.Order.{compare-lex}
use gae.Datastore.KeyTok
use gae.Datastore.KeyTok.{KeyTok, no_key}
use gae.Datastore.Key.{Key, toks, equal, less}
use gae.Datastore.Key.Order.{
  cmp_tok, cmp_whole, cmp_context, cmp_ids, IsSingle, cmp_key-whole, cmp_key-IsOrder,
}
use gae.Datastore.KeyProperty.{Property, compare_property}
use gae.Serialize.Cmpbin.{Cmpbin, KeepsOrder, IsPlain, Any}
use gae.Serialize.Write.{
  write_id, write_context, write_key_tok, write_toks, write_key, write_geo_point, write_index_value,
  write_property_impl, write_index_property,
}

or_else_assoc : (a b c : Ordering) → or_else (or_else a b) c ≡ or_else a (or_else b c)
or_else_assoc a b c = ground arith

-- One encoding behind another: the first decides, and then the second.
then-order :
    (w v x y r s : Bytes) (d e : Ordering)
    → ((r s : Bytes) → cmp_bytes (w ++ r) (v ++ s) ≡ or_else d (cmp_bytes r s))
    → cmp_bytes (x ++ r) (y ++ s) ≡ or_else e (cmp_bytes r s)
    → cmp_bytes ((w ++ x) ++ r) ((v ++ y) ++ s) ≡ or_else (or_else d e) (cmp_bytes r s)
then-order w v x y r s d e h k =
    rw (append_assoc w x r, append_assoc v y s)
      (h (x ++ r) (y ++ s) ∙ ap (or_else d) k ∙ sym (or_else_assoc d e (cmp_bytes r s)))

module _ (c : Cmpbin) where
  ids-order :
      (t u : KeyTok) (r s : Bytes)
      → cmp_bytes (write_id c t ++ r) (write_id c u ++ s) ≡ or_else (cmp_ids t u) (cmp_bytes r s)
  unfolding KeyTok.id compare_with index_type_and_value cmp_bytes write_id
  ids-order t u r s = elim (Bool-cases (same_bytes t.string_id [])) [
    | inl e ↦ elim (Bool-cases (same_bytes u.string_id [])) [
      | inl f ↦ rw (e, f) (c.int_order t.int_id u.int_id r s tt tt ∙ ground arith)
      | inr f ↦ rw (e, f) refl
    ]
    | inr e ↦ elim (Bool-cases (same_bytes u.string_id [])) [
      | inl f ↦ rw (e, f) refl
      | inr f ↦ rw (e, f) (c.string_order t.string_id u.string_id r s tt tt)
    ]
  ]

  tok-order : KeepsOrder Any (write_key_tok c) cmp_tok
  unfolding write_key_tok cmp_tok
  tok-order t u r s p q =
      then-order (c.write_string t.kind) (c.write_string u.kind) (write_id c t) (write_id c u) r s
        (cmp_bytes t.kind u.kind) (cmp_ids t u) (λ r s. c.string_order t.kind u.kind r s tt tt)
        (ids-order t u r s)

  toks-order : KeepsOrder Any (write_toks c) (cmp_list cmp_tok)
  unfolding write_toks cmp_list cmp_bytes
  toks-order [] [] r s p q = refl
  toks-order [] (u ∷ us) r s p q = refl
  toks-order (t ∷ ts) [] r s p q = refl
  toks-order (t ∷ ts) (u ∷ us) r s p q =
      then-order (write_key_tok c t) (write_key_tok c u) (write_toks c ts) (write_toks c us) r s
        (cmp_tok t u) (cmp_list cmp_tok ts us) (λ r s. tok-order t u r s tt tt)
        (toks-order ts us r s tt tt)

  geo-order :
      KeepsOrder (λ (g : GeoPoint). IsPlain g.lat × IsPlain g.lng) (write_geo_point c) cmp_geo
  unfolding write_geo_point cmp_geo
  geo-order g h r s p q =
      then-order (c.write_float64 g.lat) (c.write_float64 h.lat) (c.write_float64 g.lng)
        (c.write_float64 h.lng) r s (cmp_float g.lat h.lat) (cmp_float g.lng h.lng)
        (λ r s. c.float64_order g.lat h.lat r s p.0 q.0) (c.float64_order g.lng h.lng r s p.1 q.1)
      ∙ ground arith

  -- Without its context a key is compared with others of one context.
  abbrev pub SameContext : Bool → Key → Key → Type 0
  SameContext true k o = Unit
  SameContext false k o = k.kc ≡ o.kc

  context-order :
      (context : Bool) (k o : Key) (r s : Bytes)
      → SameContext context k o
      → cmp_bytes (write_context c context k.kc ++ r) (write_context c context o.kc ++ s)
        ≡ or_else (cmp_context k o) (cmp_bytes r s)
  unfolding write_context cmp_context cmp_bytes
  context-order true k o r s h =
      then-order (c.write_string k.kc.app_id) (c.write_string o.kc.app_id)
        (c.write_string k.kc.namespace) (c.write_string o.kc.namespace) r s
        (cmp_bytes k.kc.app_id o.kc.app_id) (cmp_bytes k.kc.namespace o.kc.namespace)
        (λ r s. c.string_order k.kc.app_id o.kc.app_id r s tt tt)
        (c.string_order k.kc.namespace o.kc.namespace r s tt tt)
  context-order false k o r s h =
      rw
        (h, cmp_refl cmp_bytes-IsOrder o.kc.app_id tt, cmp_refl cmp_bytes-IsOrder o.kc.namespace tt)
        refl

  key-order :
      (context : Bool) (k o : Key) (r s : Bytes)
      → SameContext context k o
      → cmp_bytes (write_key c context k ++ r) (write_key c context o ++ s)
        ≡ or_else (cmp_whole k o) (cmp_bytes r s)
  unfolding write_key cmp_whole
  key-order context k o r s h =
      then-order (write_context c context k.kc) (write_context c context o.kc)
        (write_toks c (toks k)) (write_toks c (toks o)) r s (cmp_context k o)
        (cmp_list cmp_tok (toks k) (toks o)) (λ r s. context-order context k o r s h)
        (toks-order (toks k) (toks o) r s tt tt)

  -- Two index values of one type whose encodings keep the order.
  abbrev pub AreOrderly : Bool → IndexValue Key → IndexValue Key → Type 0
  AreOrderly context (float f) (float g) = IsPlain f × IsPlain g
  AreOrderly context (geo_point g) (geo_point h) =
      (IsPlain g.lat × IsPlain g.lng) × (IsPlain h.lat × IsPlain h.lng)
  AreOrderly context (key k) (key o) = IsSingle k × IsSingle o × SameContext context k o
  AreOrderly context v w = Unit

  values-order :
      (context : Bool) (v w : IndexValue Key) (r s : Bytes)
      → AreOrderly context v w
      → rank (index_type v) ≡ rank (index_type w)
      → cmp_bytes (write_index_value c context v ++ r) (write_index_value c context w ++ s)
        ≡ or_else (cmp_values equal less v w) (cmp_bytes r s)
  unfolding write_index_value cmp_values cmp_bytes
  values-order context null null r s h e = refl
  values-order context (bool a) (bool b) r s h e = ground arith
  values-order context (int m) (int n) r s h e = c.int_order m n r s tt tt ∙ ground arith
  values-order context (float f) (float g) r s h e = c.float64_order f g r s h.0 h.1
  values-order context (string a) (string b) r s h e = c.string_order a b r s tt tt
  values-order context (geo_point g) (geo_point i) r s h e = geo-order g i r s h.0 h.1
  values-order context (key k) (key o) r s (p, q, h) e =
      rw (cmp_key-whole k o p q) (key-order context k o r s h)
  values-order context _ _ r s h e = absurd (omega (arith, e))

  type-order :
      (i j : ℕ) (v w : IndexValue Key) (x y r s : Bytes)
      → (i ≡ j → cmp_bytes (x ++ r) (y ++ s) ≡ or_else (cmp_values equal less v w) (cmp_bytes r s))
      → cmp_bytes ((i + 128) ∷ x ++ r) ((j + 128) ∷ y ++ s)
        ≡ or_else (or_else (compare i j) (cmp_values equal less v w)) (cmp_bytes r s)
  unfolding cmp_bytes
  type-order i j v w x y r s h = ground (arith, h)

  -- The bytes of two indexed properties compare as `Compare` compares the properties, and where these
  -- are equal what follows decides. No float is a NaN or a negative zero, no token of a key has
  -- both IDs, and keys written without their context have the same.
  pub write_index_property-order :
      (context : Bool) (p q : Property) (r s : Bytes)
      → p.no_index ≡ false
      → q.no_index ≡ false
      → AreOrderly context (index_type_and_value p).1 (index_type_and_value q).1
      → cmp_bytes (write_index_property c context p ++ r) (write_index_property c context q ++ s)
        ≡ or_else (compare_property p q) (cmp_bytes r s)
  unfolding write_index_property write_property_impl compare_property index_type_and_value
  write_index_property-order context p q r s i j h =
      let v = (index_type_and_value p).1 in
      let w = (index_type_and_value q).1 in
      rw (compare-lex IsSingle equal less cmp_key-IsOrder p q, i, j)
        (type-order (rank (index_type v)) (rank (index_type w)) v w (write_index_value c context v)
          (write_index_value c context w) r s (values-order context v w r s h))
