-- ===== src/Datastore/Key/Identity.antt =====
-- `==` on tokens and contexts, and `Equal` of key.go, decide the equality of values.
use gae.Prelude.{
  ◌≡◌, refl, ◌↔◌, true, List, [], ◌∷◌, length, arith, ℤ, cmp_ℤ-eq, cmp_ℤ-IsOrder, eqb_ℤ,
  same_bytes_iff, cmp_refl, ap,
}
use gae.Datastore.KeyTok
use gae.Datastore.KeyTok.{KeyTok}
use gae.Datastore.Key.{
  Key, KeyContext, matches, equal, incomplete_equal, incomplete_equal_toks, last_tok, last_of,
}

pub eqb_ℤ_iff : (a b : ℤ) → (eqb_ℤ a b ≡ true) ↔ (a ≡ b)
eqb_ℤ_iff a b =
    (λ h. cmp_ℤ-eq a b (ground arith), λ h. rw h (ground (arith, cmp_refl cmp_ℤ-IsOrder b tt)))

pub tok_equal→eq : (t u : KeyTok) → KeyTok.equal t u ≡ true → t ≡ u
unfolding KeyTok.equal
tok_equal→eq t u h = ground (
  arith,
  same_bytes_iff t.kind u.kind,
  eqb_ℤ_iff t.int_id u.int_id,
  same_bytes_iff t.string_id u.string_id,
)

pub tok_equal_refl : (t : KeyTok) → KeyTok.equal t t ≡ true
unfolding KeyTok.equal
tok_equal_refl t = ground (
  arith,
  same_bytes_iff t.kind t.kind,
  eqb_ℤ_iff t.int_id t.int_id,
  same_bytes_iff t.string_id t.string_id,
)

pub matches→eq : (a b : KeyContext) → matches a b ≡ true → a ≡ b
unfolding matches
matches→eq a b h =
    ground (arith, same_bytes_iff a.app_id b.app_id, same_bytes_iff a.namespace b.namespace)

pub matches_refl : (a : KeyContext) → matches a a ≡ true
unfolding matches
matches_refl a =
    ground (arith, same_bytes_iff a.app_id a.app_id, same_bytes_iff a.namespace a.namespace)

toks_equal :
    (t u : KeyTok) (ts us : List KeyTok)
    → length ts ≡ length us
    → incomplete_equal_toks (t ∷ ts) (u ∷ us) ≡ true
    → KeyTok.equal (last_of t ts) (last_of u us) ≡ true
    → ◌≡◌ {A = List KeyTok} (t ∷ ts) (u ∷ us)
unfolding incomplete_equal_toks
toks_equal t u [] [] h e f = ap (λ v. v ∷ []) (tok_equal→eq t u f)
toks_equal t u [] (u' ∷ us) h e f = absurd (omega arith)
toks_equal t u (t' ∷ ts) [] h e f = absurd (omega arith)
toks_equal t u (t' ∷ ts) (u' ∷ us) h e f =
    ground (arith, tok_equal→eq t u, toks_equal t' u' ts us (omega arith))

pub incomplete_equal_toks_refl :
    (t : KeyTok) (ts : List KeyTok) → incomplete_equal_toks (t ∷ ts) (t ∷ ts) ≡ true
unfolding incomplete_equal_toks
incomplete_equal_toks_refl t [] = (same_bytes_iff t.kind t.kind).1 refl
incomplete_equal_toks_refl t (u ∷ us) =
    ground (arith, tok_equal_refl t, incomplete_equal_toks_refl u us)

pub equal→eq : (k o : Key) → equal k o ≡ true → k ≡ o
unfolding equal incomplete_equal last_tok
equal→eq k o h = ground (arith, matches→eq k.kc o.kc, toks_equal k.first o.first k.others o.others)

pub equal_refl : (k : Key) → equal k k ≡ true
unfolding equal incomplete_equal last_tok
equal_refl k = ground (
  arith,
  matches_refl k.kc,
  incomplete_equal_toks_refl k.first k.others,
  tok_equal_refl (last_of k.first k.others),
)

-- `Equal` holds of exactly the pairs of keys with the same context and the same tokens.
pub equal_iff : (k o : Key) → (equal k o ≡ true) ↔ (k ≡ o)
equal_iff k o = (equal→eq k o, λ e. rw e (equal_refl o))
