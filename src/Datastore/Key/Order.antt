-- ===== src/Datastore/Key/Order.antt =====
-- `Less` of keys and tokens: with `Equal` it orders the keys whose tokens have at most one ID.
use gae.Prelude.{
  Ordering, eq, ◌≡◌, refl, true, false, ◌||◌, List, [], ◌∷◌, All, arith, pos, eqb_ℤ, cmp_bytes,
  cmp_bytes-eq, cmp_bytes-IsOrder, same_bytes, same_bytes_iff, is_lt, is_eq, or_else, Bool-cases,
  inl, inr, IsOrder, by_part, agree, both-IsOrder, cmp_refl, cmp_list, cmp_list-IsOrder,
}
use gae.Datastore.Property.{compare_with, less_with, index_type_and_value, cmp_key}
use gae.Datastore.Property.Order.{compare_with-IsOrder, PropertyIsComparable}
use gae.Datastore.KeyTok
use gae.Datastore.KeyTok.{KeyTok, no_key}
use gae.Datastore.Key.{Key, toks, less, less_toks, equal}
use gae.Datastore.Key.Identity.{equal_iff, equal_refl, eqb_ℤ_iff}

abbrev NoKey : ⊥ → Type 0
NoKey k = Unit

no_key-IsOrder : IsOrder NoKey (cmp_key no_key no_key)
no_key-IsOrder = record {
  swapped = λ a b _ _. absurd a;
  eq_left = λ a b c _ _ _ _. absurd a;
  lt_trans = λ a b c _ _ _ _ _. absurd a;
}

id-comparable : (t : KeyTok) → PropertyIsComparable NoKey (KeyTok.id t)
unfolding KeyTok.id index_type_and_value
id-comparable t = ground (arith, tt)

abbrev pub cmp_ids : KeyTok → KeyTok → Ordering
cmp_ids t u = compare_with no_key no_key (KeyTok.id t) (KeyTok.id u)

abbrev Any : {A : Type 0} → A → Type 0
Any a = Unit

unfoldable pub cmp_tok : KeyTok → KeyTok → Ordering
cmp_tok t u = or_else (cmp_bytes t.kind u.kind) (cmp_ids t u)

cmp_tok-IsOrder : IsOrder (λ (t : KeyTok). Unit) cmp_tok
unfolding cmp_tok
cmp_tok-IsOrder =
    both-IsOrder (λ (t u : KeyTok). cmp_bytes t.kind u.kind) cmp_ids
      (by_part cmp_bytes-IsOrder (λ (t : KeyTok). Unit) (λ (t : KeyTok). t.kind) (λ _ _. tt))
      (by_part (compare_with-IsOrder NoKey no_key no_key no_key-IsOrder) (λ (t : KeyTok). Unit)
        KeyTok.id (λ t _. id-comparable t))

-- A token is below another by kind, and by ID within a kind.
tok_less-cmp : (t u : KeyTok) → KeyTok.less t u ≡ is_lt (cmp_tok t u)
unfolding KeyTok.less cmp_tok less_with
tok_less-cmp t u = ground (arith, cmp_bytes-IsOrder.swapped t.kind u.kind tt tt)

All-any : (ts : List KeyTok) → All (λ (t : KeyTok). Unit {0}) ts
All-any [] = tt
All-any (t ∷ ts) = (tt, All-any ts)

less_toks-cmp : (ts us : List KeyTok) → less_toks ts us ≡ is_lt (cmp_list cmp_tok ts us)
unfolding less_toks cmp_list
less_toks-cmp [] [] = refl
less_toks-cmp [] (u ∷ us) = ground arith
less_toks-cmp (t ∷ ts) [] = ground arith
less_toks-cmp (t ∷ ts) (u ∷ us) = ground (
  arith,
  tok_less-cmp t u,
  tok_less-cmp u t,
  cmp_tok-IsOrder.swapped t u tt tt,
  less_toks-cmp ts us,
)

unfoldable pub cmp_context : Key → Key → Ordering
cmp_context k o =
    or_else (cmp_bytes k.kc.app_id o.kc.app_id) (cmp_bytes k.kc.namespace o.kc.namespace)

unfoldable pub cmp_whole : Key → Key → Ordering
cmp_whole k o = or_else (cmp_context k o) (cmp_list cmp_tok (toks k) (toks o))

less-cmp : (k o : Key) → less k o ≡ is_lt (cmp_whole k o)
unfolding less cmp_whole cmp_context
less-cmp k o = ground (
  arith,
  cmp_bytes-IsOrder.swapped k.kc.app_id o.kc.app_id tt tt,
  cmp_bytes-IsOrder.swapped k.kc.namespace o.kc.namespace tt tt,
  less_toks-cmp (toks k) (toks o),
)

-- A string ID or an integer ID, not both: what `Valid` asks of each token.
abbrev pub HasOneId : KeyTok → Type 0
HasOneId t = (same_bytes t.string_id [] || eqb_ℤ t.int_id (pos 0)) ≡ true

abbrev pub IsSingle : Key → Type 0
IsSingle k = All HasOneId (toks k)

cmp_tok-eq : (t u : KeyTok) → HasOneId t → HasOneId u → cmp_tok t u ≡ eq → t ≡ u
unfolding cmp_tok compare_with KeyTok.id
cmp_tok-eq t u p q h = ground (
  arith,
  cmp_bytes-eq t.kind u.kind,
  cmp_bytes-eq t.string_id u.string_id,
  eqb_ℤ_iff t.int_id u.int_id,
  eqb_ℤ_iff t.int_id (pos 0),
  eqb_ℤ_iff u.int_id (pos 0),
  same_bytes_iff t.string_id [],
  same_bytes_iff u.string_id [],
)

toks-eq :
    (ts us : List KeyTok)
    → All HasOneId ts
    → All HasOneId us
    → cmp_list cmp_tok ts us ≡ eq
    → ts ≡ us
unfolding cmp_list
toks-eq [] [] p q h = refl
toks-eq [] (u ∷ us) p q h = cc
toks-eq (t ∷ ts) [] p q h = cc
toks-eq (t ∷ ts) (u ∷ us) (p, ps) (q, qs) h =
    ground (arith, cmp_tok-eq t u p q, toks-eq ts us ps qs)

cmp_whole-eq : (k o : Key) → IsSingle k → IsSingle o → cmp_whole k o ≡ eq → k ≡ o
unfolding cmp_whole cmp_context
cmp_whole-eq k o p q h = ground (
  arith,
  cmp_bytes-eq k.kc.app_id o.kc.app_id,
  cmp_bytes-eq k.kc.namespace o.kc.namespace,
  toks-eq (toks k) (toks o) p q,
)

cmp_whole-IsOrder : IsOrder IsSingle cmp_whole
unfolding cmp_whole cmp_context
cmp_whole-IsOrder =
    both-IsOrder cmp_context (λ k o. cmp_list cmp_tok (toks k) (toks o))
      (both-IsOrder _ _ (by_part cmp_bytes-IsOrder IsSingle (λ (k : Key). k.kc.app_id) (λ _ _. tt))
        (by_part cmp_bytes-IsOrder IsSingle (λ (k : Key). k.kc.namespace) (λ _ _. tt)))
      (by_part (cmp_list-IsOrder cmp_tok cmp_tok-IsOrder) IsSingle toks (λ k _. All-any (toks k)))

not-eq : (o : Ordering) → ¬ (o ≡ eq) → false ≡ is_eq o
not-eq o h = ground (arith, h)

equal-cmp : (k o : Key) → IsSingle k → IsSingle o → equal k o ≡ is_eq (cmp_whole k o)
equal-cmp k o p q = elim (Bool-cases (equal k o)) [
  | inl e ↦ rw ((equal_iff k o).0 e, equal_refl o, cmp_refl cmp_whole-IsOrder o q) refl
  | inr e ↦ rw e (not-eq (cmp_whole k o) (λ h. cc (e, (equal_iff k o).1 (cmp_whole-eq k o p q h))))
]

pub cmp_key-whole : (k o : Key) → IsSingle k → IsSingle o → cmp_key equal less k o ≡ cmp_whole k o
unfolding cmp_key
cmp_key-whole k o p q =
    ground (arith, equal-cmp k o p q, less-cmp o k, cmp_whole-IsOrder.swapped k o p q)

-- `Equal` and `Less` in turn, as a comparison of keys, order the keys with one ID a token.
pub cmp_key-IsOrder : IsOrder IsSingle (cmp_key equal less)
cmp_key-IsOrder = agree (cmp_key equal less) cmp_whole-IsOrder cmp_key-whole
