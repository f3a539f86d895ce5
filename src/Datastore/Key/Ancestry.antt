-- ===== src/Datastore/Key/Ancestry.antt =====
-- `HasAncestor` of key.go against the chain of parents.
use gae.Prelude.{
  ◌≡◌, refl, sym, ◌∙◌, ◌↔◌, true, some, List, [], ◌∷◌, ◌++◌, length-append, arith, ap, Bool-cases,
  inl, inr,
}
use mathlib.Core.List.{append_assoc, append-nil}
use gae.Datastore.KeyTok
use gae.Datastore.KeyTok.{KeyTok}
use gae.Datastore.Key.{
  Key, KeyContext, toks, last_of, parent, new_key_toks, has_ancestor, has_prefix,
}
use gae.Datastore.Key.Identity.{tok_equal→eq, tok_equal_refl, matches→eq, matches_refl}
use gae.Datastore.Key.Lineage.{front_of-snoc, front-last}

-- `Ancestor k o`: `o` is `k` or an ancestor of the parent of `k`.
pub data Ancestor : Key → Key → Type 0 where
  itself : (k : Key) → Ancestor k k
  above : (k p o : Key) → parent k ≡ some p → Ancestor p o → Ancestor k o

prefix_append : (ts r : List KeyTok) → has_prefix (ts ++ r) ts ≡ true
unfolding has_prefix
prefix_append [] [] = refl
prefix_append [] (x ∷ r) = refl
prefix_append (t ∷ ts) r = ground (arith, tok_equal_refl t, prefix_append ts r)

prefix→rest : (ts us : List KeyTok) → has_prefix ts us ≡ true → (r : List KeyTok) × (ts ≡ us ++ r)
unfolding has_prefix
prefix→rest ts [] h = (ts, refl)
prefix→rest [] (u ∷ us) h = absurd (cc)
prefix→rest (t ∷ ts) (u ∷ us) h = elim (Bool-cases (KeyTok.equal u t)) [
  | inl e ↦
      let (r, q) = prefix→rest ts us (ground arith) in (r, ground (arith, tok_equal→eq u t e, q))
  | inr e ↦ absurd (ground arith)
]

-- `k` has the context of `o`, and the tokens of `o` and then others.
abbrev Extends : Key → Key → Type 0
Extends k o = (k.kc ≡ o.kc) × ((r : List KeyTok) × (toks k ≡ toks o ++ r))

extends→has_ancestor : (k o : Key) → Extends k o → has_ancestor k o ≡ true
unfolding has_ancestor
extends→has_ancestor k o (c, (r, e)) =
    rw (c, e)
      (ground (arith, matches_refl o.kc, length-append (toks o) r, prefix_append (toks o) r))

has_ancestor→extends : (k o : Key) → has_ancestor k o ≡ true → Extends k o
unfolding has_ancestor
has_ancestor→extends k o h =
    (matches→eq k.kc o.kc (ground arith), prefix→rest (toks k) (toks o) (ground arith))

Ancestor-trans : {k p o : Key} → Ancestor k p → Ancestor p o → Ancestor k o
Ancestor-trans (itself k) b = b
Ancestor-trans (above k q p h a) b = above k q _ h (Ancestor-trans a b)

parent-Extends : (k p : Key) → parent k ≡ some p → Extends k p
unfolding parent new_key_toks
parent-Extends k p h = go k.kc k.first k.others h
  where
    go :
        (kc : KeyContext) (t : KeyTok) (ts : List KeyTok)
        → parent (record { kc = kc; first = t; others = ts }) ≡ some p
        → Extends (record { kc = kc; first = t; others = ts }) p
    go kc t [] h = absurd (cc)
    go kc t (u ∷ us) h = (ground arith, (last_of u us ∷ [], ground (arith, front-last u us)))

Ancestor→extends : {k o : Key} → Ancestor k o → Extends k o
Ancestor→extends (itself k) = (refl, ([], sym (append-nil (toks k))))
Ancestor→extends (above k p o h a) =
    let (c, (r, e)) = parent-Extends k p h in
    let (c', (r', e')) = Ancestor→extends a in
    (c ∙ c', (r' ++ r, e ∙ ap (λ l. l ++ r) e' ∙ append_assoc (toks o) r' r))

extended : Key → List KeyTok → Key
extended o r = record o { others = o.others ++ r }

parent-extended : (o : Key) (x : KeyTok) → parent (extended o (x ∷ [])) ≡ some o
unfolding parent extended new_key_toks
parent-extended o x = rw (front_of-snoc, length-append) (ground arith)

extended-Ancestor : (r : List KeyTok) (o : Key) → Ancestor (extended o r) o
unfolding extended
extended-Ancestor [] o = rw append-nil (itself o)
extended-Ancestor (x ∷ r) o =
    Ancestor-trans (rw append_assoc at (extended-Ancestor r (extended o (x ∷ []))))
      (above _ o o (parent-extended o x) (itself o))

Extends-Ancestor : (k o : Key) → Extends k o → Ancestor k o
unfolding extended
Extends-Ancestor k o (c, (r, e)) =
    let same : extended o r ≡ k = ground (arith, c, e) in rw same at (extended-Ancestor r o)

-- `HasAncestor` holds exactly if the other key is the key itself or is met on the way up its parents.
pub has_ancestor_iff : (k o : Key) → (has_ancestor k o ≡ true) ↔ Ancestor k o
has_ancestor_iff k o = (
  λ h. Extends-Ancestor k o (has_ancestor→extends k o h),
  λ a. extends→has_ancestor k o (Ancestor→extends a),
)
