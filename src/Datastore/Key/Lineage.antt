-- ===== src/Datastore/Key/Lineage.antt =====
-- `Parent`, `NewKey`, `WithID` and `IncompleteEqual` of key.go agree on what the lineage of a key is.
use gae.Prelude.{
  suc, ◌≡◌, refl, sym, ◌∙◌, ◌↔◌, true, ◌&&◌, some, List, [], ◌∷◌, ◌++◌, length, length-append,
  arith, ℤ, eqb_ℤ, Bytes, same_bytes, same_bytes_iff, Bool-cases, inl, inr, ap,
}
use gae.Datastore.KeyTok.{KeyTok}
use gae.Datastore.Key.{
  Key, KeyContext, toks, last_of, front_of, kind, string_id, int_id, parent, new_key, with_id,
  incomplete_equal, incomplete_equal_toks,
}
use gae.Datastore.Key.Identity.{eqb_ℤ_iff, tok_equal→eq, tok_equal_refl, matches→eq, matches_refl}

pub front_of-snoc : (t x : KeyTok) (ts : List KeyTok) → front_of t (ts ++ x ∷ []) ≡ t ∷ ts
front_of-snoc t x [] = refl
front_of-snoc t x (u ∷ us) = ap (λ r. t ∷ r) (front_of-snoc u x us)

pub last_of-snoc : (t x : KeyTok) (ts : List KeyTok) → last_of t (ts ++ x ∷ []) ≡ x
last_of-snoc t x [] = refl
last_of-snoc t x (u ∷ us) = last_of-snoc u x us

pub front-last :
    (t : KeyTok) (ts : List KeyTok)
    → ◌≡◌ {A = List KeyTok} (front_of t ts ++ last_of t ts ∷ []) (t ∷ ts)
front-last t [] = refl
front-last t (u ∷ us) = ap (λ r. t ∷ r) (front-last u us)

-- The parent of a child is the key that it was made from.
pub parent-new_key :
    (p : Key) (kind' s : Bytes) (i : ℤ) → parent (new_key p.kc kind' s i (some p)) ≡ some p
unfolding parent new_key
parent-new_key p kind' s i = rw (front_of-snoc, length-append) (ground arith)

abbrev pub tok_of : Bytes → Bytes → ℤ → KeyTok
tok_of kind' s i = record { kind = kind'; int_id = i; string_id = s }

-- The key whose last token is replaced.
abbrev pub replaced : KeyContext → KeyTok → List KeyTok → KeyTok → Key
replaced kc t [] x = record { kc = kc; first = x; others = [] }
replaced kc t (u ∷ us) x = record { kc = kc; first = t; others = front_of u us ++ x ∷ [] }

pub new_key-replaced :
    (k : Key) (kind' s : Bytes) (i : ℤ)
    → new_key k.kc kind' s i (parent k) ≡ replaced k.kc k.first k.others (tok_of kind' s i)
unfolding parent new_key
new_key-replaced k kind' s i = go k.kc k.first k.others
  where
    go :
        (kc : KeyContext) (t : KeyTok) (ts : List KeyTok)
        → new_key kc kind' s i (parent (record { kc = kc; first = t; others = ts }))
          ≡ replaced kc t ts (tok_of kind' s i)
    go kc t [] = refl
    go kc t (u ∷ us) = ground arith

replaced-last :
    (kc : KeyContext) (t : KeyTok) (ts : List KeyTok)
    → replaced kc t ts (last_of t ts) ≡ record { kc = kc; first = t; others = ts }
replaced-last kc t [] = refl
replaced-last kc t (u ∷ us) = ap (λ r. record { kc = kc; first = t; others = r }) (front-last u us)

-- A key is rebuilt from its parent and its last token.
pub new_key-parent : (k : Key) → new_key k.kc (kind k) (string_id k) (int_id k) (parent k) ≡ k
unfolding kind string_id int_id
new_key-parent k =
    new_key-replaced k (kind k) (string_id k) (int_id k) ∙ replaced-last k.kc k.first k.others

pub with_id-replaced :
    (s : Bytes) (i : ℤ) (k : Key)
    → with_id s i k ≡ replaced k.kc k.first k.others (tok_of (kind k) s i)
unfolding with_id
with_id-replaced s i k = elim (Bool-cases (same_bytes (string_id k) s && eqb_ℤ (int_id k) i)) [
  | inl e ↦ rw e (
      sym (new_key-parent k)
      ∙ cc (
        new_key-replaced k (kind k) s i,
        (same_id (string_id k) s (int_id k) i e).0,
        (same_id (string_id k) s (int_id k) i e).1,
      ))
  | inr e ↦ rw e (new_key-replaced k (kind k) s i)
]
  where
    same_id : (a b : Bytes) (m n : ℤ) → (same_bytes a b && eqb_ℤ m n) ≡ true → (a ≡ b) × (m ≡ n)
    same_id a b m n e = ground (arith, same_bytes_iff a b, eqb_ℤ_iff m n)

pub toks-replaced :
    (kc : KeyContext) (t : KeyTok) (ts : List KeyTok) (x : KeyTok)
    → toks (replaced kc t ts x) ≡ front_of t ts ++ x ∷ []
toks-replaced kc t [] x = refl
toks-replaced kc t (u ∷ us) x = refl

key_of_toks-eq :
    (k : Key) (u : KeyTok) (us : List KeyTok)
    → toks k ≡ u ∷ us
    → k ≡ record { kc = k.kc; first = u; others = us }
key_of_toks-eq k u us e = ground (arith, e)

pub kc-replaced :
    (kc : KeyContext) (t : KeyTok) (ts : List KeyTok) (x : KeyTok) → (replaced kc t ts x).kc ≡ kc
kc-replaced kc t [] x = refl
kc-replaced kc t (u ∷ us) x = refl

-- The loop of `incomplete_equal` lets the two lists differ in the last ID at most.
loop-front :
    (t u : KeyTok) (ts us : List KeyTok)
    → length ts ≡ length us
    → incomplete_equal_toks (t ∷ ts) (u ∷ us) ≡ true
    → front_of t ts
        ++ tok_of (last_of t ts).kind (last_of u us).string_id (last_of u us).int_id ∷ []
      ≡ u ∷ us
unfolding incomplete_equal_toks
loop-front t u [] [] h e = ground (arith, same_bytes_iff t.kind u.kind)
loop-front t u [] (u' ∷ us) h e = absurd (omega arith)
loop-front t u (t' ∷ ts) [] h e = absurd (omega arith)
loop-front t u (t' ∷ ts) (u' ∷ us) h e =
    ground (arith, tok_equal→eq t u, loop-front t' u' ts us (omega arith))

front-loop :
    (t x : KeyTok) (ts : List KeyTok)
    → x.kind ≡ (last_of t ts).kind
    → incomplete_equal_toks (t ∷ ts) (front_of t ts ++ x ∷ []) ≡ true
unfolding incomplete_equal_toks
front-loop t x [] e = ground (arith, same_bytes_iff t.kind x.kind)
front-loop t x (u ∷ []) e = ground (arith, tok_equal_refl t, front-loop u x [] e)
front-loop t x (u ∷ v ∷ us) e = ground (arith, tok_equal_refl t, front-loop u x (v ∷ us) e)

length-front :
    (t x : KeyTok) (ts : List KeyTok) → length (front_of t ts ++ x ∷ []) ≡ suc (length ts)
length-front t x [] = refl
length-front t x (u ∷ us) = ap suc (length-front u x us)

with_id-other : (k o : Key) → incomplete_equal k o ≡ true → with_id (string_id o) (int_id o) k ≡ o
unfolding incomplete_equal kind string_id int_id
with_id-other k o h =
    with_id-replaced (string_id o) (int_id o) k
    ∙ ground (
      arith,
      matches→eq k.kc o.kc,
      loop-front k.first o.first k.others o.others,
      toks-replaced k.kc k.first k.others (tok_of (kind k) (string_id o) (int_id o)),
      kc-replaced k.kc k.first k.others (tok_of (kind k) (string_id o) (int_id o)),
      key_of_toks-eq (replaced k.kc k.first k.others (tok_of (kind k) (string_id o) (int_id o)))
          o.first o.others,
    )

incomplete_equal-with_id : (s : Bytes) (i : ℤ) (k : Key) → incomplete_equal k (with_id s i k) ≡ true
unfolding incomplete_equal kind
incomplete_equal-with_id s i k =
    let x = tok_of (kind k) s i in
    rw (with_id-replaced, kc-replaced, toks-replaced k.kc k.first k.others x)
      (ground (
        arith,
        matches_refl k.kc,
        length-front k.first x k.others,
        front-loop k.first x k.others refl,
      ))

-- Two keys are equal but for the last ID exactly if `WithID` with the ID of the second takes the
-- first to the second.
pub incomplete_equal_iff :
    (k o : Key) → (incomplete_equal k o ≡ true) ↔ (with_id (string_id o) (int_id o) k ≡ o)
incomplete_equal_iff k o =
    (with_id-other k o, λ e. rw e at (incomplete_equal-with_id (string_id o) (int_id o) k))
