-- ===== src/Datastore/Key/Completion.antt =====
-- Validity of the keys that a Put may complete (`Valid` and `PartialValid` of key.go).
use gae.Prelude.{
  ◌≡◌, ◌≢◌, Bool, true, false, not, ◌&&◌, ◌||◌, List, [], ◌∷◌, ◌++◌, arith, ℤ, pos, eqb_ℤ, Bytes,
  same_bytes, same_bytes_iff, All,
}
use gae.Datastore.KeyTok
use gae.Datastore.KeyTok.{KeyTok}
use gae.Datastore.Key.{
  Key, KeyContext, toks, front_of, kind, parent, new_key, with_id, matches, valid, valid_toks,
  partial_valid, is_incomplete,
}
use gae.Datastore.Key.Identity.{eqb_ℤ_iff, matches→eq}
use gae.Datastore.Key.Order.{HasOneId, IsSingle}
use gae.Datastore.Key.Lineage.{
  tok_of, new_key-replaced, with_id-replaced, toks-replaced, kc-replaced,
}

-- The tests of `valid_toks` on one token.
abbrev tok_valid : Bool → KeyTok → Bool
tok_valid special t =
    not (KeyTok.is_incomplete t)
    && (special || not (KeyTok.special t))
    && not (same_bytes t.kind [])
    && (same_bytes t.string_id [] || eqb_ℤ t.int_id (pos 0))

valid_toks-snoc :
    (a : Bool) (ts : List KeyTok) (x : KeyTok)
    → valid_toks a (ts ++ x ∷ []) ≡ (valid_toks a ts && tok_valid a x)
unfolding valid_toks
valid_toks-snoc a [] x = ground arith
valid_toks-snoc a (t ∷ ts) x = ground (arith, valid_toks-snoc a ts x)

valid_toks-IsSingle : (a : Bool) (ts : List KeyTok) → valid_toks a ts ≡ true → All HasOneId ts
unfolding valid_toks
valid_toks-IsSingle a [] h = tt
valid_toks-IsSingle a (t ∷ ts) h = (ground arith, valid_toks-IsSingle a ts (ground arith))

-- The keys that `Valid` accepts are among those that the index orders.
pub valid-IsSingle : (a : Bool) (kc : KeyContext) (k : Key) → valid a kc k ≡ true → IsSingle k
unfolding valid
valid-IsSingle a kc k h = valid_toks-IsSingle a (toks k) (ground arith)

-- `with_id` changes the last token alone, so its validity is that of the tokens above and of the
-- new one.
valid-with_id :
    (kc : KeyContext) (s : Bytes) (i : ℤ) (k : Key)
    → valid false kc (with_id s i k) ≡ (
        matches kc k.kc
        && (valid_toks false (front_of k.first k.others) && tok_valid false (tok_of (kind k) s i)))
unfolding valid
valid-with_id kc s i k =
    let x = tok_of (kind k) s i in
    rw
      (
        with_id-replaced,
        kc-replaced,
        toks-replaced k.kc k.first k.others x,
        valid_toks-snoc false (front_of k.first k.others) x,
      )
      (ground arith)

valid_id :
    (k : Bytes) (i : ℤ)
    → i ≢ pos 0
    → tok_valid false (tok_of k [] i) ≡ tok_valid false (tok_of k [] (pos 1))
unfolding KeyTok.is_incomplete KeyTok.special
valid_id k i h =
    ground (arith, eqb_ℤ_iff i (pos 0), eqb_ℤ_iff (pos 1) (pos 0), same_bytes_iff [] [])

valid-new_key :
    (kc : KeyContext) (i : ℤ) (k : Key)
    → kc ≡ k.kc
    → valid false kc (new_key kc (kind k) [] i (parent k)) ≡ (
        matches kc k.kc
        && (valid_toks false (front_of k.first k.others) && tok_valid false (tok_of (kind k) [] i)))
unfolding valid
valid-new_key kc i k e =
    let x = tok_of (kind k) [] i in
    rw
      (
        e,
        new_key-replaced k (kind k) [] i,
        kc-replaced,
        toks-replaced k.kc k.first k.others x,
        valid_toks-snoc false (front_of k.first k.others) x,
      )
      (ground arith)

-- An incomplete key is good for a Put exactly if any integer ID but 0 makes it a valid key.
pub partial_valid-completes :
    (kc : KeyContext) (k : Key) (i : ℤ)
    → is_incomplete k ≡ true
    → i ≢ pos 0
    → partial_valid kc k ≡ valid false kc (with_id [] i k)
unfolding partial_valid
partial_valid-completes kc k i h z = ground (
  arith,
  h,
  valid-with_id kc [] i k,
  matches→eq kc k.kc,
  valid-new_key kc (pos 1) k,
  valid_id (kind k) i z,
)
