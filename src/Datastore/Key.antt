-- ===== src/Datastore/Key.antt =====
-- service/datastore/key.go: keys and their tokens.
-- A nil key is `none`. A key that is not nil has a token at least (`toks`), which is a first token
-- and a list of the others here.
pub mod Identity
pub mod Order
pub mod Lineage
pub mod Ancestry
pub mod Completion
use gae.Prelude.{
  ℕ, ◌+◌, Bool, true, false, not, ◌&&◌, Option, none, some, List, [], ◌∷◌, ◌++◌, length, ltb, ◌==◌,
  if◌then◌else◌, ℤ, pos, eqb_ℤ, is_lt, Bytes, cmp_bytes, same_bytes, leb,
}
use gae.Datastore.KeyTok
use gae.Datastore.KeyTok.{KeyTok}

pub record KeyContext : Type 0 where
  pub app_id : Bytes
  pub namespace : Bytes

pub record Key : Type 0 where
  pub kc : KeyContext
  pub first : KeyTok
  pub others : List KeyTok

abbrev pub toks : Key → List KeyTok
toks k = k.first ∷ k.others

unfoldable pub matches : KeyContext → KeyContext → Bool
matches kc o = same_bytes kc.app_id o.app_id && same_bytes kc.namespace o.namespace

unfoldable pub new_key_toks : KeyContext → List KeyTok → Option Key
new_key_toks kc [] = none
new_key_toks kc (t ∷ ts) = some (record { kc = kc; first = t; others = ts })

unfoldable pub new_key : KeyContext → Bytes → Bytes → ℤ → Option Key → Key
new_key kc kind string_id int_id none = record {
  kc = kc;
  first = record { kind = kind; int_id = int_id; string_id = string_id };
  others = [];
}
new_key kc kind string_id int_id (some parent) = record {
  kc = kc;
  first = parent.first;
  others = parent.others ++ record { kind = kind; int_id = int_id; string_id = string_id } ∷ [];
}

-- An argument of `MakeKey`: a string, an integer of one of the accepted types, or anything else.
pub data Elem : Type 0 where
  str : Bytes → Elem
  num : ℤ → Elem
  odd : Elem

pub data MakeError : Type 0 where
  odd_number_of_tokens bad_kind bad_id : MakeError

-- `MakeKey` returns a key, which may be nil, or panics.
pub data Made (A : Type 0) : Type 0 where
  made : A → Made A
  panic : MakeError → Made A

prepend_tok : KeyTok → Made (List KeyTok) → Made (List KeyTok)
prepend_tok t (made ts) = made (t ∷ ts)
prepend_tok t (panic e) = panic e

make_toks : List Elem → Made (List KeyTok)
unfolding prepend_tok
make_toks [] = made []
make_toks (str kind ∷ str s ∷ r) =
    prepend_tok (record { kind = kind; int_id = pos 0; string_id = s }) (make_toks r)
make_toks (str kind ∷ num n ∷ r) =
    prepend_tok (record { kind = kind; int_id = n; string_id = [] }) (make_toks r)
make_toks (str kind ∷ odd ∷ r) = panic bad_id
make_toks (_ ∷ _) = panic bad_kind

is_even : List Elem → Bool
is_even [] = true
is_even (e ∷ []) = false
is_even (e ∷ f ∷ r) = is_even r

key_of_toks : KeyContext → Made (List KeyTok) → Made (Option Key)
unfolding new_key_toks
key_of_toks kc (made ts) = made (new_key_toks kc ts)
key_of_toks kc (panic e) = panic e

unfoldable pub make_key : KeyContext → List Elem → Made (Option Key)
unfolding make_toks is_even key_of_toks
make_key kc [] = made none
make_key kc elems =
    if not (is_even elems) then panic odd_number_of_tokens else key_of_toks kc (make_toks elems)

abbrev pub last_of : KeyTok → List KeyTok → KeyTok
last_of t [] = t
last_of t (u ∷ us) = last_of u us

-- All but the last token.
abbrev pub front_of : KeyTok → List KeyTok → List KeyTok
front_of t [] = []
front_of t (u ∷ us) = t ∷ front_of u us

unfoldable pub last_tok : Key → KeyTok
last_tok k = last_of k.first k.others

unfoldable pub kind : Key → Bytes
unfolding last_tok
kind k = (last_tok k).kind

unfoldable pub string_id : Key → Bytes
unfolding last_tok
string_id k = (last_tok k).string_id

unfoldable pub int_id : Key → ℤ
unfolding last_tok
int_id k = (last_tok k).int_id

unfoldable pub is_incomplete : Key → Bool
unfolding last_tok
is_incomplete k = KeyTok.is_incomplete (last_tok k)

unfoldable pub valid_toks : Bool → List KeyTok → Bool
valid_toks allow_special [] = true
valid_toks allow_special (t ∷ ts) =
    if KeyTok.is_incomplete t
    then false
    else if not allow_special && KeyTok.special t
    then false
    else if same_bytes t.kind []
    then false
    else if not (same_bytes t.string_id []) && not (eqb_ℤ t.int_id (pos 0))
    then false
    else valid_toks allow_special ts

unfoldable pub valid : Bool → KeyContext → Key → Bool
valid allow_special kc k =
    if not (matches kc k.kc) then false else valid_toks allow_special (toks k)

unfoldable pub parent : Key → Option Key
unfolding new_key_toks
parent k = if leb (length (toks k)) 1 then none else new_key_toks k.kc (front_of k.first k.others)

unfoldable pub partial_valid : KeyContext → Key → Bool
partial_valid kc k =
    if is_incomplete k
    then (if not (matches kc k.kc)
        then false
        else valid false kc (new_key kc (kind k) [] (pos 1) (parent k)))
    else valid false kc k

unfoldable pub root : Key → Key
root k = if ltb 1 (length (toks k)) then record k { others = [] } else k

unfoldable pub less_toks : List KeyTok → List KeyTok → Bool
less_toks (a ∷ as') (b ∷ bs) =
    let rest = less_toks as' bs in
    if KeyTok.less a b then true else if KeyTok.less b a then false else rest
less_toks as' bs = ltb (length as') (length bs)

unfoldable pub less : Key → Key → Bool
less k other =
    if is_lt (cmp_bytes k.kc.app_id other.kc.app_id)
    then true
    else if is_lt (cmp_bytes other.kc.app_id k.kc.app_id)
    then false
    else if is_lt (cmp_bytes k.kc.namespace other.kc.namespace)
    then true
    else if is_lt (cmp_bytes other.kc.namespace k.kc.namespace)
    then false
    else less_toks (toks k) (toks other)

-- Every token of the second list is the token at its place in the first.
unfoldable pub has_prefix : List KeyTok → List KeyTok → Bool
has_prefix ts [] = true
has_prefix [] (u ∷ us) = false
has_prefix (t ∷ ts) (u ∷ us) = if not (KeyTok.equal u t) then false else has_prefix ts us

unfoldable pub has_ancestor : Key → Key → Bool
has_ancestor k other =
    if not (matches k.kc other.kc)
    then false
    else if ltb (length (toks k)) (length (toks other))
    then false
    else has_prefix (toks k) (toks other)

-- The loop of `IncompleteEqual`, over token lists of one length.
unfoldable pub incomplete_equal_toks : List KeyTok → List KeyTok → Bool
incomplete_equal_toks (t ∷ []) (u ∷ us) = same_bytes t.kind u.kind
incomplete_equal_toks (t ∷ ts) (u ∷ us) =
    let rest = incomplete_equal_toks ts us in if not (KeyTok.equal t u) then false else rest
incomplete_equal_toks ts us = true

unfoldable pub incomplete_equal : Key → Key → Bool
incomplete_equal k other =
    let ret = matches k.kc other.kc && (length (toks k) == length (toks other)) in
    if ret then incomplete_equal_toks (toks k) (toks other) else ret

unfoldable pub equal : Key → Key → Bool
equal k other = incomplete_equal k other && KeyTok.equal (last_tok k) (last_tok other)

unfoldable pub incomplete : Key → Key
incomplete k = if is_incomplete k then k else new_key k.kc (kind k) [] (pos 0) (parent k)

unfoldable pub with_id : Bytes → ℤ → Key → Key
with_id s i k =
    if same_bytes (string_id k) s && eqb_ℤ (int_id k) i
    then k
    else new_key k.kc (kind k) s i (parent k)

unfoldable pub split : Key → Bytes × Bytes × List KeyTok
split k = (k.kc.app_id, k.kc.namespace, toks k)

sum_toks : List KeyTok → ℕ
sum_toks [] = 0
sum_toks (t ∷ ts) =
    length t.kind
    + (if not (same_bytes t.string_id []) then length t.string_id else 8)
    + sum_toks ts

unfoldable pub estimate_size : Key → ℕ
unfolding sum_toks
estimate_size k = length k.kc.app_id + length k.kc.namespace + sum_toks (toks k)
