-- ===== src/Serialize/Invertible/RoundTrip.antt =====
-- What is written under an inversion is read back under the same one.
use gae.Prelude.{
  ℕ, suc, ◌≡◌, refl, sym, ap, ◌∙◌, Bool, true, false, Option, none, List, [], ◌∷◌, ◌++◌, length,
  if◌then◌else◌, Bytes, All, arith, map,
}
use mathlib.Core.List.{append_assoc, append-nil}
use gae.Serialize.Invertible.{
  InvertibleBuffer, ReadError, IsByte, inverted, invert_all, invertible, set_invert, put_byte,
  put_inverted, write, fill, read, read_error,
}

-- A part of a message: whether it is inverted, and its bytes.
abbrev pub Part : Type 0
Part = Bool × Bytes

abbrev pub bytes_of : Part → Bytes
bytes_of (on, bs) = bs

abbrev pub IsPart : Part → Type 0
IsPart (on, bs) = All IsByte bs

-- `SetInvert` and `Write` for each part.
unfoldable pub write_parts : List Part → InvertibleBuffer → InvertibleBuffer
write_parts [] ib = ib
write_parts ((on, bs) ∷ parts) ib =
    let (n, rest) = write bs (set_invert on ib) in write_parts parts rest

-- A new slice, of zeros.
unfoldable pub blank : Bytes → Bytes
blank [] = []
blank (b ∷ bs) = 0 ∷ blank bs

-- `SetInvert` and `Read` into a new slice for each part: the slices, with the errors.
unfoldable pub read_parts : List Part → InvertibleBuffer → List (Bytes × Option ReadError)
read_parts [] ib = []
read_parts ((on, bs) ∷ parts) ib =
    let (filled, n, error, rest) = read (blank bs) (set_invert on ib) in
    (filled, error) ∷ read_parts parts rest

unfoldable encoded : List Part → Bytes
encoded [] = []
encoded ((on, bs) ∷ parts) = (if on then invert_all bs else bs) ++ encoded parts

put_inverted-unread :
    (bs : Bytes) (ib : InvertibleBuffer)
    → put_inverted bs ib ≡ record ib { unread = ib.unread ++ invert_all bs }
unfolding put_inverted put_byte invert_all
put_inverted-unread [] ib = ap (λ u. record ib { unread = u }) (sym (append-nil ib.unread))
put_inverted-unread (b ∷ bs) ib =
    rw (put_inverted-unread bs (put_byte (inverted b) ib)) (
      ap (λ u. record ib { unread = u }) (append_assoc ib.unread (inverted b ∷ []) (invert_all bs)))

write_parts-unread :
    (parts : List Part) (ib : InvertibleBuffer)
    → (write_parts parts ib).unread ≡ ib.unread ++ encoded parts
unfolding write_parts write set_invert encoded
write_parts-unread [] ib = sym (append-nil ib.unread)
write_parts-unread ((true, bs) ∷ parts) ib =
    let on = record ib { invert = true } in
    write_parts-unread parts (put_inverted bs on)
    ∙ ap (λ b. b.unread ++ encoded parts) (put_inverted-unread bs on)
    ∙ append_assoc ib.unread (invert_all bs) (encoded parts)
write_parts-unread ((false, bs) ∷ parts) ib =
    write_parts-unread parts _ ∙ append_assoc ib.unread bs (encoded parts)

fill-append :
    (bs cs rest : Bytes)
    → length cs ≡ length bs
    → fill (blank bs) (cs ++ rest) ≡ (cs, length bs, rest)
unfolding fill blank
fill-append [] [] rest h = refl
fill-append [] (c ∷ cs) rest h = ground (arith, h)
fill-append (b ∷ bs) [] rest h = ground (arith, h)
fill-append (b ∷ bs) (c ∷ cs) rest h =
    rw (fill-append bs cs rest (omega (arith, h))) (ap (λ (n : ℕ). (c ∷ cs, n, rest)) (omega arith))

length-invert_all : (bs : Bytes) → length (invert_all bs) ≡ length bs
unfolding invert_all
length-invert_all [] = refl
length-invert_all (b ∷ bs) = ap suc (length-invert_all bs)

invert_all-invert_all : (bs : Bytes) → All IsByte bs → invert_all (invert_all bs) ≡ bs
unfolding invert_all
invert_all-invert_all [] h = refl
invert_all-invert_all (b ∷ bs) (h, hs) = ground (arith, invert_all-invert_all bs hs)

no_error : (bs cs rest : Bytes) → length cs ≡ length bs → read_error (blank bs) (cs ++ rest) ≡ none
unfolding blank
no_error [] cs rest h = refl
no_error (b ∷ bs) [] rest h = ground (arith, h)
no_error (b ∷ bs) (c ∷ cs) rest h = refl

read_parts-encoded :
    (parts : List Part) (ib : InvertibleBuffer)
    → All IsPart parts
    → ib.unread ≡ encoded parts
    → read_parts parts ib ≡ map (λ p. (bytes_of p, none)) parts
unfolding read_parts read set_invert encoded
read_parts-encoded [] ib p h = refl
read_parts-encoded ((true, bs) ∷ parts) ib (p, ps) h =
    rw
      (
        h,
        fill-append bs (invert_all bs) (encoded parts) (length-invert_all bs),
        no_error bs (invert_all bs) (encoded parts) (length-invert_all bs),
        invert_all-invert_all bs p,
        read_parts-encoded parts (record { unread = encoded parts; invert = true }) ps refl,
      )
      refl
read_parts-encoded ((false, bs) ∷ parts) ib (p, ps) h =
    rw
      (
        h,
        fill-append bs bs (encoded parts) refl,
        no_error bs bs (encoded parts) refl,
        read_parts-encoded parts (record { unread = encoded parts; invert = false }) ps refl,
      )
      refl

-- Parts written to a new buffer one after the other, each inverted or not, are read back with no
-- error by reads of their lengths under the same inversions.
pub read_parts-write_parts :
    (parts : List Part)
    → All IsPart parts
    → read_parts parts (write_parts parts (invertible [])) ≡ map (λ p. (bytes_of p, none)) parts
unfolding invertible
read_parts-write_parts parts p =
    read_parts-encoded parts (write_parts parts (invertible [])) p
      (write_parts-unread parts (invertible []))
