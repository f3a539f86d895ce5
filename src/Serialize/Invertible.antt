-- ===== src/Serialize/Invertible.antt =====
-- service/datastore/serialize/invertible.go: a buffer that can invert the bytes it takes and gives. The
-- buffer below it is a `bytes.Buffer`, whose writes return no error.
pub mod RoundTrip
pub mod Order
use gae.Prelude.{
  ℕ, ◌+◌, ◌-◌, ◌<◌, Bool, true, false, Option, none, some, List, [], ◌∷◌, ◌++◌, map, length,
  if◌then◌else◌, Bytes, All,
}

-- The bytes not read yet, and whether to invert.
pub record InvertibleBuffer : Type 0 where
  pub unread : Bytes
  pub invert : Bool

pub data ReadError : Type 0 where
  eof : ReadError

abbrev pub IsByte : ℕ → Type 0
IsByte b = b < 256

-- `b ^ 0xFF` on a byte.
abbrev pub inverted : ℕ → ℕ
inverted b = 255 - b

unfoldable pub invert_all : Bytes → Bytes
invert_all [] = []
invert_all (b ∷ bs) = inverted b ∷ invert_all bs

unfoldable pub invertible : Bytes → InvertibleBuffer
invertible b = record { unread = b; invert = false }

unfoldable pub set_invert : Bool → InvertibleBuffer → InvertibleBuffer
set_invert on ib = record ib { invert = on }

unfoldable pub put_byte : ℕ → InvertibleBuffer → InvertibleBuffer
put_byte b ib = record ib { unread = ib.unread ++ b ∷ [] }

unfoldable pub write_byte : ℕ → InvertibleBuffer → InvertibleBuffer
write_byte b ib = put_byte (if ib.invert then inverted b else b) ib

-- The loop of `Write` and of `WriteString` in an inverted buffer.
unfoldable pub put_inverted : Bytes → InvertibleBuffer → InvertibleBuffer
put_inverted [] ib = ib
put_inverted (b ∷ bs) ib = put_inverted bs (put_byte (inverted b) ib)

-- `Write`, and `WriteString` of the string's bytes: the number of bytes written, and the buffer.
unfoldable pub write : Bytes → InvertibleBuffer → ℕ × InvertibleBuffer
write bs ib =
    if ib.invert
    then (length bs, put_inverted bs ib)
    else (length bs, record ib { unread = ib.unread ++ bs })

-- `copy` of the unread bytes into a slice: the slice, the number of bytes, and what stays unread.
unfoldable pub fill : Bytes → Bytes → Bytes × ℕ × Bytes
fill [] unread = ([], 0, unread)
fill (b ∷ bs) [] = (b ∷ bs, 0, [])
fill (b ∷ bs) (c ∷ unread) = let (filled, n, rest) = fill bs unread in (c ∷ filled, n + 1, rest)

abbrev pub read_error : Bytes → Bytes → Option ReadError
read_error [] unread = none
read_error (b ∷ bs) [] = some eof
read_error (b ∷ bs) (c ∷ unread) = none

-- `Read` into a slice that holds `bs`: what the slice holds then, the number of bytes, the error.
unfoldable pub read : Bytes → InvertibleBuffer → Bytes × ℕ × Option ReadError × InvertibleBuffer
read bs ib =
    let (filled, n, rest) = fill bs ib.unread in
    (
      if ib.invert then invert_all filled else filled,
      n,
      read_error bs ib.unread,
      record ib { unread = rest },
    )

-- `ReadByte` of the buffer below: at its end the byte is 0.
abbrev pub first_byte : Bytes → ℕ × Option ReadError × Bytes
first_byte [] = (0, some eof, [])
first_byte (c ∷ rest) = (c, none, rest)

-- At the end of the buffer `ReadByte` returns the byte 0, inverted where the buffer inverts.
unfoldable pub read_byte : InvertibleBuffer → ℕ × Option ReadError × InvertibleBuffer
read_byte ib =
    let (ret, error, rest) = first_byte ib.unread in
    (if ib.invert then inverted ret else ret, error, record ib { unread = rest })
