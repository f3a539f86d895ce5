-- ===== src/Serialize/Cmpbin.antt =====
-- The library cmpbin (go.chromium.org/luci/common/data/cmpbin), as an interface: what serialize.go
-- calls of it, and what its documentation says of that. An encoding is read back in front of
-- anything, and encodings compare as bytes in the order of the values.
pub mod Unary
use gae.Prelude.{
  ℕ, ◌≡◌, ◌≢◌, Bool, true, false, List, [], ◌∷◌, ◌++◌, ℤ, pos, Bytes, Ordering, cmp_ℤ, cmp_bytes,
  or_else, zero,
}
use gae.Datastore.Float.{Float64, IsNumber, cmp_float}
use gae.Serialize.Reader.{Reader, Read, ok}

-- The reader reads back what is written, whatever follows.
abbrev pub ReadsBack : {A : Type 0} → (A → Bytes) → Reader A → Type 0
ReadsBack {A} write read = (a : A) (rest : Bytes) → read (write a ++ rest) ≡ ok a rest

-- The encodings of two values compare as the values do, and where these are equal what follows decides.
abbrev pub KeepsOrder : {A : Type 0} → (A → Type 0) → (A → Bytes) → (A → A → Ordering) → Type 0
KeepsOrder {A} P write cmp =
    (a b : A) (r s : Bytes)
    → P a
    → P b
    → cmp_bytes (write a ++ r) (write b ++ s) ≡ or_else (cmp a b) (cmp_bytes r s)

abbrev pub Any : {A : Type 0} → A → Type 0
Any a = Unit

-- No NaN, and not the negative zero, which has an encoding of its own.
abbrev pub IsPlain : Float64 → Type 0
IsPlain f = IsNumber f × ((f.negative ≡ true) → f.magnitude ≢ 0)

-- `WriteBytes` and `ReadBytes` are `write_string` and `read_string`, as one encoding serves both.
pub record Cmpbin : Type 0 where
  pub write_string : Bytes → Bytes
  pub write_int : ℤ → Bytes
  pub write_uint : ℕ → Bytes
  pub write_float64 : Float64 → Bytes
  pub read_string : Reader Bytes
  pub read_int : Reader ℤ
  pub read_uint : Reader ℕ
  pub read_float64 : Reader Float64
  pub string_back : ReadsBack write_string read_string
  pub int_back : ReadsBack write_int read_int
  pub uint_back : ReadsBack write_uint read_uint
  pub float64_back : ReadsBack write_float64 read_float64
  pub string_order : KeepsOrder Any write_string cmp_bytes
  pub int_order : KeepsOrder Any write_int cmp_ℤ
  pub float64_order : KeepsOrder IsPlain write_float64 cmp_float
