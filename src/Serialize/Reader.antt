-- ===== src/Serialize/Reader.antt =====
-- Reading from the front of a buffer: the value and what stays unread, or the error. A `panicIf` of
-- serialize.go, which `recoverTo` turns into the function's error, is an error here.
use gae.Prelude.{ℕ, Bool, [], ◌∷◌, Bytes, if◌then◌else◌}
use gae.Datastore.Property.{ValueError}

pub data ReadError : Type 0 where
  -- of the buffer, and of the library cmpbin
  eof bad_encoding : ReadError
  bad_context huge_key bad_id bad_id_type bad_geo_point unknown_type : ReadError
  huge_map huge_slice too_many_orders : ReadError
  bad_value : ValueError → ReadError
  -- The Go value is a nil key, which the model's properties do not hold.
  nil_key : ReadError

pub data Read (A : Type 0) : Type 0 where
  ok : A → Bytes → Read A
  err : ReadError → Read A

abbrev pub Reader : Type 0 → Type 0
Reader A = Bytes → Read A

abbrev pub continue : {A B : Type 0} → Read A → (A → Reader B) → Read B
continue (ok a rest) f = f a rest
continue (err e) f = err e

infixl 5 ◌>>=◌ ◌>>◌
abbrev pub ◌>>=◌ : {A B : Type 0} → Reader A → (A → Reader B) → Reader B
(m >>= f) buf = continue (m buf) f

abbrev pub ◌>>◌ : {A B : Type 0} → Reader A → Reader B → Reader B
m >> k = m >>= λ _. k

abbrev pub pure : {A : Type 0} → A → Reader A
pure a rest = ok a rest

abbrev pub fail : {A : Type 0} → ReadError → Reader A
fail e rest = err e

abbrev pub fail_if : Bool → ReadError → Reader (Unit {0})
fail_if c e rest = if c then err e else ok tt rest

abbrev pub read_byte : Reader ℕ
read_byte [] = err eof
read_byte (b ∷ rest) = ok b rest
