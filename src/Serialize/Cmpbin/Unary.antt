-- ===== src/Serialize/Cmpbin/Unary.antt =====
-- An implementation of the interface, which shows that it can be met: numbers in unary.
use gae.Prelude.{
  ℕ, zero, suc, ◌≡◌, ◌≢◌, refl, Bool, true, false, [], ◌∷◌, ◌++◌, ℤ, pos, negsuc, Bytes, Ordering,
  lt, gt, cmp_ℤ, cmp_bytes, or_else, arith, if◌then◌else◌, compare, ◌==◌,
}
use gae.Datastore.Float.{Float64, cmp_float, cmp_float-key, float_key, signed}
use gae.Serialize.Reader.{Reader, Read, ok, err, eof}
use gae.Serialize.Cmpbin.{Cmpbin, ReadsBack, KeepsOrder, Any, IsPlain}

-- `n` times 1 and then 0, and the other way round.
unfoldable up : ℕ → Bytes
up zero = 0 ∷ []
up (suc n) = 1 ∷ up n

unfoldable down : ℕ → Bytes
down zero = 1 ∷ []
down (suc n) = 0 ∷ down n

abbrev next : Read ℕ → Read ℕ
next (ok n rest) = ok (suc n) rest
next (err e) = err e

unfoldable read_count : ℕ → Reader ℕ
read_count b [] = err eof
read_count b (c ∷ rest) = let more = read_count b rest in if c == b then next more else ok 0 rest

up-back : ReadsBack up (read_count 1)
unfolding up read_count
up-back zero rest = refl
up-back (suc n) rest = rw (up-back n rest) refl

down-back : ReadsBack down (read_count 0)
unfolding down read_count
down-back zero rest = refl
down-back (suc n) rest = rw (down-back n rest) refl

up-order : KeepsOrder Any up compare
unfolding up cmp_bytes
up-order zero zero r s p q = refl
up-order zero (suc n) r s p q = ground arith
up-order (suc m) zero r s p q = ground arith
up-order (suc m) (suc n) r s p q = ground (arith, up-order m n r s p q)

down-order : KeepsOrder Any down (λ m n. compare n m)
unfolding down cmp_bytes
down-order zero zero r s p q = refl
down-order zero (suc n) r s p q = ground arith
down-order (suc m) zero r s p q = ground arith
down-order (suc m) (suc n) r s p q = ground (arith, down-order m n r s p q)

unfoldable write_signed : Bool → ℕ → Bytes
write_signed true n = 0 ∷ down n
write_signed false n = 1 ∷ up n

abbrev negate : Bool → Read ℕ → Read (Bool × ℕ)
negate s (ok n rest) = ok (s, n) rest
negate s (err e) = err e

unfoldable read_signed : Reader (Bool × ℕ)
read_signed [] = err eof
read_signed (zero ∷ rest) = negate true (read_count 0 rest)
read_signed (suc c ∷ rest) = negate false (read_count 1 rest)

signed-back :
    (s : Bool) (n : ℕ) (rest : Bytes) → read_signed (write_signed s n ++ rest) ≡ ok (s, n) rest
unfolding write_signed read_signed
signed-back true n rest = rw (down-back n rest) refl
signed-back false n rest = rw (up-back n rest) refl

abbrev cmp_signed : Bool → ℕ → Bool → ℕ → Ordering
cmp_signed true m true n = compare n m
cmp_signed true m false n = lt
cmp_signed false m true n = gt
cmp_signed false m false n = compare m n

signed-order :
    (s t : Bool) (m n : ℕ) (r q : Bytes)
    → cmp_bytes (write_signed s m ++ r) (write_signed t n ++ q)
      ≡ or_else (cmp_signed s m t n) (cmp_bytes r q)
unfolding write_signed cmp_bytes
signed-order true true m n r q = down-order m n r q tt tt
signed-order true false m n r q = refl
signed-order false true m n r q = refl
signed-order false false m n r q = up-order m n r q tt tt

unfoldable write_string : Bytes → Bytes
write_string [] = 0 ∷ []
write_string (c ∷ s) = 1 ∷ c ∷ write_string s

abbrev put : ℕ → Read Bytes → Read Bytes
put c (ok s rest) = ok (c ∷ s) rest
put c (err e) = err e

unfoldable read_string : Reader Bytes
read_string [] = err eof
read_string (zero ∷ rest) = ok [] rest
read_string (suc b ∷ []) = err eof
read_string (suc b ∷ c ∷ rest) = put c (read_string rest)

string-back : ReadsBack write_string read_string
unfolding write_string read_string
string-back [] rest = refl
string-back (c ∷ s) rest = rw (string-back s rest) refl

string-order : KeepsOrder Any write_string cmp_bytes
unfolding write_string cmp_bytes
string-order [] [] r s p q = refl
string-order [] (d ∷ b) r s p q = refl
string-order (c ∷ a) [] r s p q = refl
string-order (c ∷ a) (d ∷ b) r s p q = ground (arith, string-order a b r s p q)

write_int : ℤ → Bytes
write_int (pos n) = write_signed false n
write_int (negsuc n) = write_signed true n

abbrev to_int : Read (Bool × ℕ) → Read ℤ
to_int (ok (true, n) rest) = ok (negsuc n) rest
to_int (ok (false, n) rest) = ok (pos n) rest
to_int (err e) = err e

read_int : Reader ℤ
read_int buf = to_int (read_signed buf)

int-back : ReadsBack write_int read_int
unfolding write_int read_int
int-back (pos n) rest = rw (signed-back false n rest) refl
int-back (negsuc n) rest = rw (signed-back true n rest) refl

int-order : KeepsOrder Any write_int cmp_ℤ
unfolding write_int
int-order (pos m) (pos n) r s p q = rw (signed-order false false m n r s) (ground arith)
int-order (pos m) (negsuc n) r s p q = rw (signed-order false true m n r s) (ground arith)
int-order (negsuc m) (pos n) r s p q = rw (signed-order true false m n r s) (ground arith)
int-order (negsuc m) (negsuc n) r s p q = rw (signed-order true true m n r s) (ground arith)

write_float : Float64 → Bytes
write_float f = write_signed f.negative f.magnitude

abbrev to_float : Read (Bool × ℕ) → Read Float64
to_float (ok (s, n) rest) = ok (record { negative = s; magnitude = n }) rest
to_float (err e) = err e

read_float : Reader Float64
read_float buf = to_float (read_signed buf)

float-back : ReadsBack write_float read_float
unfolding write_float read_float
float-back f rest = rw (signed-back f.negative f.magnitude rest) refl

signed-cmp :
    (s t : Bool) (m n : ℕ)
    → (s ≡ true → m ≢ 0)
    → (t ≡ true → n ≢ 0)
    → cmp_ℤ (signed s m) (signed t n) ≡ cmp_signed s m t n
unfolding signed
signed-cmp true t zero n p q = absurd (p refl refl)
signed-cmp s true m zero p q = absurd (q refl refl)
signed-cmp true true (suc m) (suc n) p q = ground arith
signed-cmp true false (suc m) n p q = ground arith
signed-cmp false true m (suc n) p q = ground arith
signed-cmp false false m n p q = ground arith

float-order : KeepsOrder IsPlain write_float cmp_float
unfolding write_float float_key
float-order f g r s p q =
    rw (cmp_float-key f g p.0 q.0, signed-cmp f.negative g.negative f.magnitude g.magnitude p.1 q.1)
      (signed-order f.negative g.negative f.magnitude g.magnitude r s)

-- The numbers of cmpbin need fewer bytes; the laws are the same.
pub unary : Cmpbin
unary = record {
  write_string = write_string;
  write_int = write_int;
  write_uint = up;
  write_float64 = write_float;
  read_string = read_string;
  read_int = read_int;
  read_uint = read_count 1;
  read_float64 = read_float;
  string_back = string-back;
  int_back = int-back;
  uint_back = up-back;
  float64_back = float-back;
  string_order = string-order;
  int_order = int-order;
  float64_order = float-order;
}
