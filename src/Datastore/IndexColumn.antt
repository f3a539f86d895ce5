-- ===== src/Datastore/IndexColumn.antt =====
-- service/datastore/index.go: a sort order on one field.
use gae.Prelude.{
  ℕ, Ordering, lt, gt, ◌≡◌, ◌≢◌, refl, Bool, true, false, not, ◌&&◌, ◌||◌, [], ◌∷◌, ◌==◌, ap, ◌∙◌,
  arith, if◌then◌else◌, Bytes, cmp_bytes, same_bytes, same_bytes_iff,
}

pub record IndexColumn : Type 0 where
  pub property : Bytes
  pub descending : Bool

-- `strings.TrimSpace`, on the ASCII white space.
abbrev is_space : ℕ → Bool
is_space c = c == 32 || c == 9 || c == 10 || c == 11 || c == 12 || c == 13

unfoldable pub trim_left : Bytes → Bytes
trim_left [] = []
trim_left (c ∷ r) = let rest = trim_left r in if is_space c then rest else c ∷ r

abbrev keep : ℕ → Bytes → Bytes
keep c [] = if is_space c then [] else c ∷ []
keep c (d ∷ r) = c ∷ d ∷ r

unfoldable pub trim_right : Bytes → Bytes
trim_right [] = []
trim_right (c ∷ r) = keep c (trim_right r)

unfoldable pub trim_space : Bytes → Bytes
trim_space s = trim_right (trim_left s)

pub data Parsed : Type 0 where
  parsed : IndexColumn → Parsed
  invalid_order empty_order : Parsed

unfoldable pub non_empty : IndexColumn → Parsed
non_empty col = if same_bytes col.property [] then empty_order else parsed col

unfoldable pub parse_trimmed : Bytes → Parsed
parse_trimmed [] = empty_order
parse_trimmed (c ∷ r) =
    if c == b'-'
    then non_empty (record { property = trim_space r; descending = true })
    else if c == b'+'
    then invalid_order
    else non_empty (record { property = trim_space (c ∷ r); descending = false })

unfoldable pub parse_index_column : Bytes → Parsed
parse_index_column spec = parse_trimmed (trim_space spec)

unfoldable pub cmp : IndexColumn → IndexColumn → Ordering
cmp i o =
    if not i.descending && o.descending
    then lt
    else if i.descending && not o.descending
    then gt
    else cmp_bytes i.property o.property

unfoldable pub to_string : IndexColumn → Bytes
to_string i = if i.descending then b'-' ∷ i.property else i.property

-- No white space at either end.
abbrev pub IsTrimmed : Bytes → Type 0
IsTrimmed s = (trim_left s ≡ s) × (trim_right s ≡ s)

-- The first byte is no sign.
abbrev pub IsUnsigned : Bytes → Type 0
IsUnsigned [] = ⊥
IsUnsigned (c ∷ r) = (c ≢ b'-') × (c ≢ b'+')

-- A property name with a sign before it, or a name that starts with none.
abbrev pub IsNamed : IndexColumn → Type 0
IsNamed c =
    IsTrimmed c.property × (c.property ≢ []) × (c.descending ≡ false → IsUnsigned c.property)

trimmed : (p : Bytes) → IsTrimmed p → trim_space p ≡ p
unfolding trim_space
trimmed p (l, r) = ap trim_right l ∙ r

trimmed_dash :
    (c : ℕ) (r : Bytes) → trim_right (c ∷ r) ≡ c ∷ r → trim_space (b'-' ∷ c ∷ r) ≡ b'-' ∷ c ∷ r
unfolding trim_space trim_left
trimmed_dash c r h = step ∙ ap (keep b'-') h
  where
    step : trim_right (b'-' ∷ c ∷ r) ≡ keep b'-' (trim_right (c ∷ r))
    step = unfold trim_right in refl

parse_cases :
    (p : Bytes) (d : Bool)
    → IsNamed (record { property = p; descending = d })
    → parse_index_column (to_string (record { property = p; descending = d }))
      ≡ parsed (record { property = p; descending = d })
unfolding parse_index_column parse_trimmed non_empty to_string
parse_cases [] d (t, n, u) = absurd (n refl)
parse_cases (c ∷ r) true (t, n, u) =
    rw (trimmed_dash c r t.1, trimmed (c ∷ r) t) (ground (arith, same_bytes_iff (c ∷ r) []))
parse_cases (c ∷ r) false (t, n, u) =
    rw (trimmed (c ∷ r) t, trimmed (c ∷ r) t) (ground (arith, same_bytes_iff (c ∷ r) [], u refl))

-- Reading back the printed form of a sort order gives the sort order. The name of the field is not
-- empty, has no white space at its ends, and starts with no sign if the order is ascending.
pub parse-to_string : (c : IndexColumn) → IsNamed c → parse_index_column (to_string c) ≡ parsed c
parse-to_string c h = parse_cases c.property c.descending h
