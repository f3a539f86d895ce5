-- ===== src/Serialize/Read/Definitions.antt =====
-- Index columns and definitions are read back.
use gae.Prelude.{
  ℕ, zero, suc, ◌≤◌, ◌<◌, ◌≡◌, ◌∙◌, refl, Bool, true, false, List, [], ◌∷◌, ◌++◌, length, arith,
  Bytes, if◌then◌else◌, leb, Bool-cases, inl, inr,
}
use mathlib.Core.List.{append_assoc}
use gae.Datastore.IndexColumn.{IndexColumn}
use gae.Datastore.IndexDefinition.{IndexDefinition}
use gae.Serialize.Cmpbin.{Cmpbin}
use gae.Serialize.Reader.{Read, ok, err, continue, pure, too_many_orders}
use gae.Serialize.Write.{write_index_column, write_columns, write_index_definition}
use gae.Serialize.Read.{read_index_column, read_columns, read_index_definition, max_index_columns}

module _ (c : Cmpbin) where
  column-back :
      (col : IndexColumn) (rest : Bytes)
      → read_index_column c (write_index_column c col ++ rest) ≡ ok col rest
  unfolding read_index_column write_index_column
  column-back col rest = with_direction col.property col.descending
    where
      with_direction :
          (p : Bytes) (d : Bool)
          → read_index_column c
              (write_index_column c (record { property = p; descending = d }) ++ rest)
            ≡ ok (record { property = p; descending = d }) rest
      with_direction p true = rw (c.string_back p rest) refl
      with_direction p false = rw (c.string_back p rest) refl

  columns-back :
      (left : ℕ) (cols : List IndexColumn) (rest : Bytes)
      → length cols ≤ left
      → read_columns c left (write_columns c cols ++ rest) ≡ ok cols rest
  unfolding read_columns write_columns
  columns-back zero [] rest l = refl
  columns-back (suc left) [] rest l = refl
  columns-back zero (col ∷ cols) rest l = absurd (omega (arith, l))
  columns-back (suc left) (col ∷ cols) rest l =
      rw
        (
          append_assoc (write_index_column c col) (write_columns c cols) rest,
          column-back col (write_columns c cols ++ rest),
          columns-back left cols rest (omega (arith, l)),
        )
        refl

  columns-refused :
      (left : ℕ) (cols : List IndexColumn) (rest : Bytes)
      → left < length cols
      → read_columns c left (write_columns c cols ++ rest) ≡ err too_many_orders
  unfolding read_columns write_columns
  columns-refused left [] rest l = absurd (omega (arith, l))
  columns-refused zero (col ∷ cols) rest l = refl
  columns-refused (suc left) (col ∷ cols) rest l =
      rw
        (
          append_assoc (write_index_column c col) (write_columns c cols) rest,
          column-back col (write_columns c cols ++ rest),
          columns-refused left cols rest (omega (arith, l)),
        )
        refl

  -- What is left of the reader when it has the columns.
  abbrev after_columns : IndexDefinition → Read (List IndexColumn) → Read IndexDefinition
  after_columns i (ok cols rest) = ok (record i { sort_by = cols }) rest
  after_columns i (err e) = err e

  after_pure :
      (k : Bytes) (a : Bool) (s : List IndexColumn) (r : Read (List IndexColumn))
      → continue r (λ sort_by. pure (record { kind = k; ancestor = a; sort_by = sort_by }))
        ≡ after_columns (record { kind = k; ancestor = a; sort_by = s }) r
  after_pure k a s (ok cols rest) = refl
  after_pure k a s (err e) = refl

  -- The reader up to the columns.
  definition-back :
      (i : IndexDefinition) (rest : Bytes)
      → read_index_definition c (write_index_definition c i ++ rest)
        ≡ after_columns i
            (read_columns c (suc max_index_columns) (write_columns c i.sort_by ++ rest))
  unfolding read_index_definition write_index_definition
  definition-back i rest = with_ancestor i.kind i.ancestor i.sort_by
    where
      with_ancestor :
          (k : Bytes) (a : Bool) (s : List IndexColumn)
          → read_index_definition c
              (write_index_definition c (record { kind = k; ancestor = a; sort_by = s }) ++ rest)
            ≡ after_columns
                (record { kind = k; ancestor = a; sort_by = s })
                (read_columns c (suc max_index_columns) (write_columns c s ++ rest))
      with_ancestor k true s =
          rw
            (
              append_assoc (c.write_string k) (1 ∷ write_columns c s) rest,
              c.string_back k (1 ∷ (write_columns c s ++ rest)),
            )
            (after_pure k true s
              (read_columns c (suc max_index_columns) (write_columns c s ++ rest)))
      with_ancestor k false s =
          rw
            (
              append_assoc (c.write_string k) (0 ∷ write_columns c s) rest,
              c.string_back k (0 ∷ (write_columns c s ++ rest)),
            )
            (after_pure k false s
              (read_columns c (suc max_index_columns) (write_columns c s ++ rest)))

  -- An index definition that is written is read back, whatever follows it, if it has at most 65 columns,
  -- and is refused if it has more.
  pub read_index_definition-write_index_definition :
      (i : IndexDefinition) (rest : Bytes)
      → read_index_definition c (write_index_definition c i ++ rest)
        ≡ (if leb (length i.sort_by) 65 then ok i rest else err too_many_orders)
  read_index_definition-write_index_definition i rest =
      definition-back i rest ∙ elim (Bool-cases (leb (length i.sort_by) 65)) [
        | inl few ↦
            rw (few, columns-back (suc max_index_columns) i.sort_by rest (ground (arith, few))) refl
        | inr many ↦
            rw (many, columns-refused (suc max_index_columns) i.sort_by rest (ground (arith, many)))
              refl
      ]
