-- ===== src/Datastore/IndexDefinition/Forms.antt =====
-- The forms that the tables of an index are built from: normalised, and flipped.
use gae.Prelude.{◌≡◌, refl, sym, ap, ◌∙◌, true, List, [], ◌∷◌, ◌++◌, arith, same_bytes_iff}
use mathlib.Core.List.{append_assoc, append-nil}
use gae.Datastore.IndexColumn.{IndexColumn}
use gae.Datastore.Query.{key_field}
use gae.Datastore.IndexDefinition.{
  IndexDefinition, normalize, ends_with_key, flip_columns, flip_definition, prep_for_idx_table,
  key_column,
}

flip-append :
    (cs ds : List IndexColumn) → flip_columns (cs ++ ds) ≡ flip_columns ds ++ flip_columns cs
unfolding flip_columns
flip-append [] ds = sym (append-nil (flip_columns ds))
flip-append (c ∷ cs) ds =
    rw (flip-append cs ds) (append_assoc (flip_columns ds) (flip_columns cs) (c ∷ []))

flip-flip : (cs : List IndexColumn) → flip_columns (flip_columns cs) ≡ cs
unfolding flip_columns
flip-flip [] = refl
flip-flip (c ∷ cs) = rw (flip-append (flip_columns cs) (c ∷ []), flip-flip cs) refl

key-last : (cs : List IndexColumn) → ends_with_key (cs ++ key_column ∷ []) ≡ true
unfolding ends_with_key
key-last [] = ground (arith, same_bytes_iff key_field key_field)
key-last (c ∷ []) = key-last []
key-last (c ∷ d ∷ ds) = key-last (d ∷ ds)

normalize-key : (i : IndexDefinition) → ends_with_key (normalize i).sort_by ≡ true
unfolding normalize
normalize-key i = ground (arith, key-last i.sort_by)

normalize-keyed : (i : IndexDefinition) → ends_with_key i.sort_by ≡ true → normalize i ≡ i
unfolding normalize
normalize-keyed i h = rw h refl

normalize-again : (i : IndexDefinition) → normalize (normalize i) ≡ normalize i
normalize-again i = normalize-keyed (normalize i) (normalize-key i)

last_is_first :
    (cs : List IndexColumn)
    → ends_with_key cs ≡ true
    → (c : IndexColumn) × (rest : List IndexColumn) × (flip_columns cs ≡ c ∷ rest)
      × (c.property ≡ key_field)
unfolding ends_with_key flip_columns
last_is_first [] h = cc
last_is_first (c ∷ []) h = (c, [], refl, (same_bytes_iff c.property key_field).0 h)
last_is_first (c ∷ d ∷ ds) h =
    let (e, rest, p, q) = last_is_first (d ∷ ds) h in (e, rest ++ c ∷ [], rw p refl, q)

-- The definition that `PrepForIdxTable` makes starts with the key; flipped back it is the normal
-- form, and to normalise once more changes nothing.
pub prep-starts_with_key :
    (i : IndexDefinition)
    → ((c : IndexColumn) × (rest : List IndexColumn) × ((prep_for_idx_table i).sort_by ≡ c ∷ rest)
        × (c.property ≡ key_field))
      × (flip_definition (prep_for_idx_table i) ≡ normalize i)
      × (normalize (flip_definition (prep_for_idx_table i)) ≡ normalize i)
unfolding prep_for_idx_table flip_definition
prep-starts_with_key i =
    let back = ap (λ s. record (normalize i) { sort_by = s }) (flip-flip (normalize i).sort_by) in
    (
      last_is_first (normalize i).sort_by (normalize-key i),
      back,
      ap normalize back ∙ normalize-again i,
    )
