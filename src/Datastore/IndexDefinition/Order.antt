-- ===== src/Datastore/IndexDefinition/Order.antt =====
-- The order of index definitions.
use gae.Prelude.{
  Ordering, eq, ◌≡◌, ◌↔◌, refl, sym, ap, ◌∙◌, true, false, List, [], ◌∷◌, arith, compare, length,
  IsOrder, compare-IsOrder, both-IsOrder, by_part, agree, or_else, is_lt, is_eq, cmp_refl,
  cmp_bytes, cmp_bytes-eq, cmp_bytes-IsOrder, same_bytes_iff, cmp_list, cmp_list-IsOrder, All, inl,
  inr, Bool-cases,
}
use gae.Datastore.Property.{cmp_key}
use gae.Datastore.IndexColumn.{IndexColumn, cmp}
use gae.Datastore.IndexDefinition.{
  IndexDefinition, cmp_bool, less, less_columns, equal, same_column, same_columns, builtin,
}

abbrev Any : {A : Type 0} → A → Type 0
Any a = Unit

cmp_bool-IsOrder : IsOrder Any cmp_bool
cmp_bool-IsOrder = record {
  swapped = λ a b _ _. ground arith;
  eq_left = λ a b c _ _ _ h. ground arith;
  lt_trans = λ a b c _ _ _ h k. ground arith;
}

cmp-IsOrder : IsOrder Any cmp
unfolding cmp
cmp-IsOrder =
    agree cmp
      (both-IsOrder _ _
        (by_part cmp_bool-IsOrder Any (λ (i : IndexColumn). i.descending) (λ _ _. tt))
        (by_part cmp_bytes-IsOrder Any (λ (i : IndexColumn). i.property) (λ _ _. tt)))
      λ i o _ _. ground arith

unfoldable columns : IndexDefinition → IndexDefinition → Ordering
columns i o =
    or_else (compare (length i.sort_by) (length o.sort_by)) (cmp_list cmp i.sort_by o.sort_by)

-- The comparison that `Less` tests, as one result.
unfoldable whole : IndexDefinition → IndexDefinition → Ordering
unfolding columns
whole i o =
    or_else (cmp_bool (builtin i) (builtin o))
      (or_else (cmp_bytes i.kind o.kind) (or_else (cmp_bool i.ancestor o.ancestor) (columns i o)))

All-Any : {A : Type 0} → (l : List A) → All Any l
All-Any [] = tt
All-Any (x ∷ xs) = (tt, All-Any xs)

whole-IsOrder : IsOrder Any whole
unfolding whole columns
whole-IsOrder = both-IsOrder _ _ (by_part cmp_bool-IsOrder Any builtin (λ _ _. tt)) (
    both-IsOrder _ _ (by_part cmp_bytes-IsOrder Any (λ (i : IndexDefinition). i.kind) (λ _ _. tt)) (
      both-IsOrder _ _
        (by_part cmp_bool-IsOrder Any (λ (i : IndexDefinition). i.ancestor) (λ _ _. tt))
        (both-IsOrder _ _
          (by_part compare-IsOrder Any (λ (i : IndexDefinition). length i.sort_by) (λ _ _. tt))
          (by_part (cmp_list-IsOrder cmp cmp-IsOrder) Any (λ (i : IndexDefinition). i.sort_by)
            (λ i _. All-Any i.sort_by)))))

less_columns-cmp :
    (cs ds : List IndexColumn)
    → length cs ≡ length ds
    → less_columns cs ds ≡ is_lt (cmp_list cmp cs ds)
unfolding less_columns cmp_list
less_columns-cmp [] [] h = refl
less_columns-cmp [] (d ∷ ds) h = ground (arith, h)
less_columns-cmp (c ∷ cs) [] h = ground (arith, h)
less_columns-cmp (c ∷ cs) (d ∷ ds) h = ground (arith, less_columns-cmp cs ds (omega (arith, h)))

less-whole : (i o : IndexDefinition) → less i o ≡ is_lt (whole i o)
unfolding less whole columns
less-whole i o = ground (arith, less_columns-cmp i.sort_by o.sort_by)

column-eq : (c d : IndexColumn) → (same_column c d ≡ true) ↔ (c ≡ d)
unfolding same_column
column-eq c d = (
  λ h. ground (arith, h, same_bytes_iff c.property d.property),
  λ h. rw h (ground (arith, same_bytes_iff d.property d.property)),
)

columns-eq : (cs ds : List IndexColumn) → (same_columns cs ds ≡ true) ↔ (cs ≡ ds)
unfolding same_columns
columns-eq [] [] = (λ h. refl, λ h. refl)
columns-eq [] (d ∷ ds) = (λ h. cc, λ h. cc)
columns-eq (c ∷ cs) [] = (λ h. cc, λ h. cc)
columns-eq (c ∷ cs) (d ∷ ds) = (
  λ h. ground (arith, h, column-eq c d, columns-eq cs ds),
  λ h. ground (arith, h, column-eq c d, columns-eq cs ds),
)

definition-eq : (i o : IndexDefinition) → (equal i o ≡ true) ↔ (i ≡ o)
unfolding equal
definition-eq i o = (
  λ h. ground (arith, h, same_bytes_iff i.kind o.kind, columns-eq i.sort_by o.sort_by),
  λ h. rw h (ground (arith, same_bytes_iff o.kind o.kind, columns-eq o.sort_by o.sort_by)),
)

cmp-eq : (c d : IndexColumn) → cmp c d ≡ eq → c ≡ d
unfolding cmp
cmp-eq c d h = ground (arith, cmp_bytes-eq c.property d.property)

cmp_columns-eq : (cs ds : List IndexColumn) → cmp_list cmp cs ds ≡ eq → cs ≡ ds
unfolding cmp_list
cmp_columns-eq [] [] h = refl
cmp_columns-eq [] (d ∷ ds) h = cc
cmp_columns-eq (c ∷ cs) [] h = cc
cmp_columns-eq (c ∷ cs) (d ∷ ds) h = ground (arith, cmp-eq c d, cmp_columns-eq cs ds)

whole-eq : (i o : IndexDefinition) → whole i o ≡ eq → i ≡ o
unfolding whole columns
whole-eq i o h = ground (arith, cmp_bytes-eq i.kind o.kind, cmp_columns-eq i.sort_by o.sort_by)

not-eq : (o : Ordering) → ¬ (o ≡ eq) → false ≡ is_eq o
not-eq o h = ground (arith, h)

equal-whole : (i o : IndexDefinition) → equal i o ≡ is_eq (whole i o)
equal-whole i o = elim (Bool-cases (equal i o)) [
  | inl e ↦
      rw ((definition-eq i o).0 e, (definition-eq o o).1 refl, cmp_refl whole-IsOrder o tt) refl
  | inr e ↦ rw e (not-eq (whole i o) (λ h. cc (e, (definition-eq i o).1 (whole-eq i o h))))
]

less-cmp_key : (i o : IndexDefinition) → cmp_key equal less i o ≡ whole i o
unfolding cmp_key
less-cmp_key i o =
    ground (arith, equal-whole i o, less-whole o i, less-whole i o, whole-IsOrder.swapped i o tt tt)

-- `Less` is a strict total order of the index definitions, whose ties `Equal` finds: the two, taken in
-- turn, make a comparison that is an order, `Less` holds exactly where this says below, so of no
-- definition and itself, and `Equal` holds of a definition and itself alone.
pub less-IsOrder :
    IsOrder Any (cmp_key equal less)
    × ((i o : IndexDefinition) → less i o ≡ is_lt (cmp_key equal less i o))
    × ((i o : IndexDefinition) → (equal i o ≡ true) ↔ (i ≡ o))
less-IsOrder = (
  agree (cmp_key equal less) whole-IsOrder λ i o _ _. less-cmp_key i o,
  λ i o. less-whole i o ∙ ap is_lt (sym (less-cmp_key i o)),
  definition-eq,
)
