-- ===== src/Datastore/IndexDefinition.antt =====
-- service/datastore/index.go: the definition of an index, its forms and its order.
pub mod Order
pub mod Forms
use gae.Prelude.{
  ℕ, Ordering, lt, eq, gt, compare, Bool, true, false, not, ◌&&◌, ◌||◌, List, [], ◌∷◌, ◌++◌, length,
  ◌==◌, leb, if◌then◌else◌, Bytes, cmp_bytes, same_bytes,
}
use gae.Datastore.IndexColumn.{IndexColumn, cmp}
use gae.Datastore.Query.{key_field, ancestor_field}

pub record IndexDefinition : Type 0 where
  pub kind : Bytes
  pub ancestor : Bool
  pub sort_by : List IndexColumn

abbrev same_bool : Bool → Bool → Bool
same_bool a b = if a then b else not b

-- Go's `==` on two columns, and the loop of `Equal` over columns of the same number.
unfoldable pub same_column : IndexColumn → IndexColumn → Bool
same_column c d = same_bytes c.property d.property && same_bool c.descending d.descending

unfoldable pub same_columns : List IndexColumn → List IndexColumn → Bool
same_columns [] [] = true
same_columns [] (d ∷ ds) = false
same_columns (c ∷ cs) [] = false
same_columns (c ∷ cs) (d ∷ ds) = same_column c d && same_columns cs ds

unfoldable pub equal : IndexDefinition → IndexDefinition → Bool
equal i o =
    same_bytes i.kind o.kind
    && same_bool i.ancestor o.ancestor
    && length i.sort_by == length o.sort_by
    && same_columns i.sort_by o.sort_by

abbrev pub is_key_column : IndexColumn → Bool
is_key_column c = same_bytes c.property key_field

unfoldable pub ends_with_key : List IndexColumn → Bool
ends_with_key [] = false
ends_with_key (c ∷ []) = is_key_column c
ends_with_key (c ∷ d ∷ ds) = ends_with_key (d ∷ ds)

abbrev pub key_column : IndexColumn
key_column = record { property = key_field; descending = false }

abbrev pub ancestor_column : IndexColumn
ancestor_column = record { property = ancestor_field; descending = false }

unfoldable pub normalize : IndexDefinition → IndexDefinition
normalize i =
    if ends_with_key i.sort_by then i else record i { sort_by = i.sort_by ++ key_column ∷ [] }

unfoldable pub get_full_sort_order : IndexDefinition → List IndexColumn
get_full_sort_order i =
    if not i.ancestor then (normalize i).sort_by else ancestor_column ∷ (normalize i).sort_by

-- The loop of `Flip`, which appends the columns from the last to the first.
unfoldable pub flip_columns : List IndexColumn → List IndexColumn
flip_columns [] = []
flip_columns (c ∷ cs) = flip_columns cs ++ c ∷ []

unfoldable pub flip_definition : IndexDefinition → IndexDefinition
flip_definition i = record i { sort_by = flip_columns i.sort_by }

unfoldable pub prep_for_idx_table : IndexDefinition → IndexDefinition
prep_for_idx_table i = flip_definition (normalize i)

unfoldable pub builtin : IndexDefinition → Bool
builtin i = not i.ancestor && leb (length i.sort_by) 1

unfoldable pub all_compound : List IndexColumn → Bool
all_compound [] = true
all_compound (c ∷ cs) =
    not (same_bytes c.property [] || same_bytes c.property ancestor_field) && all_compound cs

unfoldable pub compound : IndexDefinition → Bool
compound i = not (same_bytes i.kind [] || builtin i) && all_compound i.sort_by

abbrev pub cmp_bool : Bool → Bool → Ordering
cmp_bool true true = eq
cmp_bool true false = gt
cmp_bool false true = lt
cmp_bool false false = eq

-- The closure `decide` of `Less`, and what `Less` answers after it: `rest` where it keeps going.
abbrev pub decide : Ordering → Bool → Bool
decide lt rest = true
decide eq rest = rest
decide gt rest = false

-- Where the first definition has more columns the source would panic: `less` compares the numbers
-- of columns first.
unfoldable pub less_columns : List IndexColumn → List IndexColumn → Bool
less_columns [] ds = false
less_columns (c ∷ cs) [] = false
less_columns (c ∷ cs) (d ∷ ds) = decide (cmp c d) (less_columns cs ds)

unfoldable pub less : IndexDefinition → IndexDefinition → Bool
less i o = decide (cmp_bool (builtin i) (builtin o)) (
    decide (cmp_bytes i.kind o.kind) (
      decide (cmp_bool i.ancestor o.ancestor) (
        decide (compare (length i.sort_by) (length o.sort_by)) (less_columns i.sort_by o.sort_by))))
