-- ===== src/Datastore/Tests.antt =====
-- Runs of the key and property model, and its theorems at concrete inputs.
use gae.Prelude.{
  lookup, if◌then◌else◌, none, cmp_bytes, ◌+◌, same_bytes, ◌≡◌, refl, ◌↔◌, true, false, some, [],
  ◌∷◌, pos, codes, lt,
}
use gae.Datastore.Float.{float_of, inf_bits, cmp_float}
use gae.Datastore.Property.{Value, index_value_of, property_type_of, set_value, Input}
use gae.Datastore.Property.Projection.{project, from_index, project_index}
use gae.Datastore.KeyTok
use gae.Datastore.KeyTok.{KeyTok}
use gae.Datastore.Key
use gae.Datastore.Key.{
  Key, KeyContext, parent, new_key, kind, string_id, int_id, has_ancestor, incomplete_equal,
  with_id, partial_valid, valid, is_incomplete, Made, made, make_key, Elem, str, num,
}
use gae.Datastore.Key.Identity.{equal_iff}
use gae.Datastore.Key.Ancestry.{Ancestor, has_ancestor_iff}
use gae.Datastore.Key.Completion.{partial_valid-completes}
use gae.Datastore.IndexColumn.{IndexColumn}
use gae.Datastore.IndexDefinition
use gae.Datastore.IndexDefinition.{IndexDefinition, prep_for_idx_table, flip_definition, normalize}
use gae.Datastore.KeyProperty.{Property}
use gae.Datastore.PropertyMap.{
  PropertyMap, single, is_meta_key, save, get_all_meta, get_meta, set_meta, get_meta_default,
  estimate_size, slice, slice_of_data,
}
use gae.Datastore.PropertyMap.Metadata.{save-get_all_meta, set_meta-get_meta}

abbrev context : KeyContext
context = record { app_id = codes "app"; namespace = codes "ns" }

abbrev parent_tok : KeyTok
parent_tok = record { kind = codes "Parent"; int_id = pos 1; string_id = [] }

abbrev child_tok : KeyTok
child_tok = record { kind = codes "Child"; int_id = pos 0; string_id = codes "id" }

abbrev new_tok : KeyTok
new_tok = record { kind = codes "Child"; int_id = pos 0; string_id = [] }

abbrev top_key : Key
top_key = record { kc = context; first = parent_tok; others = [] }

abbrev child_key : Key
child_key = record { kc = context; first = parent_tok; others = child_tok ∷ [] }

abbrev new_child : Key
new_child = record { kc = context; first = parent_tok; others = new_tok ∷ [] }

make_child :
    make_key context
      (str (codes "Parent") ∷ num (pos 1) ∷ str (codes "Child") ∷ str (codes "id") ∷ [])
    ≡ made (some child_key)
unfolding make_key
make_child = refl

child_has_top : has_ancestor child_key top_key ≡ true
unfolding has_ancestor Key.has_prefix Key.matches KeyTok.equal same_bytes
child_has_top = refl

-- A NaN compares below itself.
nan_below_itself : cmp_float (float_of false (inf_bits + 1)) (float_of false (inf_bits + 1)) ≡ lt
unfolding cmp_float
nan_below_itself = refl

equal_iff_example : (Key.equal child_key top_key ≡ true) ↔ (child_key ≡ top_key)
equal_iff_example = equal_iff child_key top_key

has_ancestor_iff_example : (has_ancestor child_key top_key ≡ true) ↔ Ancestor child_key top_key
has_ancestor_iff_example = has_ancestor_iff child_key top_key

partial_valid-completes_example :
    partial_valid context new_child ≡ valid false context (with_id [] (pos 7) new_child)
unfolding is_incomplete KeyTok.is_incomplete same_bytes
partial_valid-completes_example = partial_valid-completes context new_child (pos 7) refl (λ e. cc)

abbrev stamp : Value Key
stamp = Value.time (pos 1500)

project_index_example :
    project (property_type_of stamp) (from_index (index_value_of stamp)) ≡ some stamp
project_index_example = project_index stamp (λ e. cc)

abbrev by_field : IndexColumn
by_field = record { property = codes "field"; descending = true }

abbrev by_field_index : IndexDefinition
by_field_index = record { kind = codes "Thing"; ancestor = true; sort_by = by_field ∷ [] }

-- An index of one column is built in, unless it has an ancestor.
by_field_compound : IndexDefinition.compound by_field_index ≡ true
unfolding IndexDefinition.compound IndexDefinition.builtin IndexDefinition.all_compound same_bytes
by_field_compound = refl

abbrev enabled : Property
enabled = record { value = Value.bool false; no_index = true }

abbrev entity : PropertyMap
entity = (codes "$enable", single enabled) ∷ (codes "name", single enabled) ∷ []

save-get_all_meta_example :
    (lookup (codes "name") (save false entity)
      ≡ (if is_meta_key (codes "name") then none else lookup (codes "name") entity))
    × (lookup (codes "name") (get_all_meta entity)
        ≡ (if is_meta_key (codes "name") then lookup (codes "name") entity else none))
    × (estimate_size (save false entity) ≡ estimate_size entity)
save-get_all_meta_example = save-get_all_meta entity (codes "name")

set_meta-get_meta_example :
    ((set_meta (codes "enable") (Input.value (Value.bool true)) entity).0 ≡ true)
    × (get_meta
          (codes "enable")
          (set_meta (codes "enable") (Input.value (Value.bool true)) entity).1
        ≡ (if same_bytes (codes "enable") (codes "enable")
            then some (Value.bool true)
            else get_meta (codes "enable") entity))
    × (save false (set_meta (codes "enable") (Input.value (Value.bool true)) entity).1
        ≡ save false entity)
unfolding set_value
set_meta-get_meta_example =
    set_meta-get_meta (codes "enable") (codes "enable") (Input.value (Value.bool true))
      (record { value = Value.bool true; no_index = true }) entity refl

-- A value of another type than the default is not taken.
enable_default : get_meta_default (codes "enable") (Value.int (pos 1)) entity ≡ Value.int (pos 1)
unfolding get_meta_default get_meta slice lookup same_bytes cmp_bytes slice_of_data property_type_of
enable_default = refl
