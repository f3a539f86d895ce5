-- ===== src/Serialize/EncodingTests.antt =====
-- The theorems on the encoding of properties, maps and index definitions at concrete inputs, with numbers
-- in unary for the library cmpbin.
use gae.Prelude.{
  inl, inr, ◌≡◌, refl, [], ◌∷◌, ◌++◌, true, false, pos, negsuc, codes, cmp_bytes, or_else, arith,
}
use gae.Datastore.Property.{Value, check_valid, index_type_and_value}
use gae.Datastore.Key.{Key, KeyContext}
use gae.Datastore.KeyTok.{KeyTok}
use gae.Datastore.KeyProperty.{Property, compare_property}
use gae.Datastore.PropertyMap.{PropertyMap, single, multiple}
use gae.Datastore.IndexDefinition.{IndexDefinition}
use gae.Serialize.Cmpbin.Unary.{unary}
use gae.Serialize.Reader.{ok}
use gae.Serialize.Write.{write_property, write_index_property, write_index_definition}
use gae.Serialize.Write.Order.{write_index_property-order}
use gae.Serialize.Read.{read_property, read_index_definition}
use gae.Serialize.Read.RoundTrip.{IsReadableProperty, read_property-write_property}
use gae.Serialize.Read.Definitions.{read_index_definition-write_index_definition}

abbrev context : KeyContext
context = record { app_id = codes "a"; namespace = codes "n" }

abbrev other_context : KeyContext
other_context = record { app_id = codes "b"; namespace = [] }

abbrev parent_tok : KeyTok
parent_tok = record { kind = codes "P"; int_id = pos 3; string_id = [] }

abbrev child_tok : KeyTok
child_tok = record { kind = codes "C"; int_id = pos 0; string_id = codes "id" }

abbrev child : Key
child = record { kc = context; first = parent_tok; others = child_tok ∷ [] }

abbrev owner : Property
owner = record { value = Value.key child; no_index = false }

abbrev stamp : Property
stamp = record { value = Value.time (negsuc 2); no_index = false }

owner_is_readable : IsReadableProperty unary owner
unfolding check_valid
owner_is_readable = (((inr (refl, refl), (inl ((λ e. cc), refl), tt)), omega arith), refl)

write_index_property-order_example :
    cmp_bytes
      (write_index_property unary false stamp ++ 9 ∷ [])
      (write_index_property unary false owner ++ [])
    ≡ or_else (compare_property stamp owner) (cmp_bytes (9 ∷ []) [])
unfolding index_type_and_value
write_index_property-order_example =
    write_index_property-order unary false stamp owner (9 ∷ []) [] refl refl tt

-- The key is read with another context.
read_property-write_property_example :
    read_property unary false other_context (write_property unary false owner ++ 1 ∷ [])
    ≡ ok
        (record {
          value =
              Value.key
                (record { kc = other_context; first = parent_tok; others = child_tok ∷ [] });
          no_index = false;
        })
        (1 ∷ [])
read_property-write_property_example =
    read_property-write_property unary false other_context owner (1 ∷ []) owner_is_readable

abbrev entity : PropertyMap
entity = (codes "$key", single stamp) ∷ (codes "owners", multiple (owner ∷ owner ∷ [])) ∷ []

abbrev by_field : IndexDefinition
by_field = record {
  kind = codes "T";
  ancestor = true;
  sort_by = record { property = codes "f"; descending = true } ∷ [];
}

read_index_definition-write_index_definition_example :
    read_index_definition unary (write_index_definition unary by_field ++ 5 ∷ [])
    ≡ ok by_field (5 ∷ [])
read_index_definition-write_index_definition_example =
    read_index_definition-write_index_definition unary by_field (5 ∷ [])
