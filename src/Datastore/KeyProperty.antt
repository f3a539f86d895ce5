-- ===== src/Datastore/KeyProperty.antt =====
-- service/datastore/properties.go: the properties of entities, which may hold keys.
use gae.Prelude.{Ordering, Bool, ℕ, IsOrder}
use gae.Datastore.Property.{PropertyOf, compare_with, less_with, equal_with, size_with}
use gae.Datastore.Property.Order.{PropertyIsComparable, compare_with-IsOrder}
use gae.Datastore.Key
use gae.Datastore.Key.{Key}
use gae.Datastore.Key.Order.{IsSingle, cmp_key-IsOrder}

abbrev pub Property : Type 0
Property = PropertyOf Key

unfoldable pub compare_property : Property → Property → Ordering
compare_property = compare_with Key.equal Key.less

unfoldable pub less : Property → Property → Bool
less = less_with Key.equal Key.less

unfoldable pub equal : Property → Property → Bool
equal = equal_with Key.equal Key.less

unfoldable pub estimate_size : Property → ℕ
estimate_size = size_with Key.estimate_size

-- No NaN, and no key with a token that has both IDs.
abbrev pub IsIndexable : Property → Type 0
IsIndexable = PropertyIsComparable IsSingle

-- `Compare` orders the properties of all types together, as a total preorder: swapping the
-- arguments reverses the answer, equal properties compare alike with all others, and `<` is
-- transitive. The properties hold no NaN and no key with a token that has both IDs.
pub compare_property-IsOrder : IsOrder IsIndexable compare_property
unfolding compare_property
compare_property-IsOrder = compare_with-IsOrder IsSingle Key.equal Key.less cmp_key-IsOrder
