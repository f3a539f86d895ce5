-- ===== src/Datastore/KeyTok.antt =====
-- service/datastore/key.go: a token of a key.
use gae.Prelude.{
  Bool, true, false, not, ◌&&◌, [], ◌∷◌, length, if◌then◌else◌, ℤ, pos, eqb_ℤ, is_lt, Bytes, codes,
  cmp_bytes, same_bytes, leb,
}
use gae.Datastore.Property.{PropertyOf, string, int, less_with}

pub record KeyTok : Type 0 where
  pub kind : Bytes
  pub int_id : ℤ
  pub string_id : Bytes

unfoldable pub is_incomplete : KeyTok → Bool
is_incomplete t = same_bytes t.string_id [] && eqb_ℤ t.int_id (pos 0)

abbrev first_two : Bytes → Bytes
first_two (a ∷ b ∷ r) = a ∷ b ∷ []
first_two r = r

abbrev last_two : Bytes → Bytes
last_two (a ∷ b ∷ c ∷ r) = last_two (b ∷ c ∷ r)
last_two r = r

unfoldable pub special : KeyTok → Bool
special t =
    leb 2 (length t.kind)
    && same_bytes (first_two t.kind) (codes "__")
    && same_bytes (last_two t.kind) (codes "__")

-- The ID as a property, which holds no key.
unfoldable pub id : KeyTok → PropertyOf ⊥
id t =
    if not (same_bytes t.string_id [])
    then record { value = string t.string_id; no_index = false }
    else record { value = int t.int_id; no_index = false }

abbrev pub no_key : ⊥ → ⊥ → Bool
no_key a b = false

unfoldable pub less : KeyTok → KeyTok → Bool
less t other =
    if is_lt (cmp_bytes t.kind other.kind)
    then true
    else if is_lt (cmp_bytes other.kind t.kind)
    then false
    else less_with no_key no_key (id t) (id other)

-- `==` on the struct
unfoldable pub equal : KeyTok → KeyTok → Bool
equal t o =
    same_bytes t.kind o.kind && eqb_ℤ t.int_id o.int_id && same_bytes t.string_id o.string_id
