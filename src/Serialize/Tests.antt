-- ===== src/Serialize/Tests.antt =====
-- The theorems on the serialisation at concrete inputs.
use gae.Prelude.{◌≡◌, none, List, [], ◌∷◌, true, false, All, map, arith}
use gae.Serialize.Invertible.{invertible}
use gae.Serialize.Invertible.RoundTrip.{
  Part, IsPart, bytes_of, read_parts, write_parts, read_parts-write_parts,
}

abbrev message : List Part
message = (true, 1 ∷ 200 ∷ []) ∷ (false, 7 ∷ []) ∷ []

message-IsPart : All IsPart message
message-IsPart = ((omega arith, (omega arith, tt)), ((omega arith, tt), tt))

read_parts-write_parts_example :
    read_parts message (write_parts message (invertible [])) ≡ map (λ p. (bytes_of p, none)) message
read_parts-write_parts_example = read_parts-write_parts message message-IsPart
