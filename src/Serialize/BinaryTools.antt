-- ===== src/Serialize/BinaryTools.antt =====
-- service/datastore/serialize/binary_tools.go: byte strings as numbers.
pub mod Successor
use gae.Prelude.{ℕ, ◌+◌, ◌-◌, ◌==◌, Bool, true, false, List, [], ◌∷◌, ◌++◌, if◌then◌else◌, Bytes}

unfoldable pub join : List Bytes → Bytes
join [] = []
join (b ∷ bs) = b ++ join bs

unfoldable pub invert : Bytes → Bytes
invert [] = []
invert (b ∷ bs) = (255 - b) ∷ invert bs

-- One round of the loop of `Increment`, at the byte `b` before the bytes that are done: where those
-- overflowed the byte takes the carry.
abbrev pub carry : ℕ → Bytes × Bool → Bytes × Bool
carry b (ret, true) = if b == 255 then (0 ∷ ret, true) else ((b + 1) ∷ ret, false)
carry b (ret, false) = (b ∷ ret, false)

-- The bytes, and whether they overflowed.
unfoldable pub increment : Bytes → Bytes × Bool
increment [] = ([], true)
increment (b ∷ bs) = carry b (increment bs)
