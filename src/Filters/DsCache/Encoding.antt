-- ===== src/Filters/DsCache/Encoding.antt =====
-- A cached entity is read back as it was written.
use gae.Prelude.{
  ◌+◌, ◌≤◌, ◌≡◌, sym, ap, ◌∙◌, false, [], length, All, Bytes, ltb, Bool-cases, inl, inr,
}
use mathlib.Core.List.{append-nil}
use gae.Datastore.Key.{KeyContext}
use gae.Datastore.PropertyMap.{PropertyMap, save}
use gae.Serialize.Cmpbin.{Cmpbin}
use gae.Serialize.Reader.{ok}
use gae.Serialize.Write.{write_property_map}
use gae.Serialize.Read.{read_property_map, max_rows}
use gae.Serialize.Read.Maps.{IsReadableData, set_rows, read_property_map-write_property_map}
use gae.Filters.DsCache.{
  Zlib, encode_item_value, decode_item_value, found, decoded, compression_threshold,
}

-- An entity that is encoded for memcache is decoded again, compressed or not: its rows but for the
-- metadata, set one after the other, where every key among the properties takes the context that is given
-- to the decoding, so that a key of another context is decoded to another key. There are at most 30000 rows, of at most 30000 readable properties
-- each, and zlib reads back what it compressed.
pub decode_item_value-encode_item_value :
    (c : Cmpbin) (z : Zlib) (kc : KeyContext) (pm : PropertyMap)
    → let rows = save false (save false pm) in
      All (IsReadableData c) rows
      → length rows ≤ max_rows
      → decode_item_value c z kc (encode_item_value c z pm) ≡ found (set_rows c false kc rows [])
unfolding decode_item_value encode_item_value
decode_item_value-encode_item_value c z kc pm h l =
    elim (Bool-cases (ltb compression_threshold (1 + length written))) [
      | inl big ↦ rw (big, z.back written) (ap decoded plain)
      | inr small ↦ rw small (ap decoded plain)
    ]
  where
    written : Bytes
    written = write_property_map c false false (save false pm)

    plain :
        read_property_map c false kc written
        ≡ ok (set_rows c false kc (save false (save false pm)) []) []
    plain =
        ap (read_property_map c false kc) (sym (append-nil written))
        ∙ read_property_map-write_property_map c false kc (save false pm) [] h l
