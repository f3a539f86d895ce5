-- ===== src/Filters/TxnBuf/Overlay.antt =====
-- A buffered transaction over a datastore that is a map is a map.
pub mod Items
pub mod State
pub mod Reading
pub mod Failing
pub mod Writing
use gae.Prelude.{Bytes}
use gae.Datastore.Key.{Key, KeyContext}
use gae.Serialize.Cmpbin.{Cmpbin}
use gae.Filters.TxnBuf.Interface.{Got, RawInterface}
use gae.Filters.TxnBuf.Methods.{txn_buf}
use gae.Filters.TxnBuf.Mapping.{IsMap}
use gae.Filters.TxnBuf.Overlay.State.{IsOverlay, overlay}
use gae.Filters.TxnBuf.Overlay.Reading.{get_multi-Reads}
use gae.Filters.TxnBuf.Overlay.Failing.{get_multi-fails, get_multi-returns}
use gae.Filters.TxnBuf.Overlay.Writing.{
  put_multi-writes, delete_multi-removes, put_multi-fails, delete_multi-fails, put_multi-returns,
  delete_multi-returns,
}

-- The methods of a transaction show and change a map of entities, that is: GetMulti answers what was last put
-- or deleted in the transaction, and what the datastore below shows of any other key. This holds if the
-- datastore below is such a map itself, of complete keys of one context, with 50 tokens at most, each with a
-- string ID or a positive one, and of entities that have a size above 0 and come back from their bytes but
-- for the special properties, read with the contexts of the keys among their properties and with the context
-- of the transaction for these; so it holds of transactions that are nested to any depth. No call panics.
pub txn_buf-IsMap :
    (c : Cmpbin) (sha256 : Bytes → Bytes) (kc : KeyContext) {F : Type 0} (D : RawInterface F)
    (Inv : D.State → Type 0) (read : D.State → Key → Got F)
    → IsMap c sha256 kc D Inv read
    → IsMap c sha256 kc
        (txn_buf c sha256 D)
        (IsOverlay c sha256 kc D Inv read)
        (overlay c sha256 kc D Inv read)
txn_buf-IsMap c sha256 kc D Inv read below = record {
  get_reads = λ ks ts gs ts' w h e.
      let (answers, good, same, _) =
        get_multi-Reads c sha256 kc D Inv read below ks ts gs ts' w h e in
      (answers, good, same);
  get_returns = get_multi-returns c sha256 kc D Inv read below;
  put_returns = put_multi-returns c sha256 kc D Inv read below;
  delete_returns = delete_multi-returns c sha256 kc D Inv read below;
  put_fails = λ kvs ts x ts' w h e.
      let same = put_multi-fails c sha256 kc D Inv read below kvs ts x ts' w h e in rw (← same) w;
  delete_fails = λ ks ts x ts' w h e.
      let same = delete_multi-fails c sha256 kc D Inv read below ks ts x ts' w h e in rw (← same) w;
  get_fails = λ ks ts x ts' w h e.
      let (good, same, _) = get_multi-fails c sha256 kc D Inv read below ks ts x ts' w h e in
      (good, same);
  put_writes = λ kvs ts es ts' w h e.
      let (good, shows, _) = put_multi-writes c sha256 kc D Inv read below kvs ts es ts' w h e in
      (good, λ fine. shows);
  delete_removes = λ ks ts es ts' w h e.
      let (good, shows, _) = delete_multi-removes c sha256 kc D Inv read below ks ts es ts' w h e in
      (good, λ fine. shows);
}
