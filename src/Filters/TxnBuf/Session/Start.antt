-- ===== src/Filters/TxnBuf/Session/Start.antt =====
-- A transaction that starts shows what the datastore below shows.
use gae.Prelude.{◌≡◌, refl, Bool, [], Bytes, lookup}
use gae.Datastore.Key.{Key, KeyContext}
use gae.Serialize.Cmpbin.{Cmpbin}
use gae.Memory.Datastore.Data.{
  new_data_store_data, set_consistent, set_auto_index, set_disable_special_entities, collection,
}
use gae.Filters.TxnBuf.Interface.{Got, RawInterface}
use gae.Filters.TxnBuf.State.{TxnBufState, root_state, child_state, new_datastore}
use gae.Filters.TxnBuf.Calls.{IsBuffer, contents}
use gae.Filters.TxnBuf.Rows.{IsWellFormed}
use gae.Filters.TxnBuf.Overlay.State.{IsOverlay, overlay}

module _ (c : Cmpbin) (sha256 : Bytes → Bytes) (kc : KeyContext) where
  new-IsBuffer : IsBuffer new_datastore
  unfolding new_datastore set_disable_special_entities set_consistent set_auto_index
      new_data_store_data
  new-IsBuffer = record { disabled = refl; hidden = refl }

  new-IsWellFormed : IsWellFormed c sha256 kc [] (contents c sha256 kc new_datastore)
  unfolding new_datastore set_disable_special_entities set_consistent set_auto_index
      new_data_store_data collection lookup
  new-IsWellFormed = record {
    aligned = λ k h. refl;
    size_rows = tt;
    buf_rows = tt;
    sizes_distinct = tt;
    buf_distinct = tt;
  }

  module _ {F : Type 0} (D : RawInterface F) (Inv : D.State → Type 0)
      (read : D.State → Key → Got F) where
    abbrev Starts : TxnBufState → D.State → Type 0
    Starts t s =
        IsOverlay c sha256 kc D Inv read (t, s)
        × ((j : Key) → overlay c sha256 kc D Inv read (t, s) j ≡ read s j)

    pub root-Starts : (xg : Bool) (s : D.State) → Inv s → Starts (root_state xg) s
    unfolding root_state overlay lookup
    root-Starts xg s v =
        (record { buffer = new-IsBuffer; well_formed = new-IsWellFormed; inv = v }, λ j. refl)

    pub child-Starts : (p : TxnBufState) (s : D.State) → Inv s → Starts (child_state p) s
    unfolding child_state overlay lookup
    child-Starts p s v =
        (record { buffer = new-IsBuffer; well_formed = new-IsWellFormed; inv = v }, λ j. refl)
