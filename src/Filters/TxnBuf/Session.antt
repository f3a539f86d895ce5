-- ===== src/Filters/TxnBuf/Session.antt =====
-- A function that is run in a transaction, as the calls that it makes one after the other; it returns the
-- first error that it is told.
pub mod Isolation
pub mod Start
pub mod Root
use gae.Prelude.{
  ◌≡◌, Bool, true, false, Option, none, some, List, [], ◌∷◌, All, any, Bytes, if◌then◌else◌,
}
use gae.Datastore.Key.{Key, KeyContext}
use gae.Datastore.PropertyMap.{PropertyMap}
use gae.Serialize.Cmpbin.{Cmpbin}
use gae.Filters.TxnBuf.Interface.{
  Got, multi, Outcome, panic, raise, ok, Method, ◌>>=◌, RawInterface,
}
use gae.Filters.TxnBuf.Methods.{is_error}
use gae.Filters.TxnBuf.Commit.{put_errors}
use gae.Filters.TxnBuf.Keys.{IsKey}
use gae.Filters.TxnBuf.Calls.{IsRow}
use gae.Filters.TxnBuf.Mapping.{after_puts, after_deletes}

pub data Call : Type 0 where
  get : List Key → Call
  put : List (Key × PropertyMap) → Call
  delete : List Key → Call

-- What a key shows after the calls.
unfoldable pub after_calls : {F : Type 0} → List Call → Key → Got F → Got F
after_calls [] j g = g
after_calls (get ks ∷ calls) j g = after_calls calls j g
after_calls (put kvs ∷ calls) j g = after_calls calls j (after_puts kvs j g)
after_calls (delete ks ∷ calls) j g = after_calls calls j (after_deletes ks j g)

module _ (c : Cmpbin) (sha256 : Bytes → Bytes) (kc : KeyContext) where
  abbrev pub IsGoodCall : Call → Type 0
  IsGoodCall (get ks) = All (IsKey c sha256 kc) ks
  IsGoodCall (put kvs) = All (IsRow c sha256 kc) kvs
  IsGoodCall (delete ks) = All (IsKey c sha256 kc) ks

module _ {F : Type 0} (D : RawInterface F) where
  -- The errors of single keys as one error.
  abbrev pub check : List (Option F) → Method F D.State Unit
  check es s = if any is_error es then raise (multi es) s else ok tt s

  abbrev pub do_call : Call → Method F D.State Unit
  do_call (get ks) s = D.get_multi ks s >>= λ gs. ok tt
  do_call (put kvs) s = D.put_multi kvs s >>= λ ts. check (put_errors ts)
  do_call (delete ks) s = D.delete_multi ks s >>= λ es. check es

  unfoldable pub do_calls : List Call → Method F D.State Unit
  do_calls [] s = ok tt s
  do_calls (call ∷ calls) s = do_call call s >>= λ u. do_calls calls
