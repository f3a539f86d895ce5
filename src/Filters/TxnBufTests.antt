-- ===== src/Filters/TxnBufTests.antt =====
-- The theorems on buffered transactions at concrete inputs: over a datastore that is a function from keys,
-- with numbers in unary for the library cmpbin.
use gae.Prelude.{
  ℕ, ◌≡◌, refl, true, false, none, List, [], ◌∷◌, map, codes, pos, Bytes, cmp_bytes, same_bytes,
  delete,
}
use gae.Datastore.Property.{Value}
use gae.Datastore.Key.{Key, KeyContext, is_incomplete, last_tok}
use gae.Datastore.KeyTok.{KeyTok}
use gae.Datastore.KeyTok
use gae.Datastore.PropertyMap.{PropertyMap, single}
use gae.Serialize.Cmpbin.Unary.{unary}
use gae.Serialize.Write.{write_property_map}
use gae.Serialize.Reader
use gae.Memory.Datastore.Data.{int64}
use gae.Filters.TxnBuf.Interface.{Got, no_such_entity, told, fault, ok, raise, panic, RawInterface}
use gae.Filters.TxnBuf.SizeTracker.{set, no_sizes, weight, IsExact, set-IsExact}
use gae.Filters.TxnBuf.State.{TxnBufState, root_state, update_roots, propose, has, add}
use gae.Filters.TxnBuf.Roots.{IsUpdated, update_roots-IsUpdated}
use gae.Filters.TxnBuf.Methods
use gae.Filters.TxnBuf.Methods.{key_of, txn_buf, fix_keys, fix_incomplete, incompletes}
use gae.Filters.TxnBuf.Mapping.{IsMap, after_puts, after_deletes}
use gae.Filters.TxnBuf.Overlay.{txn_buf-IsMap}
use gae.Filters.TxnBuf.Overlay.State.{IsOverlay, overlay, ok-injective}
use gae.Filters.TxnBuf.Session.{Call, get, put}
use gae.Filters.TxnBuf.Session

-- A datastore that takes every call.
abbrev simple : RawInterface ℕ
simple = record {
  State = Key → Got ℕ;
  get_multi = λ ks s. ok (map s ks) s;
  put_multi = λ kvs s. ok (map (λ kv. told (key_of kv)) kvs) (λ j. after_puts kvs j (s j));
  delete_multi = λ ks s. ok (map (λ k. none) ks) (λ j. after_deletes ks j (s j));
  allocate_ids = λ ks s. ok (map told ks) s;
}

abbrev no_hash : Bytes → Bytes
no_hash b = []

abbrev context : KeyContext
context = record { app_id = codes "a"; namespace = codes "n" }

abbrev AnyState : (Key → Got ℕ) → Type 0
AnyState s = Unit

abbrev shown : (Key → Got ℕ) → Key → Got ℕ
shown s = s

abbrev empty : Key → Got ℕ
empty k = no_such_entity

simple-IsMap : IsMap unary no_hash context simple AnyState shown
simple-IsMap = record {
  get_reads =
      λ ks s gs s' v h e. let (a, b) = ok-injective e in rw (← a, ← b) (refl, tt, λ j. refl);
  get_returns = λ ks s v h e. absurd (cc);
  put_returns = λ kvs s v h e. absurd (cc);
  delete_returns = λ ks s v h e. absurd (cc);
  get_fails = λ ks s x s' v h e. absurd (cc);
  put_writes = λ kvs s ts s' v h e. let (_, b) = ok-injective e in rw (← b) (tt, λ fine j l. refl);
  put_fails = λ kvs s x s' v h e. absurd (cc);
  delete_removes =
      λ ks s es s' v h e. let (_, b) = ok-injective e in rw (← b) (tt, λ fine j l. refl);
  delete_fails = λ ks s x s' v h e. absurd (cc);
}

abbrev entity_key : Key
entity_key = record {
  kc = context;
  first = record { kind = codes "T"; int_id = pos 1; string_id = [] };
  others = [];
}

abbrev entity : PropertyMap
entity = (codes "a", single (record { value = Value.int (pos 7); no_index = false })) ∷ []

-- The bytes that the entity is held as, under any key.
abbrev held : Bytes
held = write_property_map unary false true entity

abbrev calls : List Call
calls =
    get (entity_key ∷ [])
    ∷ put ((entity_key, entity) ∷ [])
    ∷ Session.delete (entity_key ∷ [])
    ∷ put ((entity_key, entity) ∷ [])
    ∷ []

txn_buf-IsMap_example :
    IsMap unary no_hash context
      (txn_buf unary no_hash simple)
      (IsOverlay unary no_hash context simple AnyState shown)
      (overlay unary no_hash context simple AnyState shown)
txn_buf-IsMap_example = txn_buf-IsMap unary no_hash context simple AnyState shown simple-IsMap

set-IsExact_example : IsExact (set (codes "key") 3 no_sizes)
unfolding weight int64
set-IsExact_example = set-IsExact (codes "key") 3 no_sizes refl

-- Two roots, one of them given twice.
abbrev two_roots : TxnBufState
two_roots = record (root_state true) { roots = codes "b" ∷ codes "a" ∷ [] }

update_roots-IsUpdated_example :
    IsUpdated (codes "a" ∷ codes "b" ∷ codes "a" ∷ []) (root_state true) two_roots
unfolding update_roots propose has add root_state same_bytes cmp_bytes
update_roots-IsUpdated_example =
    update_roots-IsUpdated (codes "a" ∷ codes "b" ∷ codes "a" ∷ []) (root_state true) two_roots tt
      refl

-- An incomplete key, for which a datastore that fails gives no ID.
abbrev new_key : Key
new_key = record entity_key { first = record { kind = codes "T"; int_id = pos 0; string_id = [] } }

abbrev failing : RawInterface ℕ
failing = record simple { allocate_ids = λ ks s. raise (fault 1) s }

failed_ids_panic :
    Methods.put_multi unary no_hash failing ((new_key, entity) ∷ []) (root_state true, empty)
    ≡ panic
unfolding Methods.put_multi fix_keys fix_incomplete incompletes is_incomplete last_tok
    KeyTok.is_incomplete same_bytes cmp_bytes
failed_ids_panic = refl
