-- ===== src/Filters/TxnBuf/Keys.antt =====
-- The encodings of keys in a buffered transaction tell the keys apart.
use gae.Prelude.{◌≡◌, refl, sym, ap, ◌∙◌, false, some, [], arith, Bytes, same_bytes, same_bytes_iff}
use mathlib.Core.List.{append-nil}
use gae.Datastore.Key.{Key, KeyContext, equal, is_incomplete}
use gae.Datastore.Key.Identity.{equal_iff}
use gae.Datastore.Property.{Value, check_valid}
use gae.Serialize.Cmpbin.{Cmpbin}
use gae.Serialize.Read.{read_key, read_property}
use gae.Serialize.Read.RoundTrip.{IsReadableKey, key-back, read_property-write_property}
use gae.Memory.Datastore.Data.{key_bytes}
use gae.Filters.TxnBuf.Methods.{encode}
use gae.Filters.TxnBuf.Commit.{key_read, maybe_key}

module _ (c : Cmpbin) (sha256 : Bytes → Bytes) (kc : KeyContext) where
  -- A complete key of the context, with at most 50 tokens, each of a string ID or a positive one.
  pub record IsKey (k : Key) : Type 0 where
    pub context : k.kc ≡ kc
    pub readable : IsReadableKey c k
    pub complete : is_incomplete k ≡ false

  pub encode-reads :
      (k : Key) → IsKey k → maybe_key (read_key c false kc (encode c sha256 k)) ≡ some k
  encode-reads k h =
      ap (λ b. maybe_key (read_key c false kc b)) (sym (append-nil (encode c sha256 k)))
      ∙ ap maybe_key (key-back c false kc k [] h.readable)
      ∙ ap (λ x. some (record k { kc = x })) (sym h.context)

  pub key_bytes-reads :
      (k : Key) → IsKey k → key_read (read_property c false kc (key_bytes c sha256 k)) ≡ some k
  unfolding key_bytes check_valid
  key_bytes-reads k h =
      ap (λ b. key_read (read_property c false kc b)) (sym (append-nil (key_bytes c sha256 k)))
      ∙ ap key_read (
          read_property-write_property c false kc (record { value = Value.key k; no_index = false })
            [] (h.readable, refl))
      ∙ ap (λ x. some (record k { kc = x })) (sym h.context)

  some_eq : {A : Type 0} (a b : A) → some a ≡ some b → a ≡ b
  some_eq a b e = cc

  pub same-encode :
      (k j : Key)
      → IsKey k
      → IsKey j
      → same_bytes (encode c sha256 k) (encode c sha256 j) ≡ equal k j
  same-encode k j h l = ground (
    arith,
    same_bytes_iff (encode c sha256 k) (encode c sha256 j),
    equal_iff k j,
    λ (e : encode c sha256 k ≡ encode c sha256 j).
        some_eq k j (
          sym (encode-reads k h)
          ∙ ap (λ b. maybe_key (read_key c false kc b)) e
          ∙ encode-reads j l),
  )

  pub same-key_bytes :
      (k j : Key)
      → IsKey k
      → IsKey j
      → same_bytes (key_bytes c sha256 k) (key_bytes c sha256 j) ≡ equal k j
  same-key_bytes k j h l = ground (
    arith,
    same_bytes_iff (key_bytes c sha256 k) (key_bytes c sha256 j),
    equal_iff k j,
    λ (e : key_bytes c sha256 k ≡ key_bytes c sha256 j). some_eq k j (
        sym (key_bytes-reads k h)
        ∙ ap (λ b. key_read (read_property c false kc b)) e
        ∙ key_bytes-reads j l),
  )
