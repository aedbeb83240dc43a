-- ===== src/KeyStore.antt =====
-- runtime/src/key_store.rs: the enclave's key store, at most two HPKE key pairs and the current
-- version. The proofs are in the modules below.
pub mod Retention
pub mod Codec
pub mod Lookup
pub mod History
pub mod Fitting
use tee_demo.Base.{
  ℕ, zero, suc, ◌+◌, ◌-◌, ◌^◌, ◌%◌, Bool, List, [], ◌∷◌, ◌++◌, map, Option, none, some, ltb, leb,
  ◌==◌, if◌then◌else◌, length, find, last, concat, Outcome, Fallible, ok, err, panic, ◌>>=◌, ◌>>◌,
  map_err, unwrap, slice,
}
use tee_demo.Base.Bytes.{Bytes, Text, text, to_le_bytes, from_le_bytes, as_u8, as_u16}
use tee_demo.Strings.Decimal.{show_nat}
use tee_demo.Protocol.Frame.{err_key_expired, err_key_unknown, err_decrypt_failed}
use tee_demo.Protocol.Platform.{Platform}
use tee_demo.Protocol.Aead

abbrev pub retention : ℕ
retention = 2

pub record StoredKey : Type 0 where
  pub version : ℕ
  pub public_key : Bytes
  pub private_key : Bytes

pub record KeyStore : Type 0 where
  pub current_version : ℕ
  pub keys : List StoredKey

pub data DecryptErr : Type 0 where
  expired unknown failed : DecryptErr

unfoldable pub code : DecryptErr → Text
code expired = err_key_expired
code unknown = err_key_unknown
code failed = err_decrypt_failed

unfoldable pub message : DecryptErr → Text
message expired = text "key version expired (retention=2)"
message unknown = text "key version unknown"
message failed = text "hpke decrypt failed"

-- `while self.keys.len() > RETENTION { self.keys.remove(0); }`
unfoldable pub evict : List StoredKey → List StoredKey
evict [] = []
evict (k ∷ ks) = if ltb retention (length (k ∷ ks)) then evict ks else k ∷ ks

unfoldable pub current : KeyStore → Option StoredKey
current store = find (λ k. k.version == store.current_version) store.keys

unfoldable pub lookup : KeyStore → ℕ → Outcome DecryptErr StoredKey
lookup store version = elim (find (λ k. k.version == version) store.keys) [
  | some k ↦ ok k
  | none ↦ if leb 2 (store.current_version - version) then err expired else err unknown
]

-- One entry of `keyring_json`, given the base64 of its public key
abbrev keyring_entry : ℕ → Text → Text
keyring_entry version public_key = concat (
    text "{\"version\":"
    ∷ show_nat version
    ∷ text ",\"public_key\":\""
    ∷ public_key
    ∷ text "\",\"algorithm\":\"hpke-p256\"}"
    ∷ [])

-- `keys.join(",")`
join : List Text → Text
join [] = []
join (t ∷ []) = t
join (t ∷ u ∷ r) = t ++ (text "," ++ join (u ∷ r))

module _ ⦃plat : Platform⦄ where
  -- The store, and the new key that the source returns a reference to. In a release build the
  -- addition wraps at 2 ^ 64.
  unfoldable pub rotate : ℕ → KeyStore → Fallible (KeyStore × StoredKey)
  unfolding evict
  rotate draw store = do
    (pk, sk) ← Aead.generate_keypair draw
    let version = (store.current_version + 1) % 2 ^ 64
    let key : StoredKey = record { version = version; public_key = pk; private_key = sk }
    let store' : KeyStore = record {
      current_version = version;
      keys = evict (store.keys ++ key ∷ []);
    }
    newest ← unwrap (last store'.keys)
    ok (store', newest)

  -- `KeyStore::new`
  unfoldable pub new : ℕ → Fallible KeyStore
  unfolding rotate
  new draw = do (store, key) ← rotate draw (record { current_version = 0; keys = [] }); ok store

  unfoldable pub decrypt : KeyStore → ℕ → Bytes → Bytes → Outcome DecryptErr Bytes
  unfolding lookup
  decrypt store version ct aad = do
    key ← lookup store version
    map_err (λ e. failed) (Aead.decrypt key.private_key ct aad)

  unfoldable pub keyring_json : KeyStore → Text
  unfolding join
  keyring_json store =
      let entries = map (λ k. keyring_entry k.version (plat.b64_encode k.public_key)) store.keys in
      concat (
        text "{\"v\":1,\"current_version\":"
        ∷ show_nat store.current_version
        ∷ text ",\"keys\":["
        ∷ join entries
        ∷ text "]}"
        ∷ [])

-- The body of the loop of `encode`
unfoldable pub encode_key : StoredKey → Bytes
encode_key k = concat (
    to_le_bytes 8 k.version
    ∷ to_le_bytes 2 (as_u16 (length k.public_key))
    ∷ k.public_key
    ∷ to_le_bytes 2 (as_u16 (length k.private_key))
    ∷ k.private_key
    ∷ [])

unfoldable pub encode_keys : List StoredKey → Bytes
unfolding encode_key
encode_keys [] = []
encode_keys (k ∷ ks) = encode_key k ++ encode_keys ks

unfoldable pub encode : KeyStore → Bytes
unfolding encode_keys
encode store =
    to_le_bytes 8 store.current_version ++ (as_u8 (length store.keys) ∷ encode_keys store.keys)

-- The body of the loop of `decode`: the key at `off`, and the offset behind it
unfoldable pub decode_key : Bytes → ℕ → Fallible (StoredKey × ℕ)
decode_key bytes off =
    if ltb (length bytes) (off + 8 + 2) then err (text "truncated keystore") else (do
      version ← slice off (off + 8) bytes
      pk_len_bytes ← slice (off + 8) (off + 10) bytes
      let pk_len = from_le_bytes pk_len_bytes
      let off_pk = off + 10
      if ltb (length bytes) (off_pk + pk_len + 2) then err (text "truncated pubkey") else (do
        public_key ← slice off_pk (off_pk + pk_len) bytes
        sk_len_bytes ← slice (off_pk + pk_len) (off_pk + pk_len + 2) bytes
        let sk_len = from_le_bytes sk_len_bytes
        let off_sk = off_pk + pk_len + 2
        if ltb (length bytes) (off_sk + sk_len) then err (text "truncated seckey") else (do
          private_key ← slice off_sk (off_sk + sk_len) bytes
          ok (
            record {
              version = from_le_bytes version;
              public_key = public_key;
              private_key = private_key;
            },
            off_sk + sk_len,
          ))))

-- `for _ in 0..n`
unfoldable pub decode_keys : ℕ → Bytes → ℕ → Fallible (List StoredKey)
unfolding decode_key
decode_keys zero bytes off = ok []
decode_keys (suc n) bytes off = do
  (k, off') ← decode_key bytes off
  ks ← decode_keys n bytes off'
  ok (k ∷ ks)

unfoldable pub decode : Bytes → Fallible KeyStore
unfolding decode_keys
decode bytes = if ltb (length bytes) 9 then err (text "keystore too short") else (do
  version ← slice 0 8 bytes
  count ← slice 8 9 bytes
  keys ← decode_keys (from_le_bytes count) bytes 9
  ok (record { current_version = from_le_bytes version; keys = keys }))
