-- ===== src/Sealing/Safety.antt =====
-- `unseal` on a blob that the untrusted loader made up.
use tee_demo.Base.{
  ℕ, ◌+◌, ◌≤◌, ◌≡◌, inl, inr, arith, same, ok, length, length-drop, length-take, take, drop,
  map_err, Bool-cases, Returns, Returns-bind, Returns-bind_ok, Returns-map_err,
  Returns-unless_short, Returns-slice,
}
use tee_demo.Base.Bytes.{Bytes, from_le_bytes}
use tee_demo.Protocol.Platform.{Platform, Keyrequest}
use tee_demo.KeyStore.Codec.Safety.{decode-Returns}
use tee_demo.KeyStore.{KeyStore, encode}
use tee_demo.Sealing.{magic, hdr, for_self, seal_key, seal, open_blob, unseal}

-- The calls of sgx-isa, aes-gcm and getrandom return, `Nonce::from_slice` on 12 bytes and AES-GCM on
-- the keys and nonces that it made; getrandom fills the array that it is given.
pub record SealingReturns (plat : Platform) : Type 0 where
  pub derives : (req : Keyrequest) → Returns (plat.egetkey req)
  pub takes_key : (key : Bytes) → Returns (plat.aes_key_from_slice key)
  pub takes_nonce : (bytes : Bytes) → length bytes ≡ 12 → Returns (plat.nonce_from_slice bytes)
  pub encrypts :
      (cipher bytes nonce m : Bytes)
      → plat.nonce_from_slice bytes ≡ ok nonce
      → Returns (plat.aes_encrypt cipher nonce m)
  pub decrypts :
      (cipher bytes nonce ct : Bytes)
      → plat.nonce_from_slice bytes ≡ ok nonce
      → Returns (plat.aes_decrypt cipher nonce ct)
  pub draws : (draw n : ℕ) → Returns (plat.getrandom draw n)
  pub fills : (draw n : ℕ) (bytes : Bytes) → plat.getrandom draw n ≡ ok bytes → length bytes ≡ n

module _ ⦃plat : Platform⦄ where
  pub seal-Returns : (draw : ℕ) (store : KeyStore) → SealingReturns plat → Returns (seal draw store)
  unfolding seal seal_key
  seal-Returns draw store calls =
      Returns-bind (plat.getrandom draw 32) _ (calls.draws draw 32) λ keyid.
        Returns-bind (seal_key for_self keyid) _ (Returns-map_err _ _ (calls.derives _)) λ key.
          Returns-bind (plat.aes_key_from_slice key) _ (calls.takes_key key) λ cipher.
            Returns-bind_ok (plat.getrandom (draw + 1) 12) _ (calls.draws (draw + 1) 12)
              λ bytes drawn.
                Returns-bind_ok (plat.nonce_from_slice bytes) _
                  (calls.takes_nonce bytes (calls.fills (draw + 1) 12 bytes drawn))
                  λ nonce made.
                    Returns-bind (map_err _ (plat.aes_encrypt cipher nonce (encode store))) _
                      (Returns-map_err _ _ (calls.encrypts cipher bytes nonce (encode store) made))
                      λ ct. tt

  open_blob-Returns :
      (blob : Bytes) → SealingReturns plat → hdr + 16 ≤ length blob → Returns (open_blob blob)
  unfolding seal_key
  open_blob-Returns blob calls h = Returns-slice 4 36 blob _ (omega arith) (omega arith) (
      Returns-slice 36 38 blob _ (omega arith) (omega arith) (
        Returns-slice 38 54 blob _ (omega arith) (omega arith) (
          Returns-slice 54 66 blob _ (omega arith) (omega arith) (
            Returns-slice 66 (length blob) blob _ (omega arith) (omega arith) (
              Returns-bind
                (seal_key
                  (record {
                    isvsvn = from_le_bytes (take 2 (drop 36 blob));
                    cpusvn = take 16 (drop 38 blob);
                  })
                  (take 32 (drop 4 blob)))
                _ (Returns-map_err _ _ (calls.derives _))
                λ key. Returns-bind (plat.aes_key_from_slice key) _ (calls.takes_key key) λ cipher.
                  let bytes = take 12 (drop 54 blob) in
                  Returns-bind_ok (plat.nonce_from_slice bytes) _
                    (calls.takes_nonce bytes
                      (length-take 12 (drop 54 blob) (omega (arith, length-drop 54 blob))))
                    λ nonce made.
                      Returns-bind (map_err _ (plat.aes_decrypt cipher nonce _)) _
                        (Returns-map_err _ _ (calls.decrypts cipher bytes nonce _ made))
                        λ pt. decode-Returns pt)))))

  -- Whatever the blob, `unseal` returns a store or an error and does not panic, provided that the
  -- calls of sgx-isa and aes-gcm do not.
  pub unseal-Returns : (blob : Bytes) → SealingReturns plat → Returns (unseal blob)
  unfolding unseal
  unseal-Returns blob calls = Returns-unless_short (length blob) (hdr + 16) _ _ λ h.
      Returns-slice 0 4 blob _ (omega arith) (omega arith)
        (elim (Bool-cases (same (take 4 blob) magic)) [
          | inl e ↦ rw e (open_blob-Returns blob calls h)
          | inr e ↦ rw e tt
        ])
