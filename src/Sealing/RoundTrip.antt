-- ===== src/Sealing/RoundTrip.antt =====
-- A sealed key store unseals to itself on the platform that sealed it.
use tee_demo.Base.{
  ℕ, ◌+◌, ◌^◌, ◌≤◌, ◌<◌, ◌≡◌, refl, sym, ap, ◌∙◌, [], ◌∷◌, ◌++◌, append_assoc, append-nil, arith,
  same_refl, length, length-append, concat, ok, slice, slice-at, ltb-eq_false,
}
use tee_demo.Base.Bytes.{Bytes, Text, to_le_bytes, length-to_le_bytes, from_le_bytes-to_le_bytes}
use tee_demo.Protocol.Platform.{Platform}
use tee_demo.KeyStore.{KeyStore, encode, decode}
use tee_demo.KeyStore.Codec.{Fits}
use tee_demo.KeyStore.Codec.RoundTrip.{decode-encode}
use tee_demo.Sealing.{magic, hdr, for_self, seal_key, seal, unseal}

-- What sealing relies on: the widths of the hardware's fields, random bytes of the length that is
-- asked for, a seal key of 16 bytes for the enclave's own report, and AES-GCM, which takes a key of
-- 16 bytes and a nonce of 12, opens what it encrypted, and whose ciphertext has a tag of 16 bytes.
pub record SealSupport (p : Platform) : Type 0 where
  pub isvsvn_width : p.self_isvsvn < 2 ^ 16
  pub cpusvn_width : length p.self_cpusvn ≡ 16
  pub random_bytes : (draw n : ℕ) → (r : Bytes) × (p.getrandom draw n ≡ ok r) × (length r ≡ n)
  pub derives :
      (keyid : Bytes)
      → length keyid ≡ 32
      → (key : Bytes) × (seal_key ⦃plat = p⦄ (for_self ⦃plat = p⦄) keyid ≡ ok key)
        × (length key ≡ 16)
  pub takes_key :
      (key : Bytes) → length key ≡ 16 → (cipher : Bytes) × (p.aes_key_from_slice key ≡ ok cipher)
  pub takes_nonce :
      (bytes : Bytes) → length bytes ≡ 12 → (nonce : Bytes) × (p.nonce_from_slice bytes ≡ ok nonce)
  pub opens :
      (key cipher bytes nonce m : Bytes)
      → p.aes_key_from_slice key ≡ ok cipher
      → p.nonce_from_slice bytes ≡ ok nonce
      → (ct : Bytes) × (p.aes_encrypt cipher nonce m ≡ ok ct)
        × (16 ≤ length ct)
        × (p.aes_decrypt cipher nonce ct ≡ ok m)

abbrev blob_of : Bytes → Bytes → Bytes → Bytes → ℕ → Bytes
blob_of keyid cpusvn nonce ct isvsvn =
    concat (magic ∷ keyid ∷ to_le_bytes 2 isvsvn ∷ cpusvn ∷ nonce ∷ ct ∷ [])

-- The slices of a blob
module _ (keyid cpusvn nonce ct : Bytes) (isvsvn : ℕ) (hk : length keyid ≡ 32)
    (hc : length cpusvn ≡ 16) (hn : length nonce ≡ 12) where
  abbrev isvsvn_bytes : Bytes
  isvsvn_bytes = to_le_bytes 2 isvsvn

  abbrev blob : Bytes
  blob = blob_of keyid cpusvn nonce ct isvsvn

  length-blob : length blob ≡ 66 + length ct
  length-blob = omega (
    arith,
    length-append keyid (isvsvn_bytes ++ (cpusvn ++ (nonce ++ ct))),
    length-append isvsvn_bytes (cpusvn ++ (nonce ++ ct)),
    length-append cpusvn (nonce ++ ct),
    length-append nonce ct,
    length-to_le_bytes 2 isvsvn,
  )

  slice-magic : slice {E = Text} 0 4 blob ≡ ok magic
  slice-magic =
      slice-at blob [] magic (keyid ++ (isvsvn_bytes ++ (cpusvn ++ (nonce ++ ct)))) 0 4 refl refl
        refl

  slice-keyid : slice {E = Text} 4 36 blob ≡ ok keyid
  slice-keyid =
      slice-at blob magic keyid (isvsvn_bytes ++ (cpusvn ++ (nonce ++ ct))) 4 36 refl refl
        (omega (arith, hk))

  slice-isvsvn : slice {E = Text} 36 38 blob ≡ ok isvsvn_bytes
  slice-isvsvn =
      slice-at blob (magic ++ keyid) isvsvn_bytes (cpusvn ++ (nonce ++ ct)) 36 38 refl
        (omega (arith, hk)) (omega (arith, length-to_le_bytes 2 isvsvn))

  slice-cpusvn : slice {E = Text} 38 54 blob ≡ ok cpusvn
  slice-cpusvn =
      slice-at blob (magic ++ (keyid ++ isvsvn_bytes)) cpusvn (nonce ++ ct) 38 54
        (simp append_assoc)
        (omega (arith, length-append keyid isvsvn_bytes, length-to_le_bytes 2 isvsvn))
        (omega (arith, hc))

  slice-nonce : slice {E = Text} 54 66 blob ≡ ok nonce
  slice-nonce =
      slice-at blob (magic ++ (keyid ++ (isvsvn_bytes ++ cpusvn))) nonce ct 54 66
        (simp append_assoc)
        (omega (
          arith,
          length-append keyid (isvsvn_bytes ++ cpusvn),
          length-append isvsvn_bytes cpusvn,
          length-to_le_bytes 2 isvsvn,
        ))
        (omega (arith, hn))

  slice-ct : slice {E = Text} 66 (length blob) blob ≡ ok ct
  slice-ct =
      slice-at blob (magic ++ (keyid ++ (isvsvn_bytes ++ (cpusvn ++ nonce)))) ct [] 66 (length blob)
        (simp (append_assoc, append-nil))
        (omega (
          arith,
          length-append keyid (isvsvn_bytes ++ (cpusvn ++ nonce)),
          length-append isvsvn_bytes (cpusvn ++ nonce),
          length-append cpusvn nonce,
          length-to_le_bytes 2 isvsvn,
        ))
        (omega (arith, length-blob))

module _ ⦃plat : Platform⦄ where
  -- Once the key is derived and the ciphertext opens, the blob unseals to what it holds.
  unseal_parts :
      (keyid nonce ct key cipher parsed : Bytes) (store : KeyStore)
      → SealSupport plat
      → length keyid ≡ 32
      → length nonce ≡ 12
      → seal_key for_self keyid ≡ ok key
      → plat.aes_key_from_slice key ≡ ok cipher
      → plat.nonce_from_slice nonce ≡ ok parsed
      → 16 ≤ length ct
      → plat.aes_decrypt cipher parsed ct ≡ ok (encode store)
      → decode (encode store) ≡ ok store
      → unseal (blob_of keyid plat.self_cpusvn nonce ct plat.self_isvsvn) ≡ ok store
  unfolding unseal
  unseal_parts keyid nonce ct key cipher parsed store s hk hn k c p tag opened decoded =
      let cpusvn = plat.self_cpusvn in
      let isvsvn = plat.self_isvsvn in
      let b = blob_of keyid cpusvn nonce ct isvsvn in
      rw
        (
          ltb-eq_false (length b) (hdr + 16)
              (omega (arith, length-blob keyid cpusvn nonce ct isvsvn hk s.cpusvn_width hn)),
          slice-magic keyid cpusvn nonce ct isvsvn hk s.cpusvn_width hn,
          same_refl magic,
          slice-keyid keyid cpusvn nonce ct isvsvn hk s.cpusvn_width hn,
          slice-isvsvn keyid cpusvn nonce ct isvsvn hk s.cpusvn_width hn,
          slice-cpusvn keyid cpusvn nonce ct isvsvn hk s.cpusvn_width hn,
          slice-nonce keyid cpusvn nonce ct isvsvn hk s.cpusvn_width hn,
          slice-ct keyid cpusvn nonce ct isvsvn hk s.cpusvn_width hn,
          from_le_bytes-to_le_bytes 2 isvsvn s.isvsvn_width,
          k,
          c,
          p,
          opened,
        )
        decoded

  -- On a platform with what sealing relies on, a key store that fits its encoding seals to a blob,
  -- and the blob unseals to the same store.
  pub unseal-seal :
      (draw : ℕ) (store : KeyStore)
      → SealSupport plat
      → Fits store
      → (blob : Bytes) × (seal draw store ≡ ok blob) × (unseal blob ≡ ok store)
  unfolding seal
  unseal-seal draw store s fits =
      let (keyid, hk, lk) = s.random_bytes draw 32 in
      let (nonce, hn, ln) = s.random_bytes (draw + 1) 12 in
      let (key, k, width) = s.derives keyid lk in
      let (cipher, c) = s.takes_key key width in
      let (parsed, p) = s.takes_nonce nonce ln in
      let (ct, enc, tag, opened) = s.opens key cipher nonce parsed (encode store) c p in
      let decoded : decode (encode store) ≡ ok store =
        ap decode (sym (append-nil (encode store))) ∙ decode-encode store [] fits in
      (
        blob_of keyid plat.self_cpusvn nonce ct plat.self_isvsvn,
        rw (hk, k, c, hn, p, enc) refl,
        unseal_parts keyid nonce ct key cipher parsed store s lk ln k c p tag opened decoded,
      )
