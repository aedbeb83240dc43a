-- ===== src/KeyStore/Codec/RoundTrip.antt =====
-- A key store that is encoded decodes to itself.
use tee_demo.Base.{
  ℕ, ◌+◌, ◌<◌, ◌≡◌, refl, sym, ap, ◌∙◌, List, [], ◌∷◌, ◌++◌, append_assoc, arith, length,
  length-append, All, ok, slice-at, ltb-eq_false,
}
use tee_demo.Base.Bytes.{
  Bytes, Text, to_le_bytes, from_le_bytes, as_u8, length-to_le_bytes, from_le_bytes-to_le_bytes,
}
use tee_demo.KeyStore.{
  StoredKey, KeyStore, encode_key, encode_keys, encode, decode_key, decode_keys, decode,
}
use tee_demo.KeyStore.Codec.{KeyFits, Fits, length-encode_key, decode_key-encode_key}

decode_keys-encode_keys :
    (ks : List StoredKey) (pre rest bytes : Bytes) (off : ℕ)
    → All KeyFits ks
    → bytes ≡ pre ++ (encode_keys ks ++ rest)
    → length pre ≡ off
    → decode_keys (length ks) bytes off ≡ ok ks
unfolding decode_keys encode_keys
decode_keys-encode_keys [] pre rest bytes off fits whole at = refl
decode_keys-encode_keys (k ∷ ks) pre rest bytes off fits whole at =
    let whole' : bytes ≡ pre ++ (encode_key k ++ (encode_keys ks ++ rest)) =
      whole ∙ ap (λ t. pre ++ t) (append_assoc (encode_key k) (encode_keys ks) rest) in
    let off' : ℕ = length pre + 10 + length k.public_key + 2 + length k.private_key in
    let one : decode_key bytes off ≡ ok (k, off') =
      rw (whole', ← at) (decode_key-encode_key pre (encode_keys ks ++ rest) k fits.0) in
    let more : decode_keys (length ks) bytes off' ≡ ok ks =
      decode_keys-encode_keys ks (pre ++ encode_key k) rest bytes off' fits.1
        (whole' ∙ sym (append_assoc pre (encode_key k) (encode_keys ks ++ rest)))
        (omega (arith, length-append pre (encode_key k), length-encode_key pre rest k fits.0)) in
    rw (one, more) refl

count_reads : (n : ℕ) → n < 256 → from_le_bytes (as_u8 n ∷ []) ≡ n
unfolding from_le_bytes
count_reads n h = omega arith

-- A store whose versions, key lengths and number of keys fit their fields decodes from its
-- encoding to itself, whatever bytes follow the encoding.
pub decode-encode :
    (store : KeyStore) (rest : Bytes) → Fits store → decode (encode store ++ rest) ≡ ok store
unfolding decode encode
decode-encode store rest fits =
    let version = to_le_bytes 8 store.current_version in
    let count : Bytes = as_u8 (length store.keys) ∷ [] in
    let body = encode_keys store.keys in
    let bytes = (version ++ (as_u8 (length store.keys) ∷ body)) ++ rest in
    let len8 = length-to_le_bytes 8 store.current_version in
    let whole : bytes ≡ version ++ (count ++ (body ++ rest)) =
      append_assoc version (as_u8 (length store.keys) ∷ body) rest in
    rw
      (
        ltb-eq_false (length bytes) 9
            (omega (arith, ap length whole, length-append version (count ++ (body ++ rest)), len8)),
        slice-at {E = Text} bytes [] version (count ++ (body ++ rest)) 0 8 whole refl
            (omega (arith, len8)),
        slice-at {E = Text} bytes version count (body ++ rest) 8 9 whole len8 (omega arith),
        from_le_bytes-to_le_bytes 8 store.current_version fits.current_version,
        count_reads (length store.keys) fits.count,
      )
      (rw
        (decode_keys-encode_keys store.keys (version ++ count) rest bytes 9 fits.keys
          (whole ∙ sym (append_assoc version count (body ++ rest)))
          (omega (arith, length-append version count, len8)))
        refl)
