-- ===== src/KeyStore/Codec.antt =====
-- `encode` and `decode` of runtime/src/key_store.rs on one key, and the sizes that the fields hold.
pub mod RoundTrip
pub mod Safety
use native.Mathlib.Decide.{dec_lt}
use tee_demo.Base.{
  ℕ, zero, suc, ◌+◌, ◌-◌, ◌^◌, ◌%◌, ◌≤◌, ◌<◌, ◌≡◌, refl, sym, ap, ◌∙◌, List, [], ◌∷◌, ◌++◌,
  append_assoc, append-nil, arith, ltb, leb, if◌then◌else◌, length, length-append, take, drop, All,
  Outcome, Fallible, ok, err, panic, ◌>>=◌, slice, slice-at, slice-in_range, Returns, Returns-bind,
  ltb-eq_true, ltb-eq_false,
}
use tee_demo.Base.Bytes.{
  Bytes, Text, text, to_le_bytes, from_le_bytes, as_u8, as_u16, length-to_le_bytes,
  from_le_bytes-to_le_bytes,
}
use tee_demo.KeyStore.{
  StoredKey, KeyStore, encode_key, encode_keys, encode, decode_key, decode_keys, decode,
}

-- What the fixed-width fields of the encoding can hold
pub record KeyFits (k : StoredKey) : Type 0 where
  pub version : k.version < 2 ^ 64
  pub public_key : length k.public_key < 2 ^ 16
  pub private_key : length k.private_key < 2 ^ 16

pub record Fits (store : KeyStore) : Type 0 where
  pub current_version : store.current_version < 2 ^ 64
  pub count : length store.keys < 256
  pub keys : All KeyFits store.keys

module _ (pre rest : Bytes) (k : StoredKey) (fits : KeyFits k) where
  abbrev version_bytes : Bytes
  version_bytes = to_le_bytes 8 k.version

  abbrev pk_len_bytes : Bytes
  pk_len_bytes = to_le_bytes 2 (as_u16 (length k.public_key))

  abbrev sk_len_bytes : Bytes
  sk_len_bytes = to_le_bytes 2 (as_u16 (length k.private_key))

  abbrev whole : Bytes
  whole = pre ++ (encode_key k ++ rest)

  pub length-encode_key : length (encode_key k) ≡ 12 + length k.public_key + length k.private_key
  unfolding encode_key
  length-encode_key = omega (
    arith,
    length-append version_bytes (pk_len_bytes ++ (k.public_key ++ (sk_len_bytes ++ k.private_key))),
    length-append pk_len_bytes (k.public_key ++ (sk_len_bytes ++ k.private_key)),
    length-append k.public_key (sk_len_bytes ++ k.private_key),
    length-append sk_len_bytes k.private_key,
    length-to_le_bytes 8 k.version,
    length-to_le_bytes 2 (as_u16 (length k.public_key)),
    length-to_le_bytes 2 (as_u16 (length k.private_key)),
  )

  length-whole :
      length whole ≡ length pre + 12 + length k.public_key + length k.private_key + length rest
  length-whole = omega (
    arith,
    length-append pre (encode_key k ++ rest),
    length-append (encode_key k) rest,
    length-encode_key,
  )

  slice-version : slice {E = Text} (length pre) (length pre + 8) whole ≡ ok version_bytes
  unfolding encode_key
  slice-version =
      slice-at whole pre version_bytes
        (pk_len_bytes ++ (k.public_key ++ (sk_len_bytes ++ (k.private_key ++ rest)))) _ _
        (simp append_assoc) refl (omega (arith, length-to_le_bytes 8 k.version))

  slice-pk_len : slice {E = Text} (length pre + 8) (length pre + 10) whole ≡ ok pk_len_bytes
  unfolding encode_key
  slice-pk_len =
      slice-at whole (pre ++ version_bytes) pk_len_bytes
        (k.public_key ++ (sk_len_bytes ++ (k.private_key ++ rest))) _ _ (simp append_assoc)
        (omega (arith, length-append pre version_bytes, length-to_le_bytes 8 k.version))
        (omega (arith, length-to_le_bytes 2 (as_u16 (length k.public_key))))

  slice-pk :
      slice {E = Text} (length pre + 10) (length pre + 10 + length k.public_key) whole
      ≡ ok k.public_key
  unfolding encode_key
  slice-pk =
      slice-at whole (pre ++ (version_bytes ++ pk_len_bytes)) k.public_key
        (sk_len_bytes ++ (k.private_key ++ rest)) _ _ (simp append_assoc)
        (omega (
          arith,
          length-append pre (version_bytes ++ pk_len_bytes),
          length-append version_bytes pk_len_bytes,
          length-to_le_bytes 8 k.version,
          length-to_le_bytes 2 (as_u16 (length k.public_key)),
        ))
        refl

  before_sk : Bytes
  before_sk = pre ++ (version_bytes ++ (pk_len_bytes ++ k.public_key))

  length-before_sk : length before_sk ≡ length pre + 10 + length k.public_key
  unfolding before_sk
  length-before_sk = omega (
    arith,
    length-append pre (version_bytes ++ (pk_len_bytes ++ k.public_key)),
    length-append version_bytes (pk_len_bytes ++ k.public_key),
    length-append pk_len_bytes k.public_key,
    length-to_le_bytes 8 k.version,
    length-to_le_bytes 2 (as_u16 (length k.public_key)),
  )

  slice-sk_len :
      slice {E = Text}
        (length pre + 10 + length k.public_key)
        (length pre + 10 + length k.public_key + 2)
        whole
      ≡ ok sk_len_bytes
  unfolding encode_key
  slice-sk_len =
      slice-at whole before_sk sk_len_bytes (k.private_key ++ rest) _ _
        (unfold before_sk in simp append_assoc) length-before_sk
        (omega (arith, length-to_le_bytes 2 (as_u16 (length k.private_key))))

  slice-sk :
      slice {E = Text}
        (length pre + 10 + length k.public_key + 2)
        (length pre + 10 + length k.public_key + 2 + length k.private_key)
        whole
      ≡ ok k.private_key
  unfolding encode_key
  slice-sk =
      slice-at whole (before_sk ++ sk_len_bytes) k.private_key rest _ _
        (unfold before_sk in simp append_assoc)
        (omega (
          arith,
          length-append before_sk sk_len_bytes,
          length-before_sk,
          length-to_le_bytes 2 (as_u16 (length k.private_key)),
        ))
        refl

  pk_len_reads : from_le_bytes pk_len_bytes ≡ length k.public_key
  pk_len_reads = from_le_bytes-to_le_bytes 2 _ (omega arith) ∙ omega (arith, fits.public_key)

  sk_len_reads : from_le_bytes sk_len_bytes ≡ length k.private_key
  sk_len_reads = from_le_bytes-to_le_bytes 2 _ (omega arith) ∙ omega (arith, fits.private_key)

  pub decode_key-encode_key :
      decode_key whole (length pre)
      ≡ ok (k, length pre + 10 + length k.public_key + 2 + length k.private_key)
  unfolding decode_key
  decode_key-encode_key =
      rw
        (
          ltb-eq_false (length whole) (length pre + 8 + 2) (omega (arith, length-whole)),
          slice-version,
          slice-pk_len,
          pk_len_reads,
          ltb-eq_false (length whole) (length pre + 10 + length k.public_key + 2)
              (omega (arith, length-whole)),
          slice-pk,
          slice-sk_len,
          sk_len_reads,
          ltb-eq_false (length whole)
              (length pre + 10 + length k.public_key + 2 + length k.private_key)
              (omega (arith, length-whole)),
          slice-sk,
          from_le_bytes-to_le_bytes 8 k.version fits.version,
        )
        refl
