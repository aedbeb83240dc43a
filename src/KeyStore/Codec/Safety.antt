-- ===== src/KeyStore/Codec/Safety.antt =====
-- `decode` never panics: each slice that it takes is in range.
use tee_demo.Base.{
  ℕ, zero, suc, ◌+◌, arith, length, take, drop, Returns, Returns-bind, Returns-unless_short,
  Returns-slice,
}
use tee_demo.Base.Bytes.{Bytes, from_le_bytes}
use tee_demo.KeyStore.{decode_key, decode_keys, decode}

decode_key-Returns : (bytes : Bytes) (off : ℕ) → Returns (decode_key bytes off)
unfolding decode_key
decode_key-Returns bytes off = Returns-unless_short (length bytes) (off + 8 + 2) _ _ λ h1.
    Returns-slice off (off + 8) bytes _ (omega arith) (omega arith) (
      Returns-slice (off + 8) (off + 10) bytes _ (omega arith) (omega arith) (
        Returns-unless_short (length bytes) _ _ _ λ h2.
          Returns-slice _ _ bytes _ (omega arith) (omega arith) (
            Returns-slice _ _ bytes _ (omega arith) (omega arith) (
              Returns-unless_short (length bytes) _ _ _
                λ h3. Returns-slice _ _ bytes _ (omega arith) (omega arith) tt))))

decode_keys-Returns : (n : ℕ) (bytes : Bytes) (off : ℕ) → Returns (decode_keys n bytes off)
unfolding decode_keys
decode_keys-Returns zero bytes off = tt
decode_keys-Returns (suc n) bytes off =
    Returns-bind (decode_key bytes off) _ (decode_key-Returns bytes off) λ (k, off').
      Returns-bind (decode_keys n bytes off') _ (decode_keys-Returns n bytes off') λ ks. tt

-- Whatever bytes an unsealed blob holds, `decode` returns a store or an error; it does not panic.
pub decode-Returns : (bytes : Bytes) → Returns (decode bytes)
unfolding decode
decode-Returns bytes = Returns-unless_short (length bytes) 9 _ _ λ h.
    Returns-slice 0 8 bytes _ (omega arith) (omega arith) (
      Returns-slice 8 9 bytes _ (omega arith) (omega arith) (
        Returns-bind (decode_keys (from_le_bytes (take 1 (drop 8 bytes))) bytes 9) _
          (decode_keys-Returns _ bytes 9) λ keys. tt {0}))
