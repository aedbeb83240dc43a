-- ===== src/Protocol/Binding.antt =====
-- `report_data_binding` of protocol/src/lib.rs: what a quote says about a public key.
pub mod Collision
use tee_demo.Base.{ℕ, ◌+◌, List, [], ◌∷◌, ◌++◌, length, replicate, concat}
use tee_demo.Base.Bytes.{Bytes, to_le_bytes, as_u16, as_u8}
use tee_demo.Protocol.Frame.{protocol_version}
use tee_demo.Protocol.Platform.{Platform}

-- What the hasher is fed
abbrev pub binding_message : ℕ → Bytes → Bytes → Bytes
binding_message key_version public_key nonce = concat (
    to_le_bytes 2 protocol_version
    ∷ to_le_bytes 8 key_version
    ∷ to_le_bytes 2 (as_u16 (length public_key))
    ∷ public_key
    ∷ (as_u8 (length nonce) ∷ [])
    ∷ nonce
    ∷ [])

module _ ⦃plat : Platform⦄ where
  -- The digest in the first 32 of 64 bytes
  unfoldable pub report_data_binding : ℕ → Bytes → Bytes → Bytes
  report_data_binding key_version public_key nonce =
      let digest = plat.sha256 (binding_message key_version public_key nonce) in
      digest ++ replicate 32 0

  -- The binding without a key, kept for comparison
  unfoldable pub report_data_from_nonce : Bytes → Bytes
  unfolding report_data_binding
  report_data_from_nonce nonce = report_data_binding 0 [] nonce
