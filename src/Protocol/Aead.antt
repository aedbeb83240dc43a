-- ===== src/Protocol/Aead.antt =====
-- protocol/src/aead.rs: the associated data and the HPKE envelope
-- `enc_len : u16 LE || enc || ciphertext`.
pub mod Envelopes
use tee_demo.Base.{
  ℕ, ◌+◌, ◌-◌, List, [], ◌∷◌, ◌++◌, ltb, if◌then◌else◌, length, concat, Fallible, ok, err, ◌>>=◌,
  ◌>>◌, map_err, slice,
}
use tee_demo.Base.Bytes.{Bytes, Text, text, to_le_bytes, from_le_bytes, as_u16}
use tee_demo.Strings.Decimal.{show_nat}
use tee_demo.Protocol.Platform.{Platform}

abbrev pub hpke_info : Bytes
hpke_info = text "tee-demo/hpke-p256/v1"

unfoldable pub aad_json : ℕ → ℕ → Text → ℕ → Text
aad_json v id op key_version = concat (
    text "{\"v\":"
    ∷ show_nat v
    ∷ text ",\"id\":"
    ∷ show_nat id
    ∷ text ",\"op\":\""
    ∷ op
    ∷ text "\",\"key_version\":"
    ∷ show_nat key_version
    ∷ text "}"
    ∷ [])

module _ ⦃plat : Platform⦄ where
  -- The public and the private key of a draw of the random generator
  unfoldable pub generate_keypair : ℕ → Fallible (Bytes × Bytes)
  generate_keypair draw = ok (plat.gen_keypair draw)

  unfoldable pub encrypt : ℕ → Bytes → Bytes → Bytes → Fallible Bytes
  encrypt draw public_key plaintext aad = do
    pk ←
        map_err (λ e. text "invalid hpke public key: " ++ e) (plat.public_key_from_bytes public_key)
    (enc, ct) ←
        map_err (λ e. text "hpke seal: " ++ e)
          (plat.single_shot_seal draw pk hpke_info plaintext aad)
    ok (to_le_bytes 2 (as_u16 (length enc)) ++ (enc ++ ct))

  unfoldable pub decrypt : Bytes → Bytes → Bytes → Fallible Bytes
  decrypt private_key ct aad = if ltb (length ct) 2 then err (text "ct too short") else (do
    enc_len_bytes ← slice 0 2 ct
    let enc_len = from_le_bytes enc_len_bytes
    if ltb (length ct) (2 + enc_len) then err (text "ct truncated") else (do
      enc_bytes ← slice 2 (2 + enc_len) ct
      ciphertext ← slice (2 + enc_len) (length ct) ct
      sk ←
          map_err (λ e. text "invalid hpke private key: " ++ e)
            (plat.private_key_from_bytes private_key)
      enc ←
          map_err (λ e. text "invalid hpke encapsulated key: " ++ e)
            (plat.encapped_key_from_bytes enc_bytes)
      map_err (λ e. text "hpke open: " ++ e)
          (plat.single_shot_open sk enc hpke_info ciphertext aad)))
