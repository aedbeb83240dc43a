-- ===== src/Protocol/Platform.antt =====
-- What host and runtime use of crates that are not part of the repository: base64, sha2, hpke,
-- aes-gcm, sgx-isa, getrandom, and the clock. A random generator is read by a counter of draws,
-- the clock by a counter of readings. A parsed key or target info is given by its bytes.
use tee_demo.Base.{ℕ, ◌^◌, ◌<◌, ◌≡◌, Option, Fallible, ok, length}
use tee_demo.Base.Bytes.{Bytes, Text}

-- The fields of sgx_isa's `Keyrequest` that the sealing code fills in
pub record Keyrequest : Type 0 where
  pub keyname : ℕ
  pub keypolicy : Text
  pub isvsvn : ℕ
  pub cpusvn : Bytes
  pub attributemask : ℕ × ℕ
  pub keyid : Bytes
  pub miscmask : ℕ

pub record Platform : Type 0 where
  -- base64, STANDARD
  pub b64_encode : Bytes → Text
  pub b64_decode : Bytes → Fallible Bytes
  -- sha2
  pub sha256 : Bytes → Bytes
  -- hpke, at DhP256HkdfSha256, HkdfSha256, AesGcm128: the public and the private key of a draw
  pub gen_keypair : ℕ → Bytes × Bytes
  pub public_key_from_bytes : Bytes → Fallible Bytes
  pub private_key_from_bytes : Bytes → Fallible Bytes
  pub encapped_key_from_bytes : Bytes → Fallible Bytes
  -- draw, public key, info, plaintext, associated data
  pub single_shot_seal : ℕ → Bytes → Bytes → Bytes → Bytes → Fallible (Bytes × Bytes)
  -- private key, encapsulated key, info, ciphertext, associated data
  pub single_shot_open : Bytes → Bytes → Bytes → Bytes → Bytes → Fallible Bytes
  -- aes-gcm: `Aes128Gcm::new_from_slice`, `Nonce::from_slice`; key, nonce and message
  pub aes_key_from_slice : Bytes → Fallible Bytes
  pub nonce_from_slice : Bytes → Fallible Bytes
  pub aes_encrypt : Bytes → Bytes → Bytes → Fallible Bytes
  pub aes_decrypt : Bytes → Bytes → Bytes → Fallible Bytes
  -- sgx-isa: `Report::for_self`, `egetkey`, `Targetinfo::try_copy_from`, `Report::for_target`
  pub self_isvsvn : ℕ
  pub self_cpusvn : Bytes
  pub egetkey : Keyrequest → Fallible Bytes
  pub targetinfo_try_copy_from : Bytes → Option Bytes
  pub report_for_target : Bytes → Bytes → Bytes
  -- getrandom: draw and length
  pub getrandom : ℕ → ℕ → Fallible Bytes
  -- seconds since the epoch, 0 if the clock is before it
  pub now_secs : ℕ → ℕ

-- `sk` opens what is sealed to `pk`, whatever the draw, the message and the associated data.
pub record Envelope (p : Platform) (pk sk info : Bytes) (draw : ℕ) (pt aad : Bytes) : Type 0 where
  pub public_key : Bytes
  pub private_key : Bytes
  pub enc : Bytes
  pub parsed_enc : Bytes
  pub sealed_text : Bytes
  pub public_parses : p.public_key_from_bytes pk ≡ ok public_key
  pub private_parses : p.private_key_from_bytes sk ≡ ok private_key
  pub seals : p.single_shot_seal draw public_key info pt aad ≡ ok (enc, sealed_text)
  pub enc_short : length enc < 2 ^ 16
  pub enc_parses : p.encapped_key_from_bytes enc ≡ ok parsed_enc
  pub opens : p.single_shot_open private_key parsed_enc info sealed_text aad ≡ ok pt

abbrev pub IsKeyPair : Platform → Bytes → Bytes → Type 0
IsKeyPair p pk sk = (info : Bytes) (draw : ℕ) (pt aad : Bytes) → Envelope p pk sk info draw pt aad
