-- ===== src/Sealing.antt =====
-- runtime/src/sealing.rs, the SGX build: the sealed blob
-- `magic[4] || keyid[32] || isvsvn[2] || cpusvn[16] || nonce[12] || ciphertext and tag`.
pub mod RoundTrip
pub mod Safety
use tee_demo.Base.{
  ℕ, ◌+◌, ◌-◌, ◌^◌, Bool, not, ◌||◌, List, [], ◌∷◌, ◌++◌, ltb, if◌then◌else◌, same, length, concat,
  Outcome, Fallible, ok, err, ◌>>=◌, map_err, slice,
}
use tee_demo.Base.Bytes.{Bytes, Text, text, to_le_bytes, from_le_bytes}
use tee_demo.Protocol.Platform.{Platform, Keyrequest}
use tee_demo.KeyStore.{KeyStore, encode, decode}

abbrev pub magic : Bytes
magic = text "TDK1"

abbrev pub keyname_seal : ℕ
keyname_seal = 4

-- The two fields of sgx_isa's `Report` that the sealing code reads and writes
pub record Report : Type 0 where
  pub isvsvn : ℕ
  pub cpusvn : Bytes

abbrev pub hdr : ℕ
hdr = 4 + 32 + 2 + 16 + 12

module _ ⦃plat : Platform⦄ where
  -- `Report::for_self`
  abbrev pub for_self : Report
  for_self = record { isvsvn = plat.self_isvsvn; cpusvn = plat.self_cpusvn }

  unfoldable pub seal_key : Report → Bytes → Fallible Bytes
  seal_key report keyid = do
    let req : Keyrequest = record {
      keyname = keyname_seal;
      keypolicy = text "MRENCLAVE";
      isvsvn = report.isvsvn;
      cpusvn = report.cpusvn;
      attributemask = (2 ^ 64 - 1, 2 ^ 64 - 1);
      keyid = keyid;
      miscmask = 2 ^ 32 - 1;
    }
    map_err (λ e. text "egetkey: " ++ e) (plat.egetkey req)

  -- The key id comes from the draw, the nonce from the next one.
  unfoldable pub seal : ℕ → KeyStore → Fallible Bytes
  unfolding seal_key
  seal draw store = do
    let report = for_self
    keyid ← plat.getrandom draw 32
    key ← seal_key report keyid
    cipher ← plat.aes_key_from_slice key
    nonce_bytes ← plat.getrandom (draw + 1) 12
    nonce ← plat.nonce_from_slice nonce_bytes
    let plaintext = encode store
    ct ← map_err (λ e. text "seal encrypt: " ++ e) (plat.aes_encrypt cipher nonce plaintext)
    ok (
        concat
          (magic ∷ keyid ∷ to_le_bytes 2 report.isvsvn ∷ report.cpusvn ∷ nonce_bytes ∷ ct ∷ []))

  -- `unseal` behind its guard
  abbrev pub open_blob : Bytes → Fallible KeyStore
  open_blob blob = do
    keyid ← slice 4 36 blob
    isvsvn ← slice 36 38 blob
    cpusvn ← slice 38 54 blob
    nonce_bytes ← slice 54 66 blob
    ct ← slice 66 (length blob) blob
    let report : Report = record { isvsvn = from_le_bytes isvsvn; cpusvn = cpusvn }
    key ← seal_key report keyid
    cipher ← plat.aes_key_from_slice key
    nonce ← plat.nonce_from_slice nonce_bytes
    pt ←
        map_err (λ e. text "unseal failed (wrong MRENCLAVE / corrupt blob)")
          (plat.aes_decrypt cipher nonce ct)
    decode pt

  unfoldable pub unseal : Bytes → Fallible KeyStore
  unfolding seal_key
  unseal blob = if ltb (length blob) (hdr + 16) then err (text "invalid sealed blob") else (do
    start ← slice 0 4 blob
    if not (same start magic) then err (text "invalid sealed blob") else open_blob blob)
