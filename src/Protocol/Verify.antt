-- ===== src/Protocol/Verify.antt =====
-- Module `verify` of protocol/src/lib.rs: the checks of an attestation. The dcap-qvl crate and the
-- network that it fetches collateral from are an interface.
pub mod Sound
pub mod Complete
use tee_demo.Base.{
  ℕ, Bool, true, Option, none, some, List, [], ◌∷◌, ◌++◌, same, concat, Outcome, Fallible, ok, err,
  ◌>>=◌, ◌>>◌, ok_or, require,
}
use tee_demo.Base.Bytes.{Bytes, Text, text}
use tee_demo.Strings.Search.{to_lowercase}
use tee_demo.Strings.Hex.{hex_encode}
use tee_demo.Protocol.Platform.{Platform}
use tee_demo.Protocol.Binding.{report_data_binding}

-- What the code reads of dcap-qvl's `VerifiedReport`
pub data VerifiedReport : Type 0 where
  sgx_enclave : (mr_enclave : Bytes) → (report_data : Bytes) → VerifiedReport
  other_report : VerifiedReport

-- dcap-qvl, with its errors as text, and the clock, at one verification: another one has another
-- collateral and another time, and is another value of this type.
pub record Dcap : Type 0 where
  -- tokio's `Runtime::new`, for the runtime that a caller verifies on, its error as text
  pub new_runtime : Fallible (Unit {0})
  -- `CollateralClient::with_default_http(INTEL_PCS_URL)` and `fetch`
  pub with_default_http : Fallible (Unit {0})
  pub fetch : Bytes → Fallible Bytes
  -- Seconds since the epoch, or the error of a clock before it
  pub now : Fallible ℕ
  -- `QuoteVerifier::new_prod().allow_debug(…).verify(…)`: quote, collateral, time
  pub verify : Bool → Bytes → Bytes → ℕ → Fallible VerifiedReport

module _ ⦃dcap : Dcap⦄ where
  unfoldable pub verify_quote_allow_debug : Bytes → Fallible VerifiedReport
  verify_quote_allow_debug quote = do
    client ← dcap.with_default_http
    collateral ← dcap.fetch quote
    now ← dcap.now
    dcap.verify true quote collateral now

abbrev pub mrenclave_hex : VerifiedReport → Option Text
mrenclave_hex (sgx_enclave mr_enclave report_data) = some (hex_encode mr_enclave)
mrenclave_hex other_report = none

abbrev pub report_data_b64 : ⦃plat : Platform⦄ → VerifiedReport → Option Text
report_data_b64 ⦃plat⦄ (sgx_enclave mr_enclave report_data) = some (plat.b64_encode report_data)
report_data_b64 other_report = none

-- The check of the expected MRENCLAVE, if there is one. `to_lowercase` is that of ASCII letters: no
-- other letter has a hex digit for its lower case.
abbrev pub check_mrenclave : Text → Option Text → Fallible (Unit {0})
check_mrenclave mrenclave none = ok tt
check_mrenclave mrenclave (some expected) =
    let exp = to_lowercase expected in
    require (same mrenclave exp)
      (concat (text "MRENCLAVE mismatch: expected " ∷ exp ∷ text ", got " ∷ mrenclave ∷ []))

abbrev pub binding_failed : Text → Text → Text
binding_failed expected actual = concat (
    text "REPORTDATA binding failed (Host may have swapped public_key)\nexpected: "
    ∷ expected
    ∷ text "\nactual:   "
    ∷ actual
    ∷ [])

module _ ⦃plat : Platform⦄ ⦃dcap : Dcap⦄ where
  unfoldable pub verify_attestation :
      Text → Text → ℕ → Bytes → Text → Option Text → Fallible VerifiedReport
  unfolding verify_quote_allow_debug
  verify_attestation quote_b64 public_key_b64 key_version client_nonce binding_nonce_b64 expected =
      do
        quote ← plat.b64_decode quote_b64
        verified ← verify_quote_allow_debug quote
        mrenclave ← ok_or (text "no SGX enclave report") (mrenclave_hex verified)
        check_mrenclave mrenclave expected
        binding ← plat.b64_decode binding_nonce_b64
        require (same binding client_nonce)
            (text "binding_nonce does not match Client challenge nonce")
        pubkey ← plat.b64_decode public_key_b64
        let expected_rd = report_data_binding key_version pubkey client_nonce
        rd_b64 ← ok_or (text "no report_data") (report_data_b64 verified)
        verified_rd ← plat.b64_decode rd_b64
        require (same verified_rd expected_rd)
            (binding_failed (plat.b64_encode expected_rd) (plat.b64_encode verified_rd))
        ok verified
