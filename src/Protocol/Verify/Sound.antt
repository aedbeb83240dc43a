-- ===== src/Protocol/Verify/Sound.antt =====
-- What a client knows that has verified an attestation.
use tee_demo.Base.{
  ℕ, ◌≡◌, refl, sym, ap, ◌∙◌, Option, none, some, same, same_sound, ok, ok_or, require, >>=-ok,
  ok_or-ok, require-ok, ok-injective,
}
use tee_demo.Base.Bytes.{Bytes, Text, text}
use tee_demo.Strings.Search.{to_lowercase}
use tee_demo.Strings.Hex.{hex_encode}
use tee_demo.Protocol.Platform.{Platform}
use tee_demo.Protocol.Binding.{report_data_binding}
use tee_demo.Protocol.Verify.{
  VerifiedReport, sgx_enclave, other_report, Dcap, verify_quote_allow_debug, mrenclave_hex,
  report_data_b64, check_mrenclave, verify_attestation,
}

-- The expected MRENCLAVE, if any, is that of the report.
abbrev pub IsExpected : Bytes → Option Text → Type 0
IsExpected mr_enclave none = Unit
IsExpected mr_enclave (some expected) = hex_encode mr_enclave ≡ to_lowercase expected

check_mrenclave-ok :
    (mr_enclave : Bytes) (expected : Option Text) {u : Unit {0}}
    → check_mrenclave (hex_encode mr_enclave) expected ≡ ok u
    → IsExpected mr_enclave expected
check_mrenclave-ok mr_enclave none e = tt
check_mrenclave-ok mr_enclave (some expected) e =
    same_sound (hex_encode mr_enclave) (to_lowercase expected) (require-ok _ _ e)

-- What the verified report says, read off its two accessors
report_parts :
    ⦃plat : Platform⦄ (report : VerifiedReport) (mrenclave rd_b64 : Text)
    → mrenclave_hex report ≡ some mrenclave
    → report_data_b64 report ≡ some rd_b64
    → (mr_enclave : Bytes) × (report_data : Bytes) × (report ≡ sgx_enclave mr_enclave report_data)
      × (mrenclave ≡ hex_encode mr_enclave)
      × (rd_b64 ≡ plat.b64_encode report_data)
report_parts (sgx_enclave m d) mrenclave rd_b64 e f = (m, d, refl, cc e, cc f)
report_parts other_report mrenclave rd_b64 e f = cc e

module _ ⦃plat : Platform⦄ ⦃dcap : Dcap⦄ where
  -- A quote for which `verify_attestation` succeeds, whoever sent it and the fields with it: the
  -- quote verified as an SGX enclave's, the enclave is the expected one if one is expected, and the
  -- enclave's REPORTDATA binds the key version and the public key that were sent to the nonce that
  -- the client chose. For a base64 that decodes what it encoded.
  pub verify_attestation_sound :
      (quote_b64 public_key_b64 : Text) (key_version : ℕ) (client_nonce : Bytes)
      (binding_b64 : Text) (expected : Option Text) (report : VerifiedReport)
      → ((b : Bytes) → plat.b64_decode (plat.b64_encode b) ≡ ok b)
      → verify_attestation quote_b64 public_key_b64 key_version client_nonce binding_b64 expected
        ≡ ok report
      → (quote : Bytes) × (public_key : Bytes) × (mr_enclave : Bytes) × (plat.b64_decode quote_b64
          ≡ ok quote)
        × (plat.b64_decode public_key_b64 ≡ ok public_key)
        × (verify_quote_allow_debug quote ≡ ok report)
        × (report
            ≡ sgx_enclave mr_enclave (report_data_binding key_version public_key client_nonce))
        × IsExpected mr_enclave expected
  unfolding verify_attestation
  verify_attestation_sound quote_b64 public_key_b64 key_version client_nonce binding_b64 expected
        report b64 e =
      let (quote, q, e1) = >>=-ok (plat.b64_decode quote_b64) _ e in
      let (verified, v, e2) = >>=-ok (verify_quote_allow_debug quote) _ e1 in
      let (mrenclave, m, e3) =
        >>=-ok (ok_or (text "no SGX enclave report") (mrenclave_hex verified)) _ e2 in
      let (u1, c, e4) = >>=-ok (check_mrenclave mrenclave expected) _ e3 in
      let (binding, b, e5) = >>=-ok (plat.b64_decode binding_b64) _ e4 in
      let (u2, r1, e6) = >>=-ok (require (same binding client_nonce) _) _ e5 in
      let (pubkey, p, e7) = >>=-ok (plat.b64_decode public_key_b64) _ e6 in
      let (rd_b64, d, e8) =
        >>=-ok (ok_or (text "no report_data") (report_data_b64 verified)) _ e7 in
      let (rd, dec, e9) = >>=-ok (plat.b64_decode rd_b64) _ e8 in
      let (u3, r2, e10) =
        >>=-ok (require (same rd (report_data_binding key_version pubkey client_nonce)) _) _ e9 in
      let (mr, rd0, parts, hex, coded) =
        report_parts verified mrenclave rd_b64 (ok_or-ok _ _ m) (ok_or-ok _ _ d) in
      let bound =
        same_sound rd (report_data_binding key_version pubkey client_nonce) (require-ok _ _ r2) in
      let data_is : rd0 ≡ rd =
        ok-injective (sym (b64 rd0) ∙ ap plat.b64_decode (sym coded) ∙ dec) in
      let same_report : verified ≡ report = ok-injective e10 in
      (
        quote,
        pubkey,
        mr,
        q,
        p,
        v ∙ e10,
        sym same_report ∙ parts ∙ ap (sgx_enclave mr) (data_is ∙ bound),
        check_mrenclave-ok mr expected (ap (λ h. check_mrenclave h expected) (sym hex) ∙ c),
      )
