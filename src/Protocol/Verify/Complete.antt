-- ===== src/Protocol/Verify/Complete.antt =====
-- A genuine attestation passes the client's checks, and a quote passes them for one key only.
use tee_demo.Base.{
  ℕ, ◌^◌, ◌<◌, ◌≡◌, ◌⊎◌, refl, sym, ap, ◌∙◌, Option, none, some, same_refl, length, ok,
  ok-injective, >>=-ok, Bool, true,
}
use tee_demo.Base.Bytes.{Bytes, Text}
use tee_demo.Strings.Search.{to_lowercase}
use tee_demo.Strings.Hex.{hex_encode}
use tee_demo.Protocol.Platform.{Platform}
use tee_demo.Protocol.Binding.{report_data_binding}
use tee_demo.Protocol.Binding.Collision.{Collides, report_data_binding-collision}
use tee_demo.Protocol.Verify.{
  VerifiedReport, sgx_enclave, Dcap, verify_quote_allow_debug, check_mrenclave, verify_attestation,
}
use tee_demo.Protocol.Verify.Sound.{IsExpected, verify_attestation_sound}

check_mrenclave-passes :
    (mr_enclave : Bytes) (expected : Option Text)
    → IsExpected mr_enclave expected
    → check_mrenclave (hex_encode mr_enclave) expected ≡ ok tt
check_mrenclave-passes mr_enclave none h = refl
check_mrenclave-passes mr_enclave (some expected) h =
    rw h (rw (same_refl (to_lowercase expected)) refl)

module _ ⦃plat : Platform⦄ ⦃dcap : Dcap⦄
    (b64 : (b : Bytes) → plat.b64_decode (plat.b64_encode b) ≡ ok b) where
  -- The fields of a genuine attestation pass: if the quote verifies, as that of an enclave that is
  -- expected and that put the binding of the key and the client's nonce into its report, then
  -- `verify_attestation` succeeds on the quote, the key, its version and the nonce.
  pub verify_attestation_complete :
      (quote public_key nonce mr_enclave : Bytes) (key_version : ℕ) (expected : Option Text)
      → verify_quote_allow_debug quote
        ≡ ok (sgx_enclave mr_enclave (report_data_binding key_version public_key nonce))
      → IsExpected mr_enclave expected
      → verify_attestation
          (plat.b64_encode quote)
          (plat.b64_encode public_key)
          key_version
          nonce
          (plat.b64_encode nonce)
          expected
        ≡ ok (sgx_enclave mr_enclave (report_data_binding key_version public_key nonce))
  unfolding verify_attestation
  verify_attestation_complete quote public_key nonce mr_enclave key_version expected verified
        is_expected =
      rw
        (
          b64 quote,
          verified,
          check_mrenclave-passes mr_enclave expected is_expected,
          b64 nonce,
          same_refl nonce,
          b64 public_key,
          b64 (report_data_binding key_version public_key nonce),
          same_refl (report_data_binding key_version public_key nonce),
        )
        refl

-- dcap-qvl reads the report from the quote alone: whatever the collateral and the time, a quote that
-- verifies has the report that is in it.
pub record ReadsReport (dcap : Dcap) (report_in : Bytes → VerifiedReport) : Type 0 where
  pub reads :
      (allow_debug : Bool) (quote collateral : Bytes) (now : ℕ) (report : VerifiedReport)
      → dcap.verify allow_debug quote collateral now ≡ ok report
      → report ≡ report_in quote

verified_report :
    (dcap : Dcap) (report_in : Bytes → VerifiedReport) (quote : Bytes) (report : VerifiedReport)
    → ReadsReport dcap report_in
    → verify_quote_allow_debug ⦃dcap = dcap⦄ quote ≡ ok report
    → report ≡ report_in quote
unfolding verify_quote_allow_debug
verified_report dcap report_in quote report reading e =
    let (client, c, e1) = >>=-ok dcap.with_default_http _ e in
    let (collateral, f, e2) = >>=-ok (dcap.fetch quote) _ e1 in
    let (now, n, e3) = >>=-ok dcap.now _ e2 in reading.reads true quote collateral now report e3

module _ ⦃plat : Platform⦄ (b64 : (b : Bytes) → plat.b64_decode (plat.b64_encode b) ≡ ok b) where
  -- One quote passes for one key: if the same quote passes the checks of two clients, or twice of
  -- one, each with the collateral and the clock of its own, then the key version, the public key and
  -- the nonce are the same both times, or two messages with one SHA-256 digest are at hand. For u64
  -- versions, public keys of less than 64 KiB, a hash of one fixed length, and a dcap-qvl that reads
  -- the report from the quote alone.
  pub verify_attestation_unique :
      (first second : Dcap) (report_in : Bytes → VerifiedReport) (quote_b64 pk_b64 pk_b64' : Text)
      (v w : ℕ) (m n : Bytes) (binding_b64 binding_b64' : Text) (expected expected' : Option Text)
      (pk qk : Bytes) (report report' : VerifiedReport)
      → ReadsReport first report_in
      → ReadsReport second report_in
      → ((a b : Bytes) → length (plat.sha256 a) ≡ length (plat.sha256 b))
      → v < 2 ^ 64
      → w < 2 ^ 64
      → plat.b64_decode pk_b64 ≡ ok pk
      → plat.b64_decode pk_b64' ≡ ok qk
      → length pk < 2 ^ 16
      → length qk < 2 ^ 16
      → verify_attestation ⦃dcap = first⦄ quote_b64 pk_b64 v m binding_b64 expected ≡ ok report
      → verify_attestation ⦃dcap = second⦄ quote_b64 pk_b64' w n binding_b64' expected' ≡ ok report'
      → ((v ≡ w) × (pk ≡ qk) × (m ≡ n)) ⊎ Collides plat
  verify_attestation_unique first second report_in quote_b64 pk_b64 pk_b64' v w m n binding_b64
        binding_b64' expected expected' pk qk report report' one two digest_len hv hw dp dq hp hq e
        f =
      let (quote, p1, mr, q1, k1, r1, b1, x1) =
        verify_attestation_sound ⦃dcap = first⦄ quote_b64 pk_b64 v m binding_b64 expected report b64
          e in
      let (quote', p2, mr', q2, k2, r2, b2, x2) =
        verify_attestation_sound ⦃dcap = second⦄ quote_b64 pk_b64' w n binding_b64' expected'
          report' b64 f in
      let same_quote : quote ≡ quote' = ok-injective (sym q1 ∙ q2) in
      let same_report : report ≡ report' =
        verified_report first report_in quote report one r1
        ∙ ap report_in same_quote
        ∙ sym (verified_report second report_in quote' report' two r2) in
      let same_data : report_data_binding v p1 m ≡ report_data_binding w p2 n =
        cc (sym b1 ∙ same_report ∙ b2) in
      let is_pk : p1 ≡ pk = ok-injective (sym k1 ∙ dp) in
      let is_qk : p2 ≡ qk = ok-injective (sym k2 ∙ dq) in
      report_data_binding-collision v w pk qk m n digest_len hv hw hp hq (
        ap (λ k. report_data_binding v k m) (sym is_pk)
        ∙ same_data
        ∙ ap (λ k. report_data_binding w k n) is_qk)
