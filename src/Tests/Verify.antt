-- ===== src/Tests/Verify.antt =====
-- The checks of an attestation, with quotes that are their report data.
use tee_demo.Base.{ℕ, ◌≡◌, refl, ◌⊎◌, Option, some, [], ◌∷◌, arith, ok, ok-injective, sym}
use tee_demo.Base.Bytes.{Bytes, Text, text}
use tee_demo.Strings.Search.{to_lowercase}
use tee_demo.Strings.Hex.{hex_encode}
use tee_demo.Protocol.Binding.{report_data_binding}
use tee_demo.Protocol.Binding.Collision.{Collides}
use tee_demo.Protocol.Verify.{sgx_enclave, Dcap, verify_quote_allow_debug, verify_attestation}
use tee_demo.Protocol.Verify.Sound.{IsExpected, verify_attestation_sound}
use tee_demo.Protocol.Verify.Complete.{
  ReadsReport, verify_attestation_complete, verify_attestation_unique,
}
use tee_demo.Tests.Toy.{toy}
use tee_demo.Tests.Keys.{digest_length}

-- The MRENCLAVE of every quote is 0a0b.
instance abbrev pub toy_dcap : Dcap
toy_dcap = record {
  new_runtime = ok tt;
  with_default_http = ok tt;
  fetch = λ quote. ok (text "collateral");
  now = ok 7;
  verify = λ allow_debug quote collateral now. ok (sgx_enclave (10 ∷ 11 ∷ []) quote);
}

abbrev pub expected : Option Text
expected = some (text "0A0b")

abbrev binding : Bytes
binding = report_data_binding 2 (text "pk") (text "nonce")

pub toy-b64 : (b : Bytes) → toy.b64_decode (toy.b64_encode b) ≡ ok b
toy-b64 b = refl

pub quote-verified :
    (quote : Bytes) → verify_quote_allow_debug quote ≡ ok (sgx_enclave (10 ∷ 11 ∷ []) quote)
unfolding verify_quote_allow_debug
quote-verified quote = refl

pub expected-IsExpected : IsExpected (10 ∷ 11 ∷ []) expected
unfolding hex_encode to_lowercase
expected-IsExpected = refl

verified-ok :
    verify_attestation binding (text "pk") 2 (text "nonce") (text "nonce") expected
    ≡ ok (sgx_enclave (10 ∷ 11 ∷ []) binding)
verified-ok =
    verify_attestation_complete toy-b64 binding (text "pk") (text "nonce") (10 ∷ 11 ∷ []) 2 expected
      (quote-verified binding) expected-IsExpected

verify_attestation_sound_example :
    (quote : Bytes) × (public_key : Bytes) × (mr_enclave : Bytes) × (toy.b64_decode binding
      ≡ ok quote)
    × (toy.b64_decode (text "pk") ≡ ok public_key)
    × (verify_quote_allow_debug quote ≡ ok (sgx_enclave (10 ∷ 11 ∷ []) binding))
    × (sgx_enclave (10 ∷ 11 ∷ []) binding
        ≡ sgx_enclave mr_enclave (report_data_binding 2 public_key (text "nonce")))
    × IsExpected mr_enclave expected
verify_attestation_sound_example =
    verify_attestation_sound binding (text "pk") 2 (text "nonce") (text "nonce") expected
      (sgx_enclave (10 ∷ 11 ∷ []) binding) toy-b64 verified-ok

-- Another collateral at another time
abbrev later_dcap : Dcap
later_dcap = record {
  new_runtime = ok tt;
  with_default_http = ok tt;
  fetch = λ quote. ok (text "later collateral");
  now = ok 99;
  verify = λ allow_debug quote collateral now. ok (sgx_enclave (10 ∷ 11 ∷ []) quote);
}

toy-ReadsReport : ReadsReport toy_dcap (sgx_enclave (10 ∷ 11 ∷ []))
toy-ReadsReport = record { reads = λ debug quote collateral now report e. sym (ok-injective e) }

later-ReadsReport : ReadsReport later_dcap (sgx_enclave (10 ∷ 11 ∷ []))
later-ReadsReport = record { reads = λ debug quote collateral now report e. sym (ok-injective e) }

later-verified :
    (quote : Bytes)
    → verify_quote_allow_debug ⦃dcap = later_dcap⦄ quote ≡ ok (sgx_enclave (10 ∷ 11 ∷ []) quote)
unfolding verify_quote_allow_debug
later-verified quote = refl

later-ok :
    verify_attestation ⦃dcap = later_dcap⦄ binding
      (text "pk")
      2
      (text "nonce")
      (text "nonce")
      expected
    ≡ ok (sgx_enclave (10 ∷ 11 ∷ []) binding)
later-ok =
    verify_attestation_complete ⦃dcap = later_dcap⦄ toy-b64 binding (text "pk") (text "nonce")
      (10 ∷ 11 ∷ []) 2 expected (later-verified binding) expected-IsExpected

verify_attestation_unique_example :
    ((◌≡◌ {A = ℕ} 2 2) × (text "pk" ≡ text "pk") × (text "nonce" ≡ text "nonce")) ⊎ Collides toy
verify_attestation_unique_example =
    verify_attestation_unique toy-b64 toy_dcap later_dcap (sgx_enclave (10 ∷ 11 ∷ [])) binding
      (text "pk") (text "pk") 2 2 (text "nonce") (text "nonce") (text "nonce") (text "nonce")
      expected expected (text "pk") (text "pk") (sgx_enclave (10 ∷ 11 ∷ []) binding)
      (sgx_enclave (10 ∷ 11 ∷ []) binding) toy-ReadsReport later-ReadsReport digest_length
      (omega arith) (omega arith) refl refl (omega arith) (omega arith) verified-ok later-ok
