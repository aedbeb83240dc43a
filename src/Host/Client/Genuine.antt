-- ===== src/Host/Client/Genuine.antt =====
-- The client, `challenge_and_verify` of host/src/main.rs, before an honest daemon and enclave.
use tee_demo.Base.{
  ℕ, ◌+◌, ◌≡◌, refl, true, Option, some, List, [], ◌∷◌, ◌++◌, append_each, is_true, ok,
}
use tee_demo.Base.Bytes.{Bytes, Text, text}
use tee_demo.Strings.Decimal.{show_nat}
use tee_demo.Strings.Hex.{hex_encode}
use tee_demo.Protocol.Frame.{Frame}
use tee_demo.Protocol.Platform.{Platform}
use tee_demo.Protocol.Binding.{report_data_binding}
use tee_demo.Protocol.Verify.{sgx_enclave, Dcap, verify_quote_allow_debug}
use tee_demo.Protocol.Verify.Sound.{IsExpected}
use tee_demo.Protocol.Verify.Complete.{verify_attestation_complete}
use tee_demo.Host.Client.{
  Desk, Surroundings, random_challenge_nonce, challenge_request, verify_attestation_frame,
  challenge_and_verify,
}

module _ ⦃plat : Platform⦄ where
  -- The lines for a genuine answer
  abbrev pub verified_lines : Bytes → Bytes → ℕ → Bytes → List Text
  verified_lines mr_enclave report_data kv public_key =
      (text "MRENCLAVE=" ++ hex_encode mr_enclave)
      ∷ (text "REPORTDATA=" ++ plat.b64_encode report_data)
      ∷ (text "KEY_VERSION=" ++ show_nat kv)
      ∷ (text "PUBLIC_KEY=" ++ plat.b64_encode public_key)
      ∷ text "REPORTDATA_BINDING_OK"
      ∷ text "QUOTE_VERIFY_OK"
      ∷ []

module _ {ℓ} {D : Type ℓ} ⦃plat : Platform⦄ ⦃dcap : Dcap⦄ ⦃around : Surroundings D⦄ where
  -- A genuine answer is accepted: if the daemon answers the challenge with a quote that verifies, as
  -- that of an expected enclave whose REPORTDATA binds the version and the key of the answer to the
  -- nonce of the challenge, then `challenge_and_verify` returns this version and this key, and says
  -- what it verified. For a base64 that decodes what it encoded
  -- and a tokio runtime that starts.
  pub challenge_and_verify_complete :
      (expected : Option Text) (s mid : Desk D) (nonce quote public_key mr_enclave : Bytes) (kv : ℕ)
      (resp : Frame) (d : D)
      → ((b : Bytes) → plat.b64_decode (plat.b64_encode b) ≡ ok b)
      → dcap.new_runtime ≡ ok tt
      → random_challenge_nonce s ≡ (ok nonce, mid)
      → around.client_roundtrip (challenge_request (around.now_secs mid.readings) nonce) mid.daemon
        ≡ (ok resp, d)
      → resp.ok ≡ some true
      → resp.quote ≡ some (plat.b64_encode quote)
      → resp.public_key ≡ some (plat.b64_encode public_key)
      → resp.key_version ≡ some kv
      → resp.binding_nonce ≡ some (plat.b64_encode nonce)
      → verify_quote_allow_debug quote
        ≡ ok (sgx_enclave mr_enclave (report_data_binding kv public_key nonce))
      → IsExpected mr_enclave expected
      → challenge_and_verify expected s ≡ (
        ok (kv, public_key),
        record mid {
          daemon = d;
          readings = mid.readings + 1;
          printed =
              append_each mid.printed
                (verified_lines mr_enclave (report_data_binding kv public_key nonce) kv public_key);
        },
      )
  unfolding challenge_and_verify verify_attestation_frame is_true verify_quote_allow_debug
  challenge_and_verify_complete expected s mid nonce quote public_key mr_enclave kv resp d b64
        started drawn answered fo fq fp fk fb verified is_expected =
      rw
        (
          drawn,
          answered,
          fo,
          started,
          fq,
          fp,
          fk,
          fb,
          verify_attestation_complete ⦃dcap = record dcap { new_runtime = ok tt }⦄ b64 quote
              public_key nonce mr_enclave kv expected verified is_expected,
          b64 public_key,
        )
        refl
