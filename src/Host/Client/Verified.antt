-- ===== src/Host/Client/Verified.antt =====
-- What the client has after a challenge: `challenge_and_verify` of host/src/main.rs.
use tee_demo.Base.{
  ℕ, ◌≡◌, sym, ap, ◌∙◌, Option, some, [], ◌++◌, is_true, unwrap_or, ok_or, require, Fallible, ok,
  ok_or-ok, ok-injective,
}
use tee_demo.Base.State.{lift, bind-ok}
use tee_demo.Base.Bytes.{Bytes, Text, text}
use tee_demo.Protocol.Frame.{Frame}
use tee_demo.Protocol.Platform.{Platform}
use tee_demo.Protocol.Binding.{report_data_binding}
use tee_demo.Protocol.Verify.{
  VerifiedReport, sgx_enclave, Dcap, verify_quote_allow_debug, verify_attestation,
}
use tee_demo.Protocol.Verify.Sound.{IsExpected, verify_attestation_sound}
use tee_demo.Host.Client.{
  Desk, Surroundings, roundtrip, clock, random_challenge_nonce, challenge_request,
  verify_attestation_frame, challenge_with, challenge_and_verify,
}

some_injective : (a b : Text) → ◌≡◌ {A = Option Text} (some a) (some b) → a ≡ b
some_injective a b e = cc e

module _ {ℓ} {D : Type ℓ} where
  pub lifted :
      {A : Type 0} (r : Fallible A) (s s' : Desk D) {a : A} → lift r s ≡ (ok a, s') → r ≡ ok a
  lifted {A} r s s' e = ap (λ (p : Fallible A × Desk D). p.0) e

module _ ⦃plat : Platform⦄ ⦃dcap : Dcap⦄ where
  quote_is :
      (quote : Bytes) (p_b64 p : Text) (public_key k mr : Bytes) (kv : ℕ) (nonce : Bytes)
      (report : VerifiedReport)
      → p_b64 ≡ p
      → plat.b64_decode p_b64 ≡ ok public_key
      → plat.b64_decode p ≡ ok k
      → verify_quote_allow_debug quote ≡ ok report
      → report ≡ sgx_enclave mr (report_data_binding kv public_key nonce)
      → verify_quote_allow_debug quote ≡ ok (sgx_enclave mr (report_data_binding kv k nonce))
  quote_is quote p_b64 p public_key k mr kv nonce report same_p dp dk vq is_report =
      let same_k : public_key ≡ k = ok-injective (sym dp ∙ ap plat.b64_decode same_p ∙ dk) in
      rw (← same_k) (vq ∙ ap ok is_report)

module _ {ℓ} {D : Type ℓ} ⦃plat : Platform⦄ ⦃dcap : Dcap⦄ where
  pub verify_attestation_frame_sound :
      (resp : Frame) (nonce : Bytes) (expected : Option Text) (s s' : Desk D) {u : Unit {0}}
      → verify_attestation_frame resp (some nonce) expected s ≡ (ok u, s')
      → (quote_b64 : Text) × (pk_b64 : Text) × (binding : Text) × (report : VerifiedReport)
        × (resp.public_key ≡ some pk_b64)
        × (verify_attestation quote_b64 pk_b64 (unwrap_or 0 resp.key_version) nonce binding expected
            ≡ ok report)
  unfolding verify_attestation_frame
  verify_attestation_frame_sound resp nonce expected s s' e =
      let (q, s1, eq, e1) = bind-ok (lift (ok_or (text "missing quote") resp.quote)) _ s e in
      let (p, s2, ep, e2) =
        bind-ok (lift (ok_or (text "missing public_key") resp.public_key)) _ s1 e1 in
      let (b, s3, eb, e3) =
        bind-ok (lift (ok_or (text "missing binding_nonce") resp.binding_nonce)) _ s2 e2 in
      let (report, s4, er, e4) =
        bind-ok (lift (verify_attestation q p (unwrap_or 0 resp.key_version) nonce b expected)) _ s3
          e3 in
      (q, p, b, report, ok_or-ok _ _ (lifted _ s1 s2 ep), lifted _ s3 s4 er)

  -- The decoded key of an accepted answer, in a verified quote
  frame_binds :
      (resp : Frame) (nonce : Bytes) (expected : Option Text) (s s' : Desk D) (p : Text) (k : Bytes)
      {u : Unit {0}}
      → ((b : Bytes) → plat.b64_decode (plat.b64_encode b) ≡ ok b)
      → verify_attestation_frame resp (some nonce) expected s ≡ (ok u, s')
      → resp.public_key ≡ some p
      → plat.b64_decode p ≡ ok k
      → (quote : Bytes) × (mr_enclave : Bytes) × (verify_quote_allow_debug quote
          ≡ ok
              (sgx_enclave mr_enclave (report_data_binding (unwrap_or 0 resp.key_version) k nonce)))
        × IsExpected mr_enclave expected
  frame_binds resp nonce expected s s' p k b64 e has_p dk =
      let (q_b64, p_b64, binding, report, has_key, verified) =
        verify_attestation_frame_sound resp nonce expected s s' e in
      let (quote, public_key, mr, dq, dp, vq, is_report, is_expected) =
        verify_attestation_sound q_b64 p_b64 (unwrap_or 0 resp.key_version) nonce binding expected
          report b64 verified in
      (
        quote,
        mr,
        quote_is quote p_b64 p public_key k mr (unwrap_or 0 resp.key_version) nonce report
            (some_injective p_b64 p (sym has_key ∙ has_p)) dp dk vq is_report,
        is_expected,
      )

module _ {ℓ} {D : Type ℓ} ⦃plat : Platform⦄ ⦃dcap : Dcap⦄ ⦃around : Surroundings D⦄ where
  challenge_with_parts :
      (expected : Option Text) (nonce : Bytes) (id : ℕ) (s s' : Desk D) {r : ℕ × Bytes}
      → challenge_with expected nonce id s ≡ (ok r, s')
      → (resp : Frame) × (s3 : Desk D) × (s4 : Desk D) × (u : Unit {0}) × (p : Text) × (k : Bytes)
        × (verify_attestation_frame resp (some nonce) expected s3 ≡ (ok u, s4))
        × (resp.public_key ≡ some p)
        × (plat.b64_decode p ≡ ok k)
        × ((unwrap_or 0 resp.key_version, k) ≡ r)
  challenge_with_parts expected nonce id s s' e =
      let (resp, s2, got, e3) = bind-ok (roundtrip (challenge_request id nonce)) _ s e in
      let (u, s3, accepted, e4) =
        bind-ok
          (lift (require (is_true resp.ok) (text "challenge failed: " ++ unwrap_or [] resp.error)))
          _ s2 e3 in
      let (v, begun, ready, started) = bind-ok (lift dcap.new_runtime) _ s3 e4 in
      let (w, s4, checked, e5) =
        bind-ok (verify_attestation_frame resp (some nonce) expected) _ begun started in
      let (p, s5, ep, e6) = bind-ok (lift (ok_or (text "no public_key") resp.public_key)) _ s4 e5 in
      let (k, s6, ek, e7) = bind-ok (lift (plat.b64_decode p)) _ s5 e6 in
      (
        resp,
        begun,
        s4,
        w,
        p,
        k,
        checked,
        ok_or-ok _ _ (lifted _ s4 s5 ep),
        lifted _ s5 s6 ek,
        ok-injective (lifted _ s6 s' e7),
      )

  pub challenge_with_sound :
      (expected : Option Text) (nonce : Bytes) (id : ℕ) (s s' : Desk D) (kv : ℕ) (pk : Bytes)
      → ((b : Bytes) → plat.b64_decode (plat.b64_encode b) ≡ ok b)
      → challenge_with expected nonce id s ≡ (ok (kv, pk), s')
      → (quote : Bytes) × (mr_enclave : Bytes) × (verify_quote_allow_debug quote
          ≡ ok (sgx_enclave mr_enclave (report_data_binding kv pk nonce)))
        × IsExpected mr_enclave expected
  challenge_with_sound expected nonce id s s' kv pk b64 e =
      let (resp, s3, s4, u, p, k, checked, has_p, dk, returned) =
        challenge_with_parts expected nonce id s s' e in
      let (quote, mr, vq, is_expected) =
        frame_binds resp nonce expected s3 s4 p k b64 checked has_p dk in
      (
        quote,
        mr,
        vq
            ∙ ap (λ (r : ℕ × Bytes). ok (sgx_enclave mr (report_data_binding (r.0) (r.1) nonce)))
                returned,
        is_expected,
      )

  -- Whatever the daemon answers: if `challenge_and_verify` returns a key version and a public key,
  -- then some quote verified, as that of an SGX enclave whose REPORTDATA binds this version and this
  -- key to the nonce that this call drew, and whose MRENCLAVE is the expected one if one is
  -- expected. For a base64 that decodes what it encoded.
  pub challenge_and_verify_sound :
      (expected : Option Text) (s s' : Desk D) (kv : ℕ) (pk : Bytes)
      → ((b : Bytes) → plat.b64_decode (plat.b64_encode b) ≡ ok b)
      → challenge_and_verify expected s ≡ (ok (kv, pk), s')
      → (nonce : Bytes) × (mid : Desk D) × (quote : Bytes) × (mr_enclave : Bytes)
        × (random_challenge_nonce s ≡ (ok nonce, mid))
        × (verify_quote_allow_debug quote
            ≡ ok (sgx_enclave mr_enclave (report_data_binding kv pk nonce)))
        × IsExpected mr_enclave expected
  unfolding challenge_and_verify
  challenge_and_verify_sound expected s s' kv pk b64 e =
      let (nonce, s0, drawn, e1) = bind-ok random_challenge_nonce _ s e in
      let (id, s1, ticked, e2) = bind-ok clock (λ i. challenge_with expected nonce i) s0 e1 in
      let (quote, mr, vq, is_expected) =
        challenge_with_sound expected nonce id s1 s' kv pk b64 e2 in
      (nonce, s0, quote, mr, drawn, vq, is_expected)
