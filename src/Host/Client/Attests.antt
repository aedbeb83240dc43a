-- ===== src/Host/Client/Attests.antt =====
-- A challenge from the client through the daemon to the enclave, and back.
use tee_demo.Base.{
  ℕ, ◌≡◌, refl, sym, ap, ◌∙◌, Option, some, List, [], ◌∷◌, ◌++◌, same_last, Fallible, ok,
}
use tee_demo.Base.Bytes.{Bytes, Text}
use tee_demo.Protocol.Frame.{Frame, op_host_challenge_result}
use tee_demo.Protocol.Platform.{Platform}
use tee_demo.Protocol.Binding.{report_data_binding}
use tee_demo.Protocol.Verify.{sgx_enclave, Dcap, verify_quote_allow_debug}
use tee_demo.Protocol.Verify.Sound.{IsExpected}
use tee_demo.KeyStore.{StoredKey, current}
use tee_demo.Runtime.Link.{Peer, Io}
use tee_demo.Runtime.Attest.{attestation_frame}
use tee_demo.Runtime.Server.{Session, handle_attestation_request}
use tee_demo.Runtime.Server.Attesting.{handle_attestation_request-attests}
use tee_demo.Host.Connection.{fresh_id}
use tee_demo.Host.Clients.{Serving, quoted_result, handle_client}
use tee_demo.Host.Clients.Challenges.{attestation_request, handle_client-challenged}
use tee_demo.Host.Client.{
  Desk, Surroundings, random_challenge_nonce, challenge_request, challenge_and_verify,
}
use tee_demo.Host.Client.Genuine.{challenge_and_verify_complete}

module _ ⦃plat : Platform⦄ where
  -- The daemon's answer, if it writes one
  answer-quoted :
      (s served : Serving) (client_id : ℕ) (nonce : Bytes) (key : StoredKey) (quote : Bytes)
      (at : ℕ) (answer : Frame) (rest : List (Fallible Frame))
      → plat.b64_decode (plat.b64_encode nonce) ≡ ok nonce
      → s.runtime.inbox
        ≡ ok (record (attestation_frame key nonce quote at) { id = some (fresh_id s.runtime) })
          ∷ rest
      → handle_client (ok tt) (ok tt) (ok (challenge_request client_id nonce)) s ≡ (ok tt, served)
      → served.written ≡ s.written ++ answer ∷ []
      → answer
        ≡ quoted_result op_host_challenge_result client_id
            (record (attestation_frame key nonce quote at) { id = some (fresh_id s.runtime) })
  answer-quoted s served client_id nonce key quote at answer rest b64 inbox handled wrote =
      let reply : Frame = record (attestation_frame key nonce quote at) {
        id = some (fresh_id s.runtime);
      } in
      let ran =
        handle_client-challenged (challenge_request client_id nonce) s client_id nonce reply rest
          refl refl refl b64 inbox refl refl refl in
      same_last s.written s.written answer (quoted_result op_host_challenge_result client_id reply)
        (sym wrote ∙ ap (λ (p : Fallible (Unit {0}) × Serving). p.1.written) (sym handled ∙ ran))

module _ {ℓ κ} {D : Type ℓ} {P : Type κ} ⦃plat : Platform⦄ ⦃dcap : Dcap⦄ ⦃around : Surroundings D⦄
    ⦃net : Peer P⦄ where
  -- A challenge through all three processes. If the runtime handles the request that the daemon
  -- forwards for the client's nonce, the last frame that the runtime sends for it is the next that
  -- the daemon reads, the daemon's answer reaches the client, and the quote of that frame verifies,
  -- as that of an expected enclave with the frame's REPORTDATA, then the client's
  -- `challenge_and_verify` returns the version and the public key of the current key of the
  -- enclave's store. For a base64 that decodes what it encoded and a tokio runtime that starts.
  pub challenge_and_verify-attests :
      (expected : Option Text) (s mid : Desk D) (nonce mr_enclave : Bytes)
      (session session' : Session) (io io' : Io P) (earlier : List Frame) (reply answer : Frame)
      (serving served : Serving) (rest : List (Fallible Frame)) (d : D)
      → ((b : Bytes) → plat.b64_decode (plat.b64_encode b) ≡ ok b)
      → dcap.new_runtime ≡ ok tt
      → random_challenge_nonce s ≡ (ok nonce, mid)
      → handle_attestation_request (attestation_request serving.runtime nonce) session io
        ≡ (ok session', io')
      → io'.sent ≡ earlier ++ reply ∷ []
      → serving.runtime.inbox ≡ ok reply ∷ rest
      → handle_client
          (ok tt)
          (ok tt)
          (ok (challenge_request (around.now_secs mid.readings) nonce))
          serving
        ≡ (ok tt, served)
      → served.written ≡ serving.written ++ answer ∷ []
      → around.client_roundtrip (challenge_request (around.now_secs mid.readings) nonce) mid.daemon
        ≡ (ok answer, d)
      → ((quote report_data : Bytes)
          → reply.quote ≡ some (plat.b64_encode quote)
          → reply.report_data ≡ some (plat.b64_encode report_data)
          → verify_quote_allow_debug quote ≡ ok (sgx_enclave mr_enclave report_data))
      → IsExpected mr_enclave expected
      → (key : StoredKey) × (s' : Desk D) × (current session.store ≡ some key)
        × (challenge_and_verify expected s ≡ (ok (key.version, key.public_key), s'))
  challenge_and_verify-attests expected s mid nonce mr session session' io io' earlier reply answer
        serving served rest d b64 started drawn ran sent inbox handled wrote answered genuine
        is_expected =
      let request = attestation_request serving.runtime nonce in
      let (key, quote, at, before, cur, same_store, is_sent) =
        handle_attestation_request-attests request session io session' io' nonce (b64 nonce) ran in
      let frame : Frame = record (attestation_frame key nonce quote at) {
        id = some (fresh_id serving.runtime);
      } in
      let is_reply : reply ≡ frame = same_last earlier before reply frame (sym sent ∙ is_sent) in
      let id = around.now_secs mid.readings in
      let resp : Frame = quoted_result op_host_challenge_result id frame in
      let is_answer : answer ≡ resp =
        answer-quoted serving served id nonce key quote at answer rest (b64 nonce)
          (inbox ∙ ap (λ (f : Frame). ok f ∷ rest) is_reply) handled wrote in
      let binding = report_data_binding key.version key.public_key nonce in
      let verified =
        challenge_and_verify_complete expected s mid nonce quote key.public_key mr key.version resp
          d b64 started drawn (answered ∙ ap (λ (f : Frame). (ok f, d)) is_answer) refl refl refl
          refl refl
          (genuine quote binding (ap (λ (f : Frame). f.quote) is_reply)
            (ap (λ (f : Frame). f.report_data) is_reply))
          is_expected in
      (key, _, cur, verified)
