-- ===== src/Host/Client/Calculates.antt =====
-- The `calc` command against the daemon and the enclave behind it.
use tee_demo.Base.{
  ℕ, ◌+◌, ◌≡◌, refl, sym, ap, ◌∙◌, Option, List, [], ◌∷◌, ◌++◌, append_each, append_each-eq-append,
  is_true, Fallible, ok,
}
use mathlib.Core.List.{append_cancel_left}
use tee_demo.Base.Bytes.{Bytes, Text, text}
use tee_demo.Base.Int.{ℤ, IsI64}
use tee_demo.Strings.Decimal.{show_nat, show_int}
use tee_demo.Protocol.Frame.{Frame, op_client_compute}
use tee_demo.Protocol.Platform.{Platform, IsKeyPair}
use tee_demo.Protocol.Aead
use tee_demo.Protocol.Verify.{Dcap}
use tee_demo.KeyStore.{KeyStore, StoredKey, lookup}
use tee_demo.Runtime.Compute.{compute}
use tee_demo.Runtime.Compute.Plaintext.{plaintext}
use tee_demo.Runtime.Server.{compute_reply}
use tee_demo.Host.Clients.{Serving, handle_client}
use tee_demo.Host.Clients.Computes.{forwarded, computed_result, handle_client-computes}
use tee_demo.Host.Client.{Desk, Surroundings, challenge_and_verify}
use tee_demo.Host.Client.Commands.{calc_line, compute_request, cmd_calc}

abbrev pub calc_aad : ℕ → ℕ → Text
calc_aad id v = Aead.aad_json 1 id op_client_compute v

-- The lines of a result
abbrev pub calc_lines : ℤ → ℤ → ℕ → List Text
calc_lines x y v =
    calc_line x y (compute x y)
    ∷ (text "RESULT=" ++ show_int (compute x y))
    ∷ (text "KEY_VERSION=" ++ show_nat v)
    ∷ []

module _ ⦃plat : Platform⦄ where
  -- What the daemon writes, if it writes one answer
  answer_is :
      (store : KeyStore) (k : StoredKey) (reply answer : Frame) (serving served : Serving)
      (rest : List (Fallible Frame)) (id v draw : ℕ) (x y : ℤ) (aad ct : Bytes)
      → lookup store v ≡ ok k
      → IsKeyPair plat k.public_key k.private_key
      → Aead.encrypt draw k.public_key (plaintext x y) aad ≡ ok ct
      → plat.b64_decode (plat.b64_encode ct) ≡ ok ct
      → IsI64 x
      → IsI64 y
      → serving.runtime.inbox ≡ ok reply ∷ rest
      → compute_reply store (forwarded serving.runtime (plat.b64_encode ct) aad v) ≡ ok reply
      → handle_client (ok tt) (ok tt) (ok (compute_request id v (plat.b64_encode ct) aad)) serving
        ≡ (ok tt, served)
      → served.written ≡ serving.written ++ answer ∷ []
      → answer ≡ computed_result id (compute x y)
  answer_is store k reply answer serving served rest id v draw x y aad ct found pair enc b64 hx hy
        inbox replied handled wrote =
      let (out, ran, written) =
        handle_client-computes store k (compute_request id v (plat.b64_encode ct) aad) reply serving
          rest v draw x y aad ct found pair enc b64 refl refl refl refl hx hy inbox replied in
      let same_state : served ≡ out =
        ap (λ (p : Fallible (Unit {0}) × Serving). p.1) (sym handled ∙ ran) in
      let same_end : answer ∷ [] ≡ computed_result id (compute x y) ∷ [] =
        append_cancel_left serving.written _ _
          (sym wrote ∙ ap (λ (t : Serving). t.written) same_state ∙ written) in
      cc same_end

module _ {ℓ} {D : Type ℓ} ⦃plat : Platform⦄ ⦃dcap : Dcap⦄ ⦃around : Surroundings D⦄ where
  cmd_calc-answered :
      (x y : ℤ) (expected : Option Text) (s mid : Desk D) (v : ℕ) (public_key ct : Bytes) (d : D)
      → challenge_and_verify expected s ≡ (ok (v, public_key), mid)
      → Aead.encrypt mid.draws public_key
          (plaintext x y)
          (calc_aad (around.now_secs mid.readings) v)
        ≡ ok ct
      → around.client_roundtrip
          (compute_request
            (around.now_secs mid.readings)
            v
            (plat.b64_encode ct)
            (calc_aad (around.now_secs mid.readings) v))
          mid.daemon
        ≡ (ok (computed_result (around.now_secs mid.readings) (compute x y)), d)
      → (s' : Desk D) × (cmd_calc x y expected s ≡ (ok tt, s'))
        × (s'.printed ≡ mid.printed ++ calc_lines x y v)
  unfolding cmd_calc is_true
  cmd_calc-answered x y expected s mid v public_key ct d verified enc answered =
      let lines = calc_lines x y v in
      let after : Desk D = record mid {
        daemon = d;
        readings = mid.readings + 1;
        draws = mid.draws + 1;
        printed = append_each mid.printed lines;
      } in
      (after, rw (verified, enc, answered) refl, append_each-eq-append mid.printed lines)

  -- `calc` from the command line to the enclave and back. If the client verified the attestation of
  -- a key that the enclave's store has for the version, the sealing of its two i64 numbers
  -- succeeds, and the daemon, whose next frame of the runtime is the runtime's answer to what it
  -- forwards, sends the client the frame that it writes for the client's request, then the command
  -- succeeds and prints `compute` of the two numbers as the result, and the key version.
  pub cmd_calc-computes :
      (x y : ℤ) (expected : Option Text) (s mid : Desk D) (store : KeyStore) (k : StoredKey) (v : ℕ)
      (ct : Bytes) (serving served : Serving) (reply answer : Frame) (rest : List (Fallible Frame))
      (d : D)
      → challenge_and_verify expected s ≡ (ok (v, k.public_key), mid)
      → lookup store v ≡ ok k
      → IsKeyPair plat k.public_key k.private_key
      → Aead.encrypt mid.draws k.public_key
          (plaintext x y)
          (calc_aad (around.now_secs mid.readings) v)
        ≡ ok ct
      → plat.b64_decode (plat.b64_encode ct) ≡ ok ct
      → IsI64 x
      → IsI64 y
      → serving.runtime.inbox ≡ ok reply ∷ rest
      → compute_reply store (
          forwarded serving.runtime
            (plat.b64_encode ct)
            (calc_aad (around.now_secs mid.readings) v)
            v)
        ≡ ok reply
      → handle_client
          (ok tt)
          (ok tt)
          (ok (
            compute_request
              (around.now_secs mid.readings)
              v
              (plat.b64_encode ct)
              (calc_aad (around.now_secs mid.readings) v)))
          serving
        ≡ (ok tt, served)
      → served.written ≡ serving.written ++ answer ∷ []
      → around.client_roundtrip
          (compute_request
            (around.now_secs mid.readings)
            v
            (plat.b64_encode ct)
            (calc_aad (around.now_secs mid.readings) v))
          mid.daemon
        ≡ (ok answer, d)
      → (s' : Desk D) × (cmd_calc x y expected s ≡ (ok tt, s'))
        × (s'.printed ≡ mid.printed ++ calc_lines x y v)
  cmd_calc-computes x y expected s mid store k v ct serving served reply answer rest d verified
        found pair enc b64 hx hy inbox replied handled wrote answered =
      let id = around.now_secs mid.readings in
      cmd_calc-answered x y expected s mid v k.public_key ct d verified enc (
        answered
        ∙ ap (λ (f : Frame). (ok f, d))
            (answer_is store k reply answer serving served rest id v mid.draws x y (calc_aad id v)
              ct found pair enc b64 hx hy inbox replied handled wrote))
