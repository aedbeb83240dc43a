-- ===== src/Host/Clients/Computes.antt =====
-- A computation from the client's request to the client's answer, through the host and the runtime.
use tee_demo.Base.{
  ℕ, ◌≡◌, refl, sym, ap, ◌∙◌, true, some, List, [], ◌∷◌, ◌++◌, same, same_option_refl, is_true,
  unwrap_or, Fallible, ok, ok-injective,
}
use tee_demo.Base.Bytes.{Bytes, Text, text}
use tee_demo.Base.Int.{ℤ, IsI64}
use tee_demo.Protocol.Frame
use tee_demo.Protocol.Frame.{
  Frame, op_client_compute, op_host_compute_result, op_runtime_compute_request,
  op_host_compute_response, op_host_attestation_response,
}
use tee_demo.Protocol.Platform.{Platform, IsKeyPair}
use tee_demo.Protocol.Aead
use tee_demo.KeyStore.{KeyStore, StoredKey, lookup}
use tee_demo.Runtime.Compute.{compute}
use tee_demo.Runtime.Compute.Plaintext.{plaintext}
use tee_demo.Runtime.Server.{compute_reply}
use tee_demo.Runtime.Server.Computing.{compute_reply-sealed}
use tee_demo.Host.Connection.{RuntimeConnection, fresh_id, request_compute_ct}
use tee_demo.Host.Clients.{Serving, handle_client}

-- What the host sends to the runtime for a client's request
abbrev pub forwarded : RuntimeConnection → Text → Text → ℕ → Frame
forwarded conn ct aad key_version = record (Frame.new op_runtime_compute_request) {
  id = some (fresh_id conn);
  ct = some ct;
  aad_json = some aad;
  key_version = some key_version;
}

abbrev pub computed_result : ℕ → ℤ → Frame
computed_result client_id result = record (Frame.new op_host_compute_result) {
  id = some client_id;
  ok = some true;
  result = some result;
  status = some (text "ok");
}

abbrev runtime_response : ℕ → ℤ → Frame
runtime_response id result = record (Frame.new op_host_compute_response) {
  id = some id;
  ok = some true;
  result = some result;
}

request_compute_ct-computed :
    (conn : RuntimeConnection) (client_id v : ℕ) (ct aad : Text) (result : ℤ)
    (rest : List (Fallible Frame))
    → conn.inbox ≡ ok (runtime_response (fresh_id conn) result) ∷ rest
    → request_compute_ct (ok tt) client_id ct aad v conn ≡ (
      ok (runtime_response client_id result),
      record conn {
        inbox = rest;
        sent = conn.sent ++ forwarded conn ct aad v ∷ [];
        next_id = fresh_id conn;
      },
    )
unfolding request_compute_ct same
request_compute_ct-computed conn client_id v ct aad result rest e =
    rw (e, same_option_refl (some (fresh_id conn))) refl

module _ ⦃plat : Platform⦄ where
  -- A client's request that carries two i64 numbers, sealed to a key that the runtime's store has
  -- for the request's version, under the associated data that the request names: if the next frame
  -- that the host reads of the runtime is the runtime's answer to what the host forwards, and the
  -- writes succeed, then the host writes to the client one answer, with the client's id and the
  -- result of `compute` on the two numbers.
  pub handle_client-computes :
      (store : KeyStore) (k : StoredKey) (req reply : Frame) (s : Serving)
      (rest : List (Fallible Frame)) (v draw : ℕ) (x y : ℤ) (aad ct : Bytes)
      → lookup store v ≡ ok k
      → IsKeyPair plat k.public_key k.private_key
      → Aead.encrypt draw k.public_key (plaintext x y) aad ≡ ok ct
      → plat.b64_decode (plat.b64_encode ct) ≡ ok ct
      → req.op ≡ op_client_compute
      → req.ct ≡ some (plat.b64_encode ct)
      → req.key_version ≡ some v
      → req.aad_json ≡ some aad
      → IsI64 x
      → IsI64 y
      → s.runtime.inbox ≡ ok reply ∷ rest
      → compute_reply store (forwarded s.runtime (plat.b64_encode ct) aad v) ≡ ok reply
      → (s' : Serving) × (handle_client (ok tt) (ok tt) (ok req) s ≡ (ok tt, s'))
        × (s'.written ≡ s.written ++ computed_result (unwrap_or 0 req.id) (compute x y) ∷ [])
  unfolding handle_client same is_true
  handle_client-computes store k req reply s rest v draw x y aad ct found pair sealed b64 fo fc fv
        fa hx hy inbox answered =
      let request : Frame = forwarded s.runtime (plat.b64_encode ct) aad v in
      let is_reply : reply ≡ runtime_response (fresh_id s.runtime) (compute x y) = ok-injective (
        sym answered
        ∙ compute_reply-sealed store request v k draw x y aad ct found pair sealed b64 refl refl
            refl hx hy) in
      let client_id = unwrap_or 0 req.id in
      let call =
        request_compute_ct-computed s.runtime client_id v (plat.b64_encode ct) aad (compute x y)
          rest (inbox ∙ ap (λ (f : Frame). ok f ∷ rest) is_reply) in
      let after : Serving = record {
        runtime = record (s.runtime) {
          inbox = rest;
          sent = s.runtime.sent ++ request ∷ [];
          next_id = fresh_id s.runtime;
        };
        written = s.written ++ computed_result client_id (compute x y) ∷ [];
      } in
      (after, rw (fo, fc, fv, fa, call) refl, refl)
