-- ===== src/Host/Clients/Challenges.antt =====
-- A challenge that the runtime has attested, and the host's answer to the client.
use tee_demo.Base.{
  ℕ, ◌≡◌, refl, true, some, List, [], ◌∷◌, ◌++◌, same, same_option_refl, is_true, Fallible, ok,
}
use tee_demo.Base.Bytes.{Bytes}
use tee_demo.Protocol.Frame
use tee_demo.Protocol.Frame.{
  Frame, op_client_challenge, op_host_challenge_result, op_host_attestation_response,
  op_runtime_attestation_request,
}
use tee_demo.Protocol.Platform.{Platform}
use tee_demo.Host.Connection.{RuntimeConnection, from_frame, fresh_id, request_attestation}
use tee_demo.Host.Clients.{Serving, quoted_result, handle_client}

module _ ⦃plat : Platform⦄ where
  -- What the host sends to the runtime for a nonce
  abbrev pub attestation_request : RuntimeConnection → Bytes → Frame
  attestation_request conn nonce = record (Frame.new op_runtime_attestation_request) {
    id = some (fresh_id conn);
    nonce = some (plat.b64_encode nonce);
  }

  abbrev pub attested :
      RuntimeConnection → Bytes → Frame → List (Fallible Frame) → RuntimeConnection
  attested conn nonce reply rest = record conn {
    inbox = rest;
    sent = conn.sent ++ attestation_request conn nonce ∷ [];
    next_id = fresh_id conn;
    latest_bundle = from_frame reply;
  }

  request_attestation-attested :
      (conn : RuntimeConnection) (nonce : Bytes) (reply : Frame) (rest : List (Fallible Frame))
      → conn.inbox ≡ ok reply ∷ rest
      → reply.op ≡ op_host_attestation_response
      → reply.id ≡ some (fresh_id conn)
      → reply.ok ≡ some true
      → request_attestation (ok tt) (some nonce) conn ≡ (ok reply, attested conn nonce reply rest)
  unfolding request_attestation same is_true
  request_attestation-attested conn nonce reply rest e op id granted =
      rw (e, op, id, same_option_refl (some (fresh_id conn)), granted) refl

  pub handle_client-challenged :
      (req : Frame) (s : Serving) (client_id : ℕ) (nonce : Bytes) (reply : Frame)
      (rest : List (Fallible Frame))
      → req.op ≡ op_client_challenge
      → req.id ≡ some client_id
      → req.nonce ≡ some (plat.b64_encode nonce)
      → plat.b64_decode (plat.b64_encode nonce) ≡ ok nonce
      → s.runtime.inbox ≡ ok reply ∷ rest
      → reply.op ≡ op_host_attestation_response
      → reply.id ≡ some (fresh_id s.runtime)
      → reply.ok ≡ some true
      → handle_client (ok tt) (ok tt) (ok req) s ≡ (
        ok tt,
        record {
          runtime = attested s.runtime nonce reply rest;
          written = s.written ++ quoted_result op_host_challenge_result client_id reply ∷ [];
        },
      )
  unfolding handle_client same
  handle_client-challenged req s client_id nonce reply rest fo fi fn b64 inbox op id granted =
      rw
        (
          fo,
          fi,
          fn,
          b64,
          request_attestation-attested s.runtime nonce reply rest inbox op id granted,
        )
        refl
