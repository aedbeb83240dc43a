-- ===== src/Tests/Clients.antt =====
-- The daemon's clients: their answers, and the ids of the requests made for them.
use tee_demo.Base.{◌≡◌, ◌≢◌, ◌⊎◌, refl, some, [], ◌∷◌, ◌++◌, arith, unwrap_or, ok}
use tee_demo.Base.Bytes.{text}
use tee_demo.Protocol.Frame
use tee_demo.Protocol.Frame.{
  Frame, op_client_challenge, op_host_ready, op_host_attestation_response,
}
use tee_demo.Host.Connection.{RuntimeConnection, from_frame}
use tee_demo.Host.Clients.{Serving, handle_client}
use tee_demo.Host.Clients.Answers.{result_op, handle_client-answers}
use tee_demo.Host.Daemon.{here, next, client, worker, arrival, attest_worker, serve_client}
use tee_demo.Host.Daemon.Ids.{IdsInOrder, Reach-IdsInOrder}
use tee_demo.Tests.Toy.{toy}

abbrev connected : RuntimeConnection
connected = record {
  inbox = [];
  sent = [];
  next_id = 0;
  latest_bundle = from_frame (Frame.new op_host_ready);
}

abbrev attestation : Frame
attestation = record (Frame.new op_host_attestation_response) {
  id = some 1;
  quote = some (text "quote");
}

abbrev challenge : Frame
challenge = record (Frame.new op_client_challenge) { id = some 31; nonce = some (text "nonce") }

abbrev serving : Serving
serving = record { runtime = record connected { inbox = ok attestation ∷ [] }; written = [] }

handle_client-answers_example :
    ((out : Frame) × ((handle_client (ok tt) (ok tt) (ok challenge) serving).0 ≡ ok tt)
      × (out.id ≡ some (unwrap_or 0 (challenge.id)))
      × (out.op ≡ result_op op_client_challenge)
      × ((handle_client (ok tt) (ok tt) (ok challenge) serving).1.written ≡ [] ++ out ∷ []))
    ⊎ (((handle_client (ok tt) (ok tt) (ok challenge) serving).0 ≢ ok tt)
        × ((handle_client (ok tt) (ok tt) (ok challenge) serving).1.written ≡ []))
handle_client-answers_example = handle_client-answers (ok tt) (ok tt) challenge serving

-- A frame arrives, a client has a challenge, and the worker attests.
abbrev attested : RuntimeConnection
attested =
    (attest_worker (ok tt) 6000 (
      serve_client (ok tt) (ok tt) (ok challenge)
        (record connected { inbox = ok attestation ∷ [] }))).1

Reach-IdsInOrder_example : IdsInOrder 3 attested
Reach-IdsInOrder_example = Reach-IdsInOrder connected attested 3 refl refl (omega arith) (
    next (next (next here (arrival (ok attestation))) (client (ok tt) (ok tt) (ok challenge)))
      (worker (ok tt) 6000))
