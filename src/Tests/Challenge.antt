-- ===== src/Tests/Challenge.antt =====
-- A challenge from the client to the enclave's small loader and back.
use tee_demo.Base.{
  ◌+◌, ◌≡◌, refl, ap, true, Bool, none, some, List, [], ◌∷◌, ◌++◌, find, take, same, same_option,
  is_true, Fallible, ok,
}
use tee_demo.Base.Bytes.{Bytes, text}
use tee_demo.Protocol.Frame
use tee_demo.Protocol.Frame.{Frame, op_host_challenge_result, op_host_ready}
use tee_demo.Protocol.Binding.{report_data_binding}
use tee_demo.Protocol.Cache.{saturating_add}
use tee_demo.Protocol.Verify.{sgx_enclave, Dcap, verify_quote_allow_debug}
use tee_demo.KeyStore.{StoredKey, current}
use tee_demo.KeyStore.Retention.{key_of}
use tee_demo.Runtime.Link.{Io, next_seq, write_frame, await_reply}
use tee_demo.Runtime.LoaderCalls.{loader_init_quote, loader_get_quote, loader_write_blob}
use tee_demo.Runtime.Attest.{
  attestation_frame, do_attestation, do_attestation_and_cache, write_attestation_cache,
}
use tee_demo.Runtime.Server.{Session, handle_attestation_request}
use tee_demo.Host.Connection.{RuntimeConnection, from_frame, request_attestation}
use tee_demo.Host.Clients.{Serving, quoted_result, handle_client}
use tee_demo.Host.Clients.Challenges.{attestation_request, attested}
use tee_demo.Host.Client.{
  Desk, Surroundings, random_challenge_nonce, challenge_request, challenge_and_verify,
}
use tee_demo.Host.Client.Attests.{challenge_and_verify-attests}
use tee_demo.Tests.Toy.{toy, toy_peer}
use tee_demo.Tests.Verify.{toy-b64}
use tee_demo.Tests.Server.{store}

abbrev nonce : Bytes
nonce = 4 ∷ 2 ∷ []

abbrev binding : Bytes
binding = report_data_binding 2 (key_of 8 2).public_key nonce

-- Every quote is one of the same report.
instance abbrev one_report : Dcap
one_report = record {
  new_runtime = ok tt;
  with_default_http = ok tt;
  fetch = λ quote. ok (text "collateral");
  now = ok 7;
  verify = λ allow_debug quote collateral now. ok (sgx_enclave (10 ∷ 11 ∷ []) binding);
}

abbrev io : Io Bool
io = record { peer = true; inbox = []; sent = []; seq = 0; readings = 0; draws = 4 }

abbrev session : Session
session = record { last_attested_at = 100; store = store; sequence = 3 }

abbrev connection : RuntimeConnection
connection = record {
  inbox = [];
  sent = [];
  next_id = 7;
  latest_bundle = from_frame (Frame.new op_host_ready);
}

abbrev ran : Fallible Session × Io Bool
ran = handle_attestation_request (attestation_request connection nonce) session io

abbrev reply : Frame
reply = record (attestation_frame (key_of 8 2) nonce (text "quote") 6000) { id = some 8 }

abbrev session_after : Session
session_after = record { last_attested_at = 6000; store = store; sequence = 4 }

ran-ok : ran ≡ (ok session_after, ran.1)
unfolding handle_attestation_request do_attestation_and_cache write_attestation_cache do_attestation
    current find loader_init_quote loader_get_quote loader_write_blob next_seq write_frame
    await_reply same same_option is_true saturating_add
ran-ok = refl

abbrev earlier : List Frame
earlier = take 4 ran.1.sent

sent-ok : ran.1.sent ≡ earlier ++ reply ∷ []
unfolding handle_attestation_request do_attestation_and_cache write_attestation_cache do_attestation
    current find loader_init_quote loader_get_quote loader_write_blob next_seq write_frame
    await_reply same same_option is_true saturating_add
sent-ok = refl

abbrev serving : Serving
serving = record { runtime = record connection { inbox = ok reply ∷ [] }; written = [] }

abbrev answer : Frame
answer = quoted_result op_host_challenge_result 1700 reply

abbrev served : Serving
served = record { runtime = attested serving.runtime nonce reply []; written = answer ∷ [] }

served-ok :
    handle_client (ok tt) (ok tt) (ok (challenge_request 1700 nonce)) serving ≡ (ok tt, served)
unfolding handle_client request_attestation same same_option is_true
served-ok = refl

instance abbrev daemon : Surroundings Bool
daemon = record {
  client_roundtrip = λ req d. (ok answer, d);
  now_secs = λ reading. 1700 + reading;
  urandom = λ draw. ok nonce;
}

abbrev desk : Desk Bool
desk = record { daemon = true; printed = []; readings = 0; draws = 0 }

drawn-ok : random_challenge_nonce desk ≡ (ok nonce, record desk { draws = 1 })
unfolding random_challenge_nonce
drawn-ok = refl

genuine :
    (quote report_data : Bytes)
    → reply.quote ≡ some (toy.b64_encode quote)
    → reply.report_data ≡ some (toy.b64_encode report_data)
    → verify_quote_allow_debug quote ≡ ok (sgx_enclave (10 ∷ 11 ∷ []) report_data)
unfolding verify_quote_allow_debug
genuine quote report_data e f =
    let same_data : binding ≡ report_data = cc f in
    ap (λ (b : Bytes). ok (sgx_enclave (10 ∷ 11 ∷ []) b)) same_data

challenge_and_verify-attests_example :
    (key : StoredKey) × (s' : Desk Bool) × (current store ≡ some key)
    × (challenge_and_verify none desk ≡ (ok (key.version, key.public_key), s'))
challenge_and_verify-attests_example =
    challenge_and_verify-attests none desk (record desk { draws = 1 }) nonce (10 ∷ 11 ∷ []) session
      session_after io ran.1 earlier reply answer serving served [] true toy-b64 refl drawn-ok
      ran-ok sent-ok refl served-ok refl refl genuine tt
