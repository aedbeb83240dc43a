-- ===== src/Tests/Renewal.antt =====
-- A rotation from the client to the enclave's small loader and back.
use tee_demo.Base.{
  ◌+◌, ◌≡◌, refl, true, Bool, List, [], ◌∷◌, ◌++◌, arith, find, last, take, same, same_option,
  is_true, Fallible, ok,
}
use tee_demo.Base.Bytes.{Bytes, text, to_le_bytes}
use tee_demo.Protocol.Frame
use tee_demo.Protocol.Frame.{Frame, op_host_rotate_result, op_host_ready}
use tee_demo.Protocol.Aead.{generate_keypair}
use tee_demo.Protocol.Cache.{saturating_add}
use tee_demo.KeyStore
use tee_demo.KeyStore.{KeyStore, StoredKey, current}
use tee_demo.KeyStore.Retention.{IsValid, key_of}
use tee_demo.Sealing.{seal, seal_key}
use tee_demo.Runtime.Link.{Io, next_seq, write_frame, await_reply}
use tee_demo.Runtime.LoaderCalls.{loader_init_quote, loader_get_quote, loader_write_blob}
use tee_demo.Runtime.Attest.{
  attestation_frame, do_attestation, do_attestation_and_cache, write_attestation_cache,
  persist_store,
}
use tee_demo.Runtime.Server.{Session, handle_rotate_request}
use tee_demo.Runtime.Server.Rotation.{rotate_response}
use tee_demo.Host.Connection.{RuntimeConnection, from_frame, request_rotate}
use tee_demo.Host.Clients.{Serving, quoted_result, handle_client}
use tee_demo.Host.Client.{Desk, Surroundings}
use tee_demo.Host.Client.Commands.{rotate_request, cmd_rotate}
use tee_demo.Host.Client.Rotates.{rotated_lines}
use tee_demo.Host.Client.Renews.{renewal, cmd_rotate-renews}
use tee_demo.Tests.Toy.{toy, toy_peer}
use tee_demo.Tests.Verify.{toy-b64}
use tee_demo.Tests.Server.{store}

store-IsValid : IsValid store
store-IsValid = ground arith

abbrev io : Io Bool
io = record { peer = true; inbox = []; sent = []; seq = 0; readings = 0; draws = 4 }

abbrev session : Session
session = record { last_attested_at = 100; store = store; sequence = 3 }

abbrev session_after : Session
session_after = record {
  last_attested_at = 6000;
  store = record { current_version = 3; keys = key_of 8 2 ∷ key_of 4 3 ∷ [] };
  sequence = 4;
}

abbrev connection : RuntimeConnection
connection = record {
  inbox = [];
  sent = [];
  next_id = 7;
  latest_bundle = from_frame (Frame.new op_host_ready);
}

abbrev ran : Fallible Session × Io Bool
ran = handle_rotate_request (renewal connection) session io

ran-ok : ran ≡ (ok session_after, ran.1)
unfolding handle_rotate_request KeyStore.rotate generate_keypair last persist_store
    do_attestation_and_cache write_attestation_cache do_attestation current find seal seal_key
    loader_init_quote loader_get_quote loader_write_blob next_seq write_frame await_reply same
    same_option is_true saturating_add
ran-ok = refl

abbrev attest : Frame
attest = attestation_frame (key_of 4 3) (to_le_bytes 8 3) (text "quote") 6000

abbrev reply : Frame
reply = rotate_response (renewal connection) (key_of 4 3) attest

abbrev earlier : List Frame
earlier = take 6 ran.1.sent

sent-ok : ran.1.sent ≡ earlier ++ attest ∷ (reply ∷ [])
unfolding handle_rotate_request KeyStore.rotate generate_keypair last persist_store
    do_attestation_and_cache write_attestation_cache do_attestation current find seal seal_key
    loader_init_quote loader_get_quote loader_write_blob next_seq write_frame await_reply same
    same_option is_true saturating_add
sent-ok = refl

abbrev serving : Serving
serving = record {
  runtime = record connection { inbox = ok attest ∷ (ok reply ∷ []) };
  written = [];
}

abbrev answer : Frame
answer = quoted_result op_host_rotate_result 1 reply

abbrev handled : Fallible (Unit {0}) × Serving
handled = handle_client (ok tt) (ok tt) (ok rotate_request) serving

handled-ok : handled ≡ (ok tt, handled.1)
unfolding handle_client request_rotate same same_option is_true
handled-ok = refl

wrote-ok : handled.1.written ≡ [] ++ answer ∷ []
unfolding handle_client request_rotate same same_option is_true
wrote-ok = refl

instance abbrev daemon : Surroundings Bool
daemon = record {
  client_roundtrip = λ req d. (ok answer, d);
  now_secs = λ reading. 1700 + reading;
  urandom = λ draw. ok [];
}

abbrev desk : Desk Bool
desk = record { daemon = true; printed = []; readings = 0; draws = 0 }

cmd_rotate-renews_example :
    (key : StoredKey) × (nonce : Bytes) × (quote : Bytes) × (KeyStore.rotate 4 store
      ≡ ok (session_after.store, key))
    × (key.version ≡ 2 + 1)
    × (s' : Desk Bool) × (cmd_rotate desk ≡ (ok tt, s'))
    × (s'.printed ≡ [] ++ rotated_lines key.version key.public_key nonce (toy.b64_encode quote))
cmd_rotate-renews_example =
    cmd_rotate-renews desk session session_after io ran.1 earlier attest reply answer serving
      handled.1 [] true toy-b64 store-IsValid (omega arith) ran-ok sent-ok refl handled-ok wrote-ok
      refl
