-- ===== src/Tests/Server.antt =====
-- Compute requests, attestations and rotations of the runtime against a small loader.
use tee_demo.Base.{
  ℕ, ◌≡◌, refl, Bool, true, false, some, List, [], ◌∷◌, ◌++◌, arith, find, last, same, same_option,
  is_true, Fallible, ok,
}
use tee_demo.Base.Bytes.{Bytes, text, to_le_bytes}
use tee_demo.Base.Int.{pos, negsuc}
use tee_demo.Protocol.Frame
use tee_demo.Protocol.Frame.{
  Frame, op_host_compute_response, op_runtime_compute_request, op_runtime_rotate_request,
}
use tee_demo.Protocol.Binding.{report_data_binding}
use tee_demo.KeyStore
use tee_demo.KeyStore.{KeyStore, StoredKey, current, lookup}
use tee_demo.KeyStore.Retention.{key_of}
use tee_demo.Runtime.Compute.{compute}
use tee_demo.Runtime.Compute.Plaintext.{plaintext}
use tee_demo.Sealing.{seal, seal_key}
use tee_demo.Protocol.Aead.{encrypt, generate_keypair}
use tee_demo.Protocol.Cache.{saturating_add}
use tee_demo.Runtime.Link.{Io, next_seq, write_frame, await_reply}
use tee_demo.Runtime.LoaderCalls.{loader_init_quote, loader_get_quote, loader_write_blob}
use tee_demo.Runtime.Attest.{
  attestation_frame, do_attestation, do_attestation_and_cache, write_attestation_cache,
  persist_store,
}
use tee_demo.Runtime.Attest.Bound.{quote_request, do_attestation-binds}
use tee_demo.Runtime.Server.{Session, compute_reply, handle_rotate_request}
use tee_demo.Runtime.Server.Computing.{compute_reply-sealed}
use tee_demo.Runtime.Server.Rotation.{rotate_response, handle_rotate_request-announces}
use tee_demo.Protocol.Frame.{err_key_expired}
use tee_demo.KeyStore.{expired, message}
use tee_demo.Runtime.Attest.{maybe_stale_attest}
use tee_demo.Runtime.Server.{missing_ct, handle_compute_request}
use tee_demo.Runtime.Server.Requests.{
  compute_reply-retired, handle_compute_request-answers, handle_compute_request-fresh,
}
use tee_demo.Protocol.Frame.{op_loader_init_quote_result, op_loader_get_quote_result}
use tee_demo.Runtime.Attest.Responds.{Quotes, do_attestation-responds}
use tee_demo.Tests.Toy.{toy, toy_peer, toy-IsKeyPair}

abbrev pub store : KeyStore
store = record { current_version = 2; keys = key_of 0 1 ∷ key_of 8 2 ∷ [] }

abbrev retired_store : KeyStore
retired_store = record { current_version = 4; keys = key_of 8 3 ∷ key_of 9 4 ∷ [] }

abbrev pub sealed_request : Bytes
sealed_request = 4 ∷ 0 ∷ (to_le_bytes 4 8 ++ plaintext (pos 3) (negsuc 1))

abbrev request : Frame
request = record (Frame.new op_runtime_compute_request) {
  id = some 12;
  key_version = some 2;
  aad_json = some (text "aad");
  ct = some sealed_request;
}

compute_reply-sealed_example :
    compute_reply store request
    ≡ ok (record (Frame.new op_host_compute_response) {
      id = some 12;
      ok = some true;
      result = some (compute (pos 3) (negsuc 1));
    })
unfolding lookup encrypt find to_le_bytes
compute_reply-sealed_example =
    compute_reply-sealed store request 2 (key_of 8 2) 0 (pos 3) (negsuc 1) (text "aad")
      sealed_request refl (toy-IsKeyPair 8) refl refl refl refl refl (omega arith) (omega arith)

abbrev io : Io Bool
io = record { peer = true; inbox = []; sent = []; seq = 0; readings = 0; draws = 4 }

abbrev attested : Fallible Frame × Io Bool
attested = do_attestation (text "nonce") store io

attested-ok :
    attested ≡ (ok (attestation_frame (key_of 8 2) (text "nonce") (text "quote") 6000), attested.1)
unfolding do_attestation current find loader_init_quote loader_get_quote next_seq write_frame
    await_reply same same_option is_true
attested-ok = refl

do_attestation-binds_example :
    (key : StoredKey) × (quote : Bytes) × (attested_at : ℕ) × (current store ≡ some key)
    × (attestation_frame (key_of 8 2) (text "nonce") (text "quote") 6000
        ≡ attestation_frame key (text "nonce") quote attested_at)
    × (earlier : List Frame) × (target_info : Bytes) × (att_key_id : Bytes) × (req_seq : ℕ)
    × (attested.1.sent
        ≡ earlier
          ++ quote_request req_seq att_key_id (
              toy.report_for_target target_info
                (report_data_binding key.version key.public_key (text "nonce")))
            ∷ [])
do_attestation-binds_example =
    do_attestation-binds (text "nonce") store io
      (attestation_frame (key_of 8 2) (text "nonce") (text "quote") 6000) attested.1 attested-ok

abbrev rotate_request : Frame
rotate_request = record (Frame.new op_runtime_rotate_request) { id = some 5 }

abbrev session : Session
session = record { last_attested_at = 100; store = store; sequence = 3 }

abbrev rotated_store : KeyStore
rotated_store = record { current_version = 3; keys = key_of 8 2 ∷ key_of 4 3 ∷ [] }

abbrev session_after : Session
session_after = record { last_attested_at = 6000; store = rotated_store; sequence = 4 }

abbrev after : Fallible Session × Io Bool
after = handle_rotate_request rotate_request session io

after-ok : after ≡ (ok session_after, after.1)
unfolding handle_rotate_request KeyStore.rotate generate_keypair last persist_store
    do_attestation_and_cache write_attestation_cache do_attestation current find seal seal_key
    loader_init_quote loader_get_quote loader_write_blob next_seq write_frame await_reply same
    same_option is_true saturating_add
after-ok = refl

handle_rotate_request-announces_example :
    (new_key : StoredKey) × (KeyStore.rotate 4 store ≡ ok (rotated_store, new_key))
    × ((key : StoredKey) × (nonce : Bytes) × (quote : Bytes) × (attested_at : ℕ) × (earlier : List
          Frame)
        × (current rotated_store ≡ some key)
        × (after.1.sent
            ≡ earlier
              ++ attestation_frame key nonce quote attested_at
                ∷ rotate_response rotate_request new_key
                    (attestation_frame key nonce quote attested_at)
                ∷ []))
handle_rotate_request-announces_example =
    handle_rotate_request-announces rotate_request session io session_after after.1 after-ok

compute_reply-retired_example :
    compute_reply retired_store request
    ≡ ok (record (Frame.new op_host_compute_response) {
      id = some 12;
      ok = some false;
      code = some err_key_expired;
      error = some (message expired);
    })
compute_reply-retired_example =
    compute_reply-retired retired_store request 2 sealed_request sealed_request (ground arith)
      (omega arith) refl refl refl

abbrev no_ct : Frame
no_ct = record (Frame.new op_runtime_compute_request) { id = some 3 }

abbrev recent_session : Session
recent_session = record { last_attested_at = 5990; store = store; sequence = 3 }

abbrev after_compute : Fallible Session × Io Bool
after_compute = handle_compute_request no_ct recent_session io

after_compute-ok : after_compute ≡ (ok recent_session, after_compute.1)
unfolding handle_compute_request maybe_stale_attest write_frame same
after_compute-ok = refl

handle_compute_request-answers_example :
    (reply : Frame) × (earlier : List Frame) × (compute_reply store no_ct ≡ ok reply)
    × (after_compute.1.sent ≡ earlier ++ reply ∷ [])
    × (recent_session.store ≡ store)
handle_compute_request-answers_example =
    handle_compute_request-answers no_ct recent_session io recent_session after_compute.1
      after_compute-ok

handle_compute_request-fresh_example :
    (io' : Io Bool) × (handle_compute_request no_ct recent_session io ≡ (ok recent_session, io'))
    × (io'.sent ≡ missing_ct no_ct ∷ [])
    × (io'.inbox ≡ [])
unfolding compute_reply same
handle_compute_request-fresh_example =
    handle_compute_request-fresh no_ct recent_session io (missing_ct no_ct) [] true (omega arith)
      (omega arith) refl refl

abbrev ToyInit : Bytes → Bytes → Type 0
ToyInit id info = (id ≡ text "id") × (info ≡ text "info")

abbrev ToyQuote : Bytes → Bytes → Bytes → Type 0
ToyQuote id report quote = quote ≡ text "quote"

toy-Quotes : Quotes ToyInit ToyQuote toy toy_peer
unfolding same same_option is_true
toy-Quotes = record {
  inits = λ s p. (
    record (Frame.new op_loader_init_quote_result) {
      seq = some s;
      ok = some true;
      att_key_id = some (text "id");
      target_info = some (text "info");
      quote = some (text "quote");
    },
    p,
    text "id",
    text "info",
    text "id",
    text "info",
    text "info",
    record { receives = refl; matches = ground arith; granted = refl },
    refl,
    refl,
    refl,
    refl,
    refl,
    (refl, refl),
  );
  quotes = λ s id report p. (
    record (Frame.new op_loader_get_quote_result) {
      seq = some s;
      ok = some true;
      att_key_id = some (text "id");
      target_info = some (text "info");
      quote = some (text "quote");
    },
    p,
    text "quote",
    text "quote",
    record { receives = refl; matches = ground arith; granted = refl },
    refl,
    refl,
    refl,
  );
}

do_attestation-responds_example :
    (quote : Bytes) × (id : Bytes) × (info : Bytes) × (target : Bytes) × (io' : Io Bool)
    × (do_attestation (text "nonce") store io
        ≡ (ok (attestation_frame (key_of 8 2) (text "nonce") quote 6000), io'))
    × ToyInit id info
    × (toy.targetinfo_try_copy_from info ≡ some target)
    × ToyQuote id
        (toy.report_for_target target
          (report_data_binding (key_of 8 2).version (key_of 8 2).public_key (text "nonce")))
        quote
unfolding current find
do_attestation-responds_example =
    do_attestation-responds toy-Quotes (text "nonce") store (key_of 8 2) io refl refl
