-- ===== src/Tests/Host.antt =====
-- The host's connection, on a stream with an attestation before the response.
use tee_demo.Base.{
  ◌≡◌, refl, true, some, List, [], ◌∷◌, ◌++◌, map, Fallible, ok, All, same, same_option, is_true,
}
use tee_demo.Base.Bytes.{text}
use tee_demo.Protocol.Frame
use tee_demo.Protocol.Frame.{
  Frame, op_host_attestation_response, op_host_compute_response, op_host_rotate_response,
  op_runtime_compute_request, op_host_ready,
}
use tee_demo.Host.Connection.{RuntimeConnection, from_frame, request_compute_ct, request_rotate}
use tee_demo.Host.Connection.Responses.{updated, request_compute_ct_sound}

abbrev attestation : Frame
attestation = record (Frame.new op_host_attestation_response) {
  attested_at = some 6000;
  key_version = some 2;
  quote = some (text "quote");
}

abbrev computed : Frame
computed = record (Frame.new op_host_compute_response) { id = some 8; ok = some true }

abbrev rotated : Frame
rotated = record (Frame.new op_host_rotate_response) {
  id = some 8;
  ok = some true;
  key_version = some 3;
}

abbrev connection : Frame → RuntimeConnection
connection response = record {
  inbox = ok attestation ∷ ok response ∷ ok (Frame.new op_host_ready) ∷ [];
  sent = [];
  next_id = 7;
  latest_bundle = from_frame (Frame.new op_host_ready);
}

abbrev after : Fallible Frame × RuntimeConnection
after = request_compute_ct (ok tt) 31 (text "ct") (text "aad") 2 (connection computed)

after-ok : after ≡ (ok (record computed { id = some 31 }), after.1)
unfolding request_compute_ct same same_option
after-ok = refl

request_compute_ct_sound_example :
    (after.1.sent
      ≡ record (Frame.new op_runtime_compute_request) {
        id = some 8;
        ct = some (text "ct");
        aad_json = some (text "aad");
        key_version = some 2;
      }
        ∷ [])
    × (skipped : List Frame) × (resp : Frame) × ((connection computed).inbox
        ≡ map ok skipped ++ ok resp ∷ after.1.inbox)
    × All (λ f. f.op ≡ op_host_attestation_response) skipped
    × (resp.op ≡ op_host_compute_response)
    × (resp.id ≡ some 8)
    × (record computed { id = some 31 } ≡ record resp { id = some 31 })
    × (after.1.latest_bundle ≡ updated (connection computed).latest_bundle skipped)
request_compute_ct_sound_example =
    request_compute_ct_sound 31 2 (text "ct") (text "aad") (connection computed)
      (record computed { id = some 31 }) after.1 after-ok

abbrev after_rotation : Fallible Frame × RuntimeConnection
after_rotation = request_rotate (ok tt) (connection rotated)

after_rotation-ok : after_rotation ≡ (ok rotated, after_rotation.1)
unfolding request_rotate same same_option is_true
after_rotation-ok = refl
