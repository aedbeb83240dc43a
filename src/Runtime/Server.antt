-- ===== src/Runtime/Server.antt =====
-- The handlers and the loop of runtime/src/main.rs.
pub mod Computing
pub mod Requests
pub mod Rotation
pub mod Attesting
pub mod Total
pub mod NoPanic
pub mod Secrecy
use tee_demo.Base.State.{◌>>=◌, ◌>>◌, pure, lift}
use tee_demo.Base.{
  ℕ, zero, suc, Bool, true, false, Option, none, some, List, [], ◌∷◌, ◌++◌, if◌then◌else◌, same,
  Outcome, Fallible, ok, err, panic, unwrap_or,
}
use tee_demo.Base.Bytes.{Bytes, Text, text, to_le_bytes}
use tee_demo.Base.Int.{ℤ}
use tee_demo.Protocol.Frame
use tee_demo.Protocol.Frame.{
  Frame, op_runtime_attestation_request, op_runtime_compute_request, op_runtime_rotate_request,
  op_host_compute_response, op_host_rotate_response, err_bad_input,
}
use tee_demo.Protocol.Platform.{Platform}
use tee_demo.Protocol.Aead.{aad_json}
use tee_demo.KeyStore
use tee_demo.KeyStore.{KeyStore}
use tee_demo.Runtime.Compute.{compute, open_request}
use tee_demo.Runtime.Link.{Peer, Io, M, read_frame, write_frame, draw, or_now}
use tee_demo.Runtime.Attest.{
  persist_store, do_attestation_and_cache, maybe_stale_attest, bootstrap_store,
}

-- The local variables of `run_loop` that outlive a request
pub record Session : Type 0 where
  pub last_attested_at : ℕ
  pub store : KeyStore
  pub sequence : ℕ

-- The answer to a request without `ct`
abbrev pub missing_ct : Frame → Frame
missing_ct frame = record (Frame.new op_host_compute_response) {
  id = frame.id;
  ok = some false;
  code = some err_bad_input;
  error = some (text "missing ct");
}

-- The answer to a request with `ct`
abbrev pub compute_response : Frame → Outcome (Text × Text) (ℤ × ℤ) → Fallible Frame
compute_response frame (ok (x, y)) = ok (record (Frame.new op_host_compute_response) {
  id = frame.id;
  ok = some true;
  result = some (compute x y);
})
compute_response frame (err (code, msg)) = ok (record (Frame.new op_host_compute_response) {
  id = frame.id;
  ok = some false;
  code = some code;
  error = some msg;
})
compute_response frame panic = panic

-- The answer to any other frame
abbrev pub unsupported : Frame → Frame
unsupported frame = record (Frame.new (frame.op ++ text "_error")) {
  id = frame.id;
  ok = some false;
  error = some (text "unsupported op: " ++ frame.op);
}

module _ ⦃plat : Platform⦄ where
  abbrev pub nonce_or : Bytes → Option Text → Fallible Bytes
  nonce_or d none = ok d
  nonce_or d (some n) = plat.b64_decode n

  -- The answer to a request on the store as it is
  unfoldable pub compute_reply : KeyStore → Frame → Fallible Frame
  compute_reply store frame = elim frame.ct [
    | none ↦ ok (missing_ct frame)
    | some ct_b64 ↦
        let key_version = unwrap_or 0 frame.key_version in
        let aad =
          unwrap_or (aad_json frame.v (unwrap_or 0 frame.id) (text "compute") key_version)
            frame.aad_json in
        compute_response frame (open_request store key_version ct_b64 aad)
  ]

module _ {ℓ} {P : Type ℓ} ⦃plat : Platform⦄ ⦃net : Peer P⦄ where
  unfoldable pub handle_attestation_request : Frame → Session → M P Session
  handle_attestation_request frame session = do
    nonce ← lift (nonce_or (text "pr3c-default-nonce") frame.nonce)
    (out, sequence') ← do_attestation_and_cache nonce session.store session.sequence
    let resp : Frame = record out { id = frame.id }
    attested_at ← or_now resp.attested_at
    write_frame resp
    pure (record session { last_attested_at = attested_at; sequence = sequence' })

  unfoldable pub handle_compute_request : Frame → Session → M P Session
  unfolding compute_reply
  handle_compute_request frame session = do
    (last_attested_at, sequence) ←
        maybe_stale_attest session.last_attested_at session.store session.sequence
    resp ← lift (compute_reply session.store frame)
    write_frame resp
    pure (record session { last_attested_at = last_attested_at; sequence = sequence })

  unfoldable pub handle_rotate_request : Frame → Session → M P Session
  handle_rotate_request frame session = do
    d ← draw
    (store, key) ← lift (KeyStore.rotate d session.store)
    persist_store store
    nonce ← lift (nonce_or (to_le_bytes 8 key.version) frame.nonce)
    (out, sequence') ← do_attestation_and_cache nonce store session.sequence
    attested_at ← or_now out.attested_at
    let attest : Frame = record out { id = none }
    write_frame attest
    write_frame (record (Frame.new op_host_rotate_response) {
      id = frame.id;
      ok = some true;
      key_version = some key.version;
      public_key = some (plat.b64_encode key.public_key);
      quote = attest.quote;
      binding_nonce = attest.binding_nonce;
      report_data = attest.report_data;
      attested_at = attest.attested_at;
    })
    pure (record { last_attested_at = attested_at; store = store; sequence = sequence' })

  -- The body of the loop of `run_loop`, on the frame that was read
  unfoldable pub serve : Frame → Session → M P Session
  unfolding handle_attestation_request handle_compute_request handle_rotate_request
  serve frame session =
      if same frame.op op_runtime_attestation_request
      then handle_attestation_request frame session
      else if same frame.op op_runtime_compute_request
      then handle_compute_request frame session
      else if same frame.op op_runtime_rotate_request
      then handle_rotate_request frame session
      else (do write_frame (unsupported frame); pure session)

  -- At most `rounds` rounds of the loop, which ends by an error only
  unfoldable pub serve_loop : ℕ → Session → M P Session
  unfolding serve
  serve_loop zero session = pure session
  serve_loop (suc rounds) session = do
    frame ← read_frame
    session' ← serve frame session
    serve_loop rounds session'

  unfoldable pub run_loop : ℕ → M P Session
  unfolding serve_loop
  run_loop rounds = do
    store ← bootstrap_store
    serve_loop rounds (record { last_attested_at = 0; store = store; sequence = 0 })
