-- ===== src/Host/Clients.antt =====
-- `handle_client` of host/src/main.rs: one frame of a client, and its answer. What the read of the
-- client's frame gives and what the writes to the runtime and to the client give are arguments.
pub mod Answers
pub mod Computes
pub mod Challenges
use tee_demo.Base.{
  ℕ, Bool, true, false, Option, none, some, List, [], ◌∷◌, ◌++◌, same, is_true, if◌then◌else◌,
  unwrap_or, ok_or, Outcome, Fallible, ok, err, panic,
}
use tee_demo.Base.State.{State, continue, ◌>>=◌, ◌>>◌, pure, lift}
use tee_demo.Base.Bytes.{Bytes, Text, text}
use tee_demo.Protocol.Frame
use tee_demo.Protocol.Frame.{
  Frame, op_client_compute, op_host_compute_result, op_client_pubkey, op_host_pubkey_result,
  op_client_rotate, op_host_rotate_result, op_client_challenge, op_host_challenge_result,
}
use tee_demo.Protocol.Platform.{Platform}
use tee_demo.Protocol.Aead.{aad_json}
use tee_demo.Host.Connection.{
  AttestationBundle, RuntimeConnection, request_attestation, request_compute_ct, request_rotate,
}

-- The connection behind its mutex, and what was written to the client
pub record Serving : Type 0 where
  pub runtime : RuntimeConnection
  pub written : List Frame

-- `runtime.lock().unwrap()` and a call
abbrev pub locked : (RuntimeConnection → Fallible Frame × RuntimeConnection) → State Serving Frame
locked call s = let (r, conn) = call s.runtime in (r, record s { runtime = conn })

abbrev pub write_out : Frame → Fallible (Unit {0}) → Serving → Fallible (Unit {0}) × Serving
write_out out (ok u) s = (ok tt, record s { written = s.written ++ out ∷ [] })
write_out out (err e) s = (err e, s)
write_out out panic s = (panic, s)

abbrev pub latest_bundle : State Serving AttestationBundle
latest_bundle s = (ok s.runtime.latest_bundle, s)

abbrev pub compute_result : ℕ → Frame → Frame
compute_result client_id resp =
    if is_true resp.ok
    then record (Frame.new op_host_compute_result) {
      id = some client_id;
      ok = some true;
      result = resp.result;
      status = some (text "ok");
    }
    else record (Frame.new op_host_compute_result) {
      id = some client_id;
      ok = some false;
      status = some (text "error");
      code = resp.code;
      error = resp.error;
    }

-- The answer to a challenge or to a rotation, by its operation
abbrev pub quoted_result : Text → ℕ → Frame → Frame
quoted_result op client_id resp = record (Frame.new op) {
  id = some client_id;
  ok = some true;
  key_version = resp.key_version;
  public_key = resp.public_key;
  quote = resp.quote;
  binding_nonce = resp.binding_nonce;
  report_data = resp.report_data;
  attested_at = resp.attested_at;
}

abbrev pub pubkey_result : ℕ → AttestationBundle → Frame
pubkey_result client_id bundle = record (Frame.new op_host_pubkey_result) {
  id = some client_id;
  ok = some true;
  key_version = some bundle.key_version;
  public_key = bundle.public_key;
  attested_at = some bundle.attested_at;
  quote = bundle.quote;
  binding_nonce = bundle.binding_nonce;
  report_data = bundle.report_data;
}

abbrev pub missing_nonce : ℕ → Frame
missing_nonce client_id = record (Frame.new op_host_challenge_result) {
  id = some client_id;
  ok = some false;
  error = some (text "missing nonce");
}

abbrev pub unsupported_op : ℕ → Text → Frame
unsupported_op client_id op = record (Frame.new (text "error")) {
  id = some client_id;
  ok = some false;
  error = some (text "unsupported client op: " ++ op);
}

module _ (wr wc : Fallible (Unit {0})) where
  abbrev pub client_compute : Frame → ℕ → State Serving (Unit {0})
  client_compute req client_id = do
    ct ← lift (ok_or (text "missing ct") req.ct)
    let key_version = unwrap_or 1 req.key_version
    let aad = unwrap_or (aad_json req.v client_id op_client_compute key_version) req.aad_json
    resp ← locked (request_compute_ct wr client_id ct aad key_version)
    write_out (compute_result client_id resp) wc

  abbrev pub client_rotate : ℕ → State Serving (Unit {0})
  client_rotate client_id = do
    resp ← locked (request_rotate wr)
    write_out (quoted_result op_host_rotate_result client_id resp) wc

module _ ⦃plat : Platform⦄ (wr wc : Fallible (Unit {0})) where
  abbrev pub client_challenge : ℕ → Option Text → State Serving (Unit {0})
  client_challenge client_id none = write_out (missing_nonce client_id) wc
  client_challenge client_id (some n) = do
    nonce ← lift (plat.b64_decode n)
    resp ← locked (request_attestation wr (some nonce))
    write_out (quoted_result op_host_challenge_result client_id resp) wc

  -- A bundle without a quote is attested first.
  abbrev pub attested_bundle : Option Text → State Serving (Unit {0})
  attested_bundle (some quote) = pure tt
  attested_bundle none = do
    resp ← locked (request_attestation wr (some (text "pubkey-attest-nonce")))
    pure tt

  abbrev pub client_pubkey : ℕ → State Serving (Unit {0})
  client_pubkey client_id s =
      (do
        attested_bundle s.runtime.latest_bundle.quote
        bundle ← latest_bundle
        write_out (pubkey_result client_id bundle) wc)
        s

  unfoldable pub handle_client : Fallible Frame → State Serving (Unit {0})
  handle_client received = do
    req ← lift received
    let client_id = unwrap_or 0 req.id
    if same req.op op_client_compute
        then client_compute wr wc req client_id
        else if same req.op op_client_challenge
        then client_challenge client_id req.nonce
        else if same req.op op_client_pubkey
        then client_pubkey client_id
        else if same req.op op_client_rotate
        then client_rotate wr wc client_id
        else write_out (unsupported_op client_id req.op) wc
