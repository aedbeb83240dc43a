-- ===== src/Protocol/Frame.antt =====
-- The frames of protocol/src/lib.rs and their operation names.
use tee_demo.Base.{ℕ, Bool, Option, none}
use tee_demo.Base.Bytes.{Text, text}
use tee_demo.Base.Int.{ℤ}
use tee_demo.Strings.Search.{starts_with}

abbrev pub protocol_version : ℕ
protocol_version = 1

-- Loader and runtime
abbrev pub op_loader_init_quote : Text
op_loader_init_quote = text "loader.init_quote"

abbrev pub op_loader_init_quote_result : Text
op_loader_init_quote_result = text "loader.init_quote_result"

abbrev pub op_loader_get_quote : Text
op_loader_get_quote = text "loader.get_quote"

abbrev pub op_loader_get_quote_result : Text
op_loader_get_quote_result = text "loader.get_quote_result"

abbrev pub op_loader_read_blob : Text
op_loader_read_blob = text "loader.read_blob"

abbrev pub op_loader_read_blob_result : Text
op_loader_read_blob_result = text "loader.read_blob_result"

abbrev pub op_loader_write_blob : Text
op_loader_write_blob = text "loader.write_blob"

abbrev pub op_loader_write_blob_result : Text
op_loader_write_blob_result = text "loader.write_blob_result"

-- Host and runtime
abbrev pub op_runtime_attestation_request : Text
op_runtime_attestation_request = text "runtime.AttestationRequest"

abbrev pub op_host_attestation_response : Text
op_host_attestation_response = text "host.AttestationResponse"

abbrev pub op_runtime_compute_request : Text
op_runtime_compute_request = text "runtime.ComputeRequest"

abbrev pub op_host_compute_response : Text
op_host_compute_response = text "host.ComputeResponse"

abbrev pub op_runtime_rotate_request : Text
op_runtime_rotate_request = text "runtime.RotateRequest"

abbrev pub op_host_rotate_response : Text
op_host_rotate_response = text "host.RotateResponse"

abbrev pub op_host_ready : Text
op_host_ready = text "host.Ready"

-- Client and host
abbrev pub op_client_compute : Text
op_client_compute = text "compute"

abbrev pub op_host_compute_result : Text
op_host_compute_result = text "compute_result"

abbrev pub op_client_pubkey : Text
op_client_pubkey = text "pubkey"

abbrev pub op_host_pubkey_result : Text
op_host_pubkey_result = text "pubkey_result"

abbrev pub op_client_rotate : Text
op_client_rotate = text "rotate"

abbrev pub op_host_rotate_result : Text
op_host_rotate_result = text "rotate_result"

abbrev pub op_client_challenge : Text
op_client_challenge = text "challenge"

abbrev pub op_host_challenge_result : Text
op_host_challenge_result = text "challenge_result"

abbrev pub challenge_nonce_len : ℕ
challenge_nonce_len = 32

-- Blob names
abbrev pub sealed_keys_name : Text
sealed_keys_name = text "sealed_keys.bin"

abbrev pub keyring_name : Text
keyring_name = text "keyring.json"

abbrev pub attestation_name : Text
attestation_name = text "attestation.json"

-- Error codes of `host.ComputeResponse`
abbrev pub err_key_expired : Text
err_key_expired = text "key_expired"

abbrev pub err_key_unknown : Text
err_key_unknown = text "key_unknown"

abbrev pub err_decrypt_failed : Text
err_decrypt_failed = text "decrypt_failed"

abbrev pub err_bad_input : Text
err_bad_input = text "bad_input"

pub record Frame : Type 0 where
  pub v : ℕ
  pub op : Text
  pub id : Option ℕ
  pub seq : Option ℕ
  pub ok : Option Bool
  pub error : Option Text
  pub nonce : Option Text
  pub binding_nonce : Option Text
  pub target_info : Option Text
  pub att_key_id : Option Text
  pub report : Option Text
  pub quote : Option Text
  pub report_data : Option Text
  pub attested_at : Option ℕ
  pub key_version : Option ℕ
  pub public_key : Option Text
  pub ct : Option Text
  pub aad_json : Option Text
  pub code : Option Text
  pub x : Option ℤ
  pub y : Option ℤ
  pub status : Option Text
  pub result : Option ℤ
  pub message : Option Text
  pub path : Option Text
  pub blob : Option Text

-- `Frame::new`
abbrev pub new : Text → Frame
new op = record {
  v = protocol_version;
  op = op;
  id = none;
  seq = none;
  ok = none;
  error = none;
  nonce = none;
  binding_nonce = none;
  target_info = none;
  att_key_id = none;
  report = none;
  quote = none;
  report_data = none;
  attested_at = none;
  key_version = none;
  public_key = none;
  ct = none;
  aad_json = none;
  code = none;
  x = none;
  y = none;
  status = none;
  result = none;
  message = none;
  path = none;
  blob = none;
}

unfoldable pub is_loader_op : Frame → Bool
unfolding starts_with
is_loader_op frame = starts_with frame.op (text "loader.")
