-- ===== src/Host/Connection.antt =====
-- `RuntimeConnection` of host/src/main.rs: its requests to the runtime. The stream is what will be
-- read, and what was written; the result of a request's write is an argument.
pub mod Responses
pub mod Rotations
pub mod Plain
use tee_demo.Base.{
  ℕ, ◌+◌, ◌%◌, ◌^◌, Bool, true, not, Option, none, some, List, [], ◌∷◌, ◌++◌, same, same_option,
  is_true, if◌then◌else◌, unwrap_or, concat, Outcome, Fallible, ok, err, panic,
}
use mathlib.Core.Option
use tee_demo.Strings.Decimal.{show_nat}
use tee_demo.Base.Bytes.{Bytes, Text, text}
use tee_demo.Protocol.Frame
use tee_demo.Protocol.Frame.{
  Frame, op_runtime_attestation_request, op_host_attestation_response, op_runtime_compute_request,
  op_host_compute_response, op_runtime_rotate_request, op_host_rotate_response,
}
use tee_demo.Protocol.Platform.{Platform}
use tee_demo.Runtime.Link.{end_of_stream}

pub record AttestationBundle : Type 0 where
  pub attested_at : ℕ
  pub key_version : ℕ
  pub public_key : Option Text
  pub quote : Option Text
  pub binding_nonce : Option Text
  pub report_data : Option Text

abbrev pub from_frame : Frame → AttestationBundle
from_frame frame = record {
  attested_at = unwrap_or 0 frame.attested_at;
  key_version = unwrap_or 0 frame.key_version;
  public_key = frame.public_key;
  quote = frame.quote;
  binding_nonce = frame.binding_nonce;
  report_data = frame.report_data;
}

-- The stream, without the loader's process
pub record RuntimeConnection : Type 0 where
  pub inbox : List (Fallible Frame)
  pub sent : List Frame
  pub next_id : ℕ
  pub latest_bundle : AttestationBundle

-- What a wait for a response leaves: the result, the bundle and the rest of the stream
abbrev pub Wait : Type 0
Wait = Fallible Frame × AttestationBundle × List (Fallible Frame)

-- A response of compute, with the client's id
abbrev pub take_compute : ℕ → ℕ → Frame → AttestationBundle → List (Fallible Frame) → Wait
take_compute id client_id resp bundle rest =
    if not (same_option resp.id (some id))
    then (err (text "compute_ct response id mismatch"), bundle, rest)
    else (ok (record resp { id = some client_id }), bundle, rest)

-- The loop of `request_compute_ct`
unfoldable pub await_compute : ℕ → ℕ → AttestationBundle → List (Fallible Frame) → Wait
await_compute id client_id bundle [] = (err end_of_stream, bundle, [])
await_compute id client_id bundle (ok resp ∷ rest) =
    let more = await_compute id client_id (from_frame resp) rest in
    if same resp.op op_host_attestation_response
    then more
    else if same resp.op op_host_compute_response
    then take_compute id client_id resp bundle rest
    else (err (text "unexpected op during compute_ct: " ++ resp.op), bundle, rest)
await_compute id client_id bundle (err e ∷ rest) = (err e, bundle, rest)
await_compute id client_id bundle (panic ∷ rest) = (panic, bundle, rest)

-- What a response of a rotation leaves as the bundle
abbrev pub rotated_bundle : Frame → AttestationBundle → AttestationBundle
rotated_bundle resp bundle = elim resp.quote [
  | some quote ↦ from_frame resp
  | none ↦ record bundle {
    key_version = unwrap_or 0 resp.key_version;
    public_key = resp.public_key;
  }
]

abbrev pub take_rotate : ℕ → Frame → AttestationBundle → List (Fallible Frame) → Wait
take_rotate id resp bundle rest =
    if not (same_option resp.id (some id))
    then (err (text "rotate response id mismatch"), bundle, rest)
    else if not (is_true resp.ok)
    then (err (text "rotate failed: " ++ unwrap_or [] resp.error), bundle, rest)
    else (ok resp, rotated_bundle resp bundle, rest)

-- The loop of `request_rotate`
unfoldable pub await_rotate : ℕ → AttestationBundle → List (Fallible Frame) → Wait
await_rotate id bundle [] = (err end_of_stream, bundle, [])
await_rotate id bundle (ok resp ∷ rest) =
    let more = await_rotate id (from_frame resp) rest in
    if same resp.op op_host_attestation_response
    then more
    else if same resp.op op_host_rotate_response
    then take_rotate id resp bundle rest
    else (err (text "unexpected op during rotate: " ++ resp.op), bundle, rest)
await_rotate id bundle (err e ∷ rest) = (err e, bundle, rest)
await_rotate id bundle (panic ∷ rest) = (panic, bundle, rest)

-- `{:?}` of an `Option<u64>`
abbrev pub debug_option : Option ℕ → Text
debug_option none = text "None"
debug_option (some n) = text "Some(" ++ (show_nat n ++ text ")")

abbrev pub id_mismatch : ℕ → Option ℕ → Text
id_mismatch id got = concat (
    text "attestation response id mismatch (got "
    ∷ debug_option got
    ∷ text ", want "
    ∷ show_nat id
    ∷ text ")"
    ∷ [])

-- The one read of `request_attestation`
unfoldable pub take_attestation : ℕ → AttestationBundle → List (Fallible Frame) → Wait
take_attestation id bundle [] = (err end_of_stream, bundle, [])
take_attestation id bundle (ok resp ∷ rest) =
    if not (same resp.op op_host_attestation_response)
    then (err (text "unexpected op: " ++ resp.op), bundle, rest)
    else if not (same_option resp.id (some id))
    then (err (id_mismatch id resp.id), bundle, rest)
    else if not (is_true resp.ok)
    then (err (text "attestation failed: " ++ unwrap_or [] resp.error), bundle, rest)
    else (ok resp, from_frame resp, rest)
take_attestation id bundle (err e ∷ rest) = (err e, bundle, rest)
take_attestation id bundle (panic ∷ rest) = (panic, bundle, rest)

-- A request that was written, and the wait for its response
abbrev pub request :
    {A : Type 0}
    → Frame
    → Fallible (Unit {0})
    → RuntimeConnection
    → (AttestationBundle
        → List (Fallible Frame)
        → Fallible A × AttestationBundle × List (Fallible Frame))
    → Fallible A × RuntimeConnection
request req (ok u) conn wait =
    let (r, bundle, rest) = wait conn.latest_bundle conn.inbox in
    (r, record conn { inbox = rest; sent = conn.sent ++ req ∷ []; latest_bundle = bundle })
request req (err e) conn wait = (err e, conn)
request req panic conn wait = (panic, conn)

-- `next_id`, in a release build
abbrev pub fresh_id : RuntimeConnection → ℕ
fresh_id conn = (conn.next_id + 1) % 2 ^ 64

unfoldable pub request_compute_ct :
    Fallible (Unit {0})
    → ℕ
    → Text
    → Text
    → ℕ
    → RuntimeConnection
    → Fallible Frame × RuntimeConnection
unfolding await_compute
request_compute_ct w client_id ct aad_json key_version conn =
    let id = fresh_id conn in
    request
      (record (Frame.new op_runtime_compute_request) {
        id = some id;
        ct = some ct;
        aad_json = some aad_json;
        key_version = some key_version;
      })
      w (record conn { next_id = id }) (await_compute id client_id)

unfoldable pub request_rotate :
    Fallible (Unit {0}) → RuntimeConnection → Fallible Frame × RuntimeConnection
unfolding await_rotate
request_rotate w conn =
    let id = fresh_id conn in
    request (record (Frame.new op_runtime_rotate_request) { id = some id }) w
      (record conn { next_id = id }) (await_rotate id)

module _ ⦃plat : Platform⦄ where
  unfoldable pub request_attestation :
      Fallible (Unit {0}) → Option Bytes → RuntimeConnection → Fallible Frame × RuntimeConnection
  unfolding take_attestation
  request_attestation w nonce conn =
      let id = fresh_id conn in
      request
        (record (Frame.new op_runtime_attestation_request) {
          id = some id;
          nonce = Option.map plat.b64_encode nonce;
        })
        w (record conn { next_id = id }) (take_attestation id)
