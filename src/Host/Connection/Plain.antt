-- ===== src/Host/Connection/Plain.antt =====
-- `request_compute` of host/src/main.rs, a computation on two numbers that are not sealed.
use tee_demo.Base.{
  ℕ, ◌≡◌, refl, sym, not, some, List, [], ◌∷◌, ◌++◌, same, same_option, same_option_refl, is_true,
  if◌then◌else◌, unwrap_or, ok_or, Fallible, ok, err, panic, ok-injective,
}
use tee_demo.Base.Bytes.{text}
use tee_demo.Base.Int.{ℤ}
use tee_demo.Protocol.Frame
use tee_demo.Protocol.Frame.{
  Frame, op_host_attestation_response, op_runtime_compute_request, op_host_compute_response,
}
use tee_demo.Protocol.Platform.{Platform}
use tee_demo.KeyStore.{KeyStore}
use tee_demo.Runtime.Link.{end_of_stream}
use tee_demo.Runtime.Server.{missing_ct, compute_reply}
use tee_demo.Host.Connection.{AttestationBundle, RuntimeConnection, from_frame, request, fresh_id}

-- A response, with the result alone
abbrev pub take_plain : ℕ → Frame → Fallible ℤ
take_plain id resp =
    if not (same_option resp.id (some id))
    then err (text "compute response id mismatch")
    else if not (is_true resp.ok)
    then err (text "compute failed: " ++ unwrap_or [] resp.error)
    else ok_or (text "missing result") resp.result

-- The loop of `request_compute`
unfoldable pub await_plain :
    ℕ
    → AttestationBundle
    → List (Fallible Frame)
    → Fallible ℤ × AttestationBundle × List (Fallible Frame)
await_plain id bundle [] = (err end_of_stream, bundle, [])
await_plain id bundle (ok resp ∷ rest) =
    let more = await_plain id (from_frame resp) rest in
    if same resp.op op_host_attestation_response
    then more
    else if same resp.op op_host_compute_response
    then (take_plain id resp, bundle, rest)
    else (err (text "unexpected op during compute: " ++ resp.op), bundle, rest)
await_plain id bundle (err e ∷ rest) = (err e, bundle, rest)
await_plain id bundle (panic ∷ rest) = (panic, bundle, rest)

abbrev pub plain_request : RuntimeConnection → ℤ → ℤ → Frame
plain_request conn x y = record (Frame.new op_runtime_compute_request) {
  id = some (fresh_id conn);
  x = some x;
  y = some y;
}

unfoldable pub request_compute :
    Fallible (Unit {0}) → ℤ → ℤ → RuntimeConnection → Fallible ℤ × RuntimeConnection
unfolding await_plain
request_compute w x y conn =
    request (plain_request conn x y) w (record conn { next_id = fresh_id conn })
      (await_plain (fresh_id conn))

module _ ⦃plat : Platform⦄ where
  -- The runtime refuses every computation on numbers that are not sealed: whatever the numbers and
  -- the key store, if the next frame that the host reads of the runtime is the runtime's answer to
  -- the request of `request_compute`, then `request_compute` fails with "missing ct".
  pub request_compute-refused :
      (x y : ℤ) (store : KeyStore) (conn : RuntimeConnection) (reply : Frame)
      (rest : List (Fallible Frame))
      → conn.inbox ≡ ok reply ∷ rest
      → compute_reply store (plain_request conn x y) ≡ ok reply
      → (request_compute (ok tt) x y conn).0 ≡ err (text "compute failed: missing ct")
  unfolding request_compute compute_reply same is_true
  request_compute-refused x y store conn reply rest inbox answered =
      let is_reply : reply ≡ missing_ct (plain_request conn x y) = ok-injective (sym answered) in
      rw (inbox, is_reply, same_option_refl (some (fresh_id conn))) refl
