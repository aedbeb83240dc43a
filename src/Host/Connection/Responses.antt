-- ===== src/Host/Connection/Responses.antt =====
-- Which frame of the runtime the host takes for the response to a request.
use tee_demo.Base.{
  ℕ, ◌≡◌, sym, ap, inl, inr, some, List, [], ◌∷◌, ◌++◌, map, same, same_option, same_sound,
  same_option_sound, Bool-cases, Fallible, ok, err, panic, All, ok-injective,
}
use tee_demo.Base.Bytes.{Text}
use tee_demo.Protocol.Frame
use tee_demo.Protocol.Frame.{
  Frame, op_host_attestation_response, op_host_compute_response, op_host_rotate_response,
  op_runtime_compute_request,
}
use tee_demo.Host.Connection.{
  AttestationBundle, RuntimeConnection, Wait, from_frame, take_compute, await_compute, fresh_id,
  request_compute_ct,
}

-- The bundle after attestations that came in
abbrev pub updated : AttestationBundle → List Frame → AttestationBundle
updated bundle [] = bundle
updated bundle (f ∷ fs) = updated (from_frame f) fs

pub failed_wait :
    {B : Type 0} {e : Text} {out : Frame} {b b' : AttestationBundle} {r r' : List (Fallible Frame)}
    → ◌≡◌ {A = Wait} (err e, b, r) (ok out, b', r')
    → B
failed_wait e = absurd (cc (ap (λ (w : Wait). w.0) e))

taken :
    (id client_id : ℕ) (resp : Frame) (b b' : AttestationBundle) (r r' : List (Fallible Frame))
    (out : Frame)
    → take_compute id client_id resp b r ≡ (ok out, b', r')
    → (resp.id ≡ some id) × (out ≡ record resp { id = some client_id }) × (b' ≡ b) × (r ≡ r')
taken id client_id resp b b' r r' out e = elim (Bool-cases (same_option resp.id (some id))) [
  | inl h ↦
      let e' = rw h at e in
      (
        same_option_sound resp.id (some id) h,
        sym (ok-injective (ap (λ (w : Wait). w.0) e')),
        sym (ap (λ (w : Wait). w.1) e'),
        ap (λ (w : Wait). w.2) e',
      )
  | inr h ↦ failed_wait (rw h at e)
]

await_compute_sound :
    (id client_id : ℕ) (bundle : AttestationBundle) (inbox : List (Fallible Frame)) (out : Frame)
    (bundle' : AttestationBundle) (rest : List (Fallible Frame))
    → await_compute id client_id bundle inbox ≡ (ok out, bundle', rest)
    → (skipped : List Frame) × (resp : Frame) × (inbox ≡ map ok skipped ++ ok resp ∷ rest)
      × All (λ f. f.op ≡ op_host_attestation_response) skipped
      × (resp.op ≡ op_host_compute_response)
      × (resp.id ≡ some id)
      × (out ≡ record resp { id = some client_id })
      × (bundle' ≡ updated bundle skipped)
unfolding await_compute
await_compute_sound id client_id bundle [] out bundle' rest e = failed_wait e
await_compute_sound id client_id bundle (ok resp ∷ inbox) out bundle' rest e =
    elim (Bool-cases (same resp.op op_host_attestation_response)) [
      | inl a ↦
          let (skipped, final, split, all, o, i, same_out, b) =
            await_compute_sound id client_id (from_frame resp) inbox out bundle' rest (rw a at e) in
          (
            resp ∷ skipped,
            final,
            ap (λ t. ok resp ∷ t) split,
            (same_sound resp.op op_host_attestation_response a, all),
            o,
            i,
            same_out,
            b,
          )
      | inr na ↦ elim (Bool-cases (same resp.op op_host_compute_response)) [
        | inl c ↦
            let (i, same_out, b, r) =
              taken id client_id resp bundle bundle' inbox rest out (rw (na, c) at e) in
            (
              [],
              resp,
              ap (λ t. ok resp ∷ t) r,
              tt,
              same_sound resp.op op_host_compute_response c,
              i,
              same_out,
              b,
            )
        | inr nc ↦ failed_wait (rw (na, nc) at e)
      ]
    ]
await_compute_sound id client_id bundle (err x ∷ inbox) out bundle' rest e = failed_wait e
await_compute_sound id client_id bundle (panic ∷ inbox) out bundle' rest e =
    absurd (cc (ap (λ (w : Wait). w.0) e))

-- A forwarded compute request that returned: the request went out with the client's ciphertext,
-- associated data and key version untouched; what the client gets is the compute response with the
-- request's id, under the client's id and otherwise unchanged; the frames before it were
-- attestations, and the last of them, if any, is the new bundle; what follows is left to be read.
pub request_compute_ct_sound :
    (client_id key_version : ℕ) (ct aad : Text) (conn : RuntimeConnection) (out : Frame)
    (conn' : RuntimeConnection)
    → request_compute_ct (ok tt) client_id ct aad key_version conn ≡ (ok out, conn')
    → (conn'.sent
        ≡ conn.sent
          ++ record (Frame.new op_runtime_compute_request) {
            id = some (fresh_id conn);
            ct = some ct;
            aad_json = some aad;
            key_version = some key_version;
          }
            ∷ [])
      × (skipped : List Frame) × (resp : Frame) × (conn.inbox
          ≡ map ok skipped ++ ok resp ∷ conn'.inbox)
      × All (λ f. f.op ≡ op_host_attestation_response) skipped
      × (resp.op ≡ op_host_compute_response)
      × (resp.id ≡ some (fresh_id conn))
      × (out ≡ record resp { id = some client_id })
      × (conn'.latest_bundle ≡ updated conn.latest_bundle skipped)
unfolding request_compute_ct
request_compute_ct_sound client_id key_version ct aad conn out conn' e =
    let waited : await_compute (fresh_id conn) client_id conn.latest_bundle conn.inbox
        ≡ (ok out, conn'.latest_bundle, conn'.inbox) =
      λ i. ((e i).0, (e i).1.latest_bundle, (e i).1.inbox) in
    let (skipped, resp, split, all, o, i, same_out, bundle) =
      await_compute_sound (fresh_id conn) client_id conn.latest_bundle conn.inbox out
        conn'.latest_bundle conn'.inbox waited in
    (
      sym (ap (λ (p : Fallible Frame × RuntimeConnection). p.1.sent) e),
      skipped,
      resp,
      split,
      all,
      o,
      i,
      same_out,
      bundle,
    )
