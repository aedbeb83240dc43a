-- ===== src/Host/Connection/Rotations.antt =====
-- What the host takes for the answer to a rotation.
use tee_demo.Base.{
  ℕ, ◌≡◌, refl, sym, ap, ◌∙◌, inl, inr, Bool, true, false, Option, none, some, List, [], ◌∷◌, ◌++◌,
  map, same, same_option, same_sound, same_option_sound, is_true, Bool-cases, Fallible, ok, err,
  panic, All, ok-injective,
}
use tee_demo.Protocol.Frame.{Frame, op_host_attestation_response, op_host_rotate_response}
use tee_demo.Host.Connection.{
  AttestationBundle, RuntimeConnection, Wait, from_frame, rotated_bundle, take_rotate, await_rotate,
  fresh_id, request_rotate,
}
use tee_demo.Host.Connection.Responses.{updated, failed_wait}

is_true_sound : (o : Option Bool) → is_true o ≡ true → o ≡ some true
unfolding is_true
is_true_sound none e = cc e
is_true_sound (some true) e = refl
is_true_sound (some false) e = cc e

taken :
    (id : ℕ) (resp : Frame) (b b' : AttestationBundle) (r r' : List (Fallible Frame)) (out : Frame)
    → take_rotate id resp b r ≡ (ok out, b', r')
    → (resp.id ≡ some id)
      × (resp.ok ≡ some true)
      × (resp ≡ out)
      × (b' ≡ rotated_bundle resp b)
      × (r ≡ r')
taken id resp b b' r r' out e = elim (Bool-cases (same_option resp.id (some id))) [
  | inl h ↦ elim (Bool-cases (is_true resp.ok)) [
    | inl k ↦
        let e' = rw (h, k) at e in
        (
          same_option_sound resp.id (some id) h,
          is_true_sound resp.ok k,
          ok-injective (ap (λ (w : Wait). w.0) e'),
          sym (ap (λ (w : Wait). w.1) e'),
          ap (λ (w : Wait). w.2) e',
        )
    | inr k ↦ failed_wait (rw (h, k) at e)
  ]
  | inr h ↦ failed_wait (rw h at e)
]

await_rotate_sound :
    (id : ℕ) (bundle : AttestationBundle) (inbox : List (Fallible Frame)) (out : Frame)
    (bundle' : AttestationBundle) (rest : List (Fallible Frame))
    → await_rotate id bundle inbox ≡ (ok out, bundle', rest)
    → (skipped : List Frame) × (inbox ≡ map ok skipped ++ ok out ∷ rest)
      × All (λ f. f.op ≡ op_host_attestation_response) skipped
      × (out.op ≡ op_host_rotate_response)
      × (out.id ≡ some id)
      × (out.ok ≡ some true)
      × (bundle' ≡ rotated_bundle out (updated bundle skipped))
unfolding await_rotate
await_rotate_sound id bundle [] out bundle' rest e = failed_wait e
await_rotate_sound id bundle (ok resp ∷ inbox) out bundle' rest e =
    elim (Bool-cases (same resp.op op_host_attestation_response)) [
      | inl a ↦
          let (skipped, split, all, o, i, k, b) =
            await_rotate_sound id (from_frame resp) inbox out bundle' rest (rw a at e) in
          (
            resp ∷ skipped,
            ap (λ t. ok resp ∷ t) split,
            (same_sound resp.op op_host_attestation_response a, all),
            o,
            i,
            k,
            b,
          )
      | inr na ↦ elim (Bool-cases (same resp.op op_host_rotate_response)) [
        | inl c ↦
            let (i, k, same_out, b, r) =
              taken id resp bundle bundle' inbox rest out (rw (na, c) at e) in
            (
              [],
              cc (same_out, r),
              tt,
              ap (λ (f : Frame). f.op) (sym same_out)
                  ∙ same_sound resp.op op_host_rotate_response c,
              ap (λ (f : Frame). f.id) (sym same_out) ∙ i,
              ap (λ (f : Frame). f.ok) (sym same_out) ∙ k,
              b ∙ ap (λ f. rotated_bundle f bundle) same_out,
            )
        | inr nc ↦ failed_wait (rw (na, nc) at e)
      ]
    ]
await_rotate_sound id bundle (err x ∷ inbox) out bundle' rest e = failed_wait e
await_rotate_sound id bundle (panic ∷ inbox) out bundle' rest e =
    absurd (cc (ap (λ (w : Wait). w.0) e))

-- A rotation that returned to the host: the frame is the first of the stream that is no
-- attestation, is a rotation response with `ok` and the request's id, and the bundle is that of
-- the response, or, if it has no quote, that of the last attestation with the response's key.
pub request_rotate_sound :
    (conn : RuntimeConnection) (out : Frame) (conn' : RuntimeConnection)
    → request_rotate (ok tt) conn ≡ (ok out, conn')
    → (skipped : List Frame) × (conn.inbox ≡ map ok skipped ++ ok out ∷ conn'.inbox)
      × All (λ f. f.op ≡ op_host_attestation_response) skipped
      × (out.op ≡ op_host_rotate_response)
      × (out.id ≡ some (fresh_id conn))
      × (out.ok ≡ some true)
      × (conn'.latest_bundle ≡ rotated_bundle out (updated conn.latest_bundle skipped))
unfolding request_rotate
request_rotate_sound conn out conn' e =
    await_rotate_sound (fresh_id conn) conn.latest_bundle conn.inbox out conn'.latest_bundle
      conn'.inbox λ i. ((e i).0, (e i).1.latest_bundle, (e i).1.inbox)
