-- ===== src/Runtime/Connected/Requests.antt =====
-- The attestation and compute handlers of runtime/src/main.rs leave the sealed keys alone.
use tee_demo.Base.State.{◌>>=◌, ◌>>◌, lift, pure}
use tee_demo.Base.{
  ℕ, ◌-◌, ◌≡◌, ◌≢◌, ◌||◌, ◌==◌, ltb, Option, none, some, sym, ap, unwrap_or, ok-injective, Outcome,
  Fallible, ok, err, panic,
}
use tee_demo.Base.Int.{ℤ}
use tee_demo.Protocol.Aead.{aad_json}
use tee_demo.Runtime.Compute.{open_request}
use tee_demo.Base.Bytes.{Text, text}
use tee_demo.Protocol.Frame.{Frame, keyring_name, attestation_name}
use tee_demo.Protocol.Platform.{Platform}
use tee_demo.KeyStore.{KeyStore}
use tee_demo.Runtime.Link.{Peer, Io, M, write_frame, or_now, now_secs}
use tee_demo.Runtime.Attest.{stale_threshold_secs, maybe_stale_attest}
use tee_demo.Runtime.Server.{
  Session, nonce_or, missing_ct, compute_response, compute_reply, handle_attestation_request,
  handle_compute_request,
}
use tee_demo.Runtime.Connected.Spares.{
  Spares, SparesFile, spares_rules, Spares-bind, Spares-if, Spares-lift, Spares-pure, Spares-or_now,
  Spares-now_secs, Spares-pathless, Spares-attested, Spares-after,
}

compute_response-pathless :
    (frame : Frame) (r : Outcome (Text × Text) (ℤ × ℤ)) (reply : Frame)
    → compute_response frame r ≡ ok reply
    → reply.path ≡ none
compute_response-pathless frame (ok (x, y)) reply e =
    sym (ap (λ (f : Frame). f.path) (ok-injective e))
compute_response-pathless frame (err (c, m)) reply e =
    sym (ap (λ (f : Frame). f.path) (ok-injective e))
compute_response-pathless frame panic reply e = cc e

module _ ⦃plat : Platform⦄ where
  ct_pathless :
      (store : KeyStore) (frame : Frame) (v : ℕ) (aad : Text) (ct : Option Text) (reply : Frame)
      → (elim ct [
        | none ↦ ok (missing_ct frame)
        | some ct_b64 ↦ compute_response frame (open_request store v ct_b64 aad)
      ])
        ≡ ok reply
      → reply.path ≡ none
  ct_pathless store frame v aad none reply e = sym (ap (λ (f : Frame). f.path) (ok-injective e))
  ct_pathless store frame v aad (some ct_b64) reply e =
      compute_response-pathless frame (open_request store v ct_b64 aad) reply e

  compute_reply-pathless :
      (store : KeyStore) (frame reply : Frame)
      → compute_reply store frame ≡ ok reply
      → reply.path ≡ none
  unfolding compute_reply
  compute_reply-pathless store frame reply e =
      ct_pathless store frame (unwrap_or 0 frame.key_version)
        (unwrap_or
          (aad_json frame.v (unwrap_or 0 frame.id) (text "compute") (unwrap_or 0 frame.key_version))
          frame.aad_json)
        frame.ct reply e

module _ {ℓ} {P : Type ℓ} {V : Type 0} {look : P → V} {n : Text} ⦃plat : Platform⦄ ⦃net : Peer P⦄
    (spares : SparesFile n look net) (keyring : keyring_name ≢ n)
    (attestation : attestation_name ≢ n) where
  -- The rest of an attestation that nobody asked for
  abbrev stale_rest : Frame × ℕ → M P (ℕ × ℕ)
  stale_rest (out, sequence') = do
    write_frame (record out { id = none })
    attested_at ← or_now out.attested_at
    pure (attested_at, sequence')

  Spares-stale_rest : (out : Frame × ℕ) → out.0.path ≡ none → Spares look (stale_rest out)
  Spares-stale_rest (out, k) e =
      Spares-bind look (write_frame (record out { id = none })) _
        (Spares-pathless spares (record out { id = none }) e)
        λ u.
          Spares-bind look (or_now out.attested_at) _ (Spares-or_now look out.attested_at)
            λ t. Spares-pure look (t, k)

  Spares-maybe_stale_attest :
      (t : ℕ) (store : KeyStore) (sequence : ℕ) → Spares look (maybe_stale_attest t store sequence)
  unfolding maybe_stale_attest
  Spares-maybe_stale_attest t store sequence =
      Spares-bind look now_secs _ (Spares-now_secs look) λ now.
        Spares-if look (t == 0 || ltb stale_threshold_secs (now - t)) _ _
          (Spares-attested spares keyring attestation (text "stale-auto-attest-nonce") store
            sequence stale_rest Spares-stale_rest)
          (Spares-pure look (t, sequence))

  -- The rest of a requested attestation
  abbrev attested_rest : Frame → Session → Frame × ℕ → M P Session
  attested_rest frame session (out, sequence') = do
    attested_at ← or_now out.attested_at
    write_frame (record out { id = frame.id })
    pure (record session { last_attested_at = attested_at; sequence = sequence' })

  Spares-attested_rest :
      (frame : Frame) (session : Session) (out : Frame × ℕ)
      → out.0.path ≡ none
      → Spares look (attested_rest frame session out)
  Spares-attested_rest frame session (out, k) e =
      Spares-bind look (or_now out.attested_at) _ (Spares-or_now look out.attested_at) λ t.
        Spares-bind look (write_frame (record out { id = frame.id })) _
          (Spares-pathless spares (record out { id = frame.id }) e)
          λ u. Spares-pure look (record session { last_attested_at = t; sequence = k })

  pub Spares-handle_attestation_request :
      (frame : Frame) (session : Session) → Spares look (handle_attestation_request frame session)
  unfolding handle_attestation_request
  Spares-handle_attestation_request frame session =
      Spares-bind look (lift (nonce_or (text "pr3c-default-nonce") frame.nonce)) _
        (Spares-lift look _)
        λ nonce.
          Spares-attested spares keyring attestation nonce session.store session.sequence
            (attested_rest frame session) (Spares-attested_rest frame session)

  -- The rest of a computation: the answer
  abbrev compute_rest : Session → ℕ × ℕ → Frame → M P Session
  compute_rest session (t, k) resp = do
    write_frame resp
    pure (record session { last_attested_at = t; sequence = k })

  Spares-compute_rest :
      (session : Session) (m : ℕ × ℕ) (resp : Frame)
      → resp.path ≡ none
      → Spares look (compute_rest session m resp)
  Spares-compute_rest session (t, k) resp e =
      search (spares_rules, Spares-pathless spares resp e) depth 8

  pub Spares-handle_compute_request :
      (frame : Frame) (session : Session) → Spares look (handle_compute_request frame session)
  unfolding handle_compute_request
  Spares-handle_compute_request frame session =
      let t = session.last_attested_at in
      let k = session.sequence in
      Spares-bind look (maybe_stale_attest t session.store k)
        (λ m. lift (compute_reply session.store frame) >>= compute_rest session m)
        (Spares-maybe_stale_attest t session.store k)
        λ m.
          Spares-after look (lift (compute_reply session.store frame)) (compute_rest session m)
            (Spares-lift look _)
            λ io resp io' e. Spares-compute_rest session m resp (
              compute_reply-pathless session.store frame resp
                (ap (λ (r : Fallible Frame × Io P). r.0) e))
