-- ===== src/Runtime/Server/Requests.antt =====
-- What a compute request does to the stream and to the session in runtime/src/main.rs.
use tee_demo.Base.State.{lift, bind-ok}
use tee_demo.Base.{
  ℕ, ◌+◌, ◌-◌, ◌≤◌, ◌≡◌, ◌≢◌, refl, sym, ap, ◌∙◌, inl, inr, false, ◌||◌, some, List, [], ◌∷◌, ◌++◌,
  arith, ltb, ◌==◌, Fallible, ok, err, ok-injective,
}
use tee_demo.Base.Bytes.{Bytes}
use tee_demo.Protocol.Frame
use tee_demo.Protocol.Frame.{Frame, op_host_compute_response, err_key_expired}
use tee_demo.Protocol.Platform.{Platform}
use tee_demo.KeyStore
use tee_demo.KeyStore.{KeyStore, StoredKey, expired, unknown, failed, lookup, code, message}
use tee_demo.KeyStore.Retention.{IsValid}
use tee_demo.KeyStore.Lookup.{lookup_answers}
use tee_demo.Runtime.Compute.{open_request}
use tee_demo.Runtime.Link.{Peer, Io, write_frame}
use tee_demo.Runtime.Link.Bind.{sent-write_frame}
use tee_demo.Runtime.Attest.{maybe_stale_attest, stale_threshold_secs}
use tee_demo.Runtime.Server.{Session, compute_reply, handle_compute_request}

module _ ⦃plat : Platform⦄ where
  lookup-expired :
      (store : KeyStore) (v : ℕ)
      → IsValid store
      → v + 2 ≤ store.current_version
      → lookup store v ≡ err expired
  lookup-expired store v valid old = elim (lookup_answers store v valid) [
    | inl (k, _, _, _, _, recent) ↦ absurd (omega (arith, recent, old))
    | inr (inl (e, _)) ↦ e
    | inr (inr (_, recent, _)) ↦ absurd (omega (arith, recent, old))
  ]

  -- On a valid store, a request under a key version that is two or more behind the current one, and
  -- with any ciphertext that is base64, is refused with the request's id and with the code and the
  -- message for an expired key.
  pub compute_reply-retired :
      (store : KeyStore) (frame : Frame) (v : ℕ) (ct_b64 ct : Bytes)
      → IsValid store
      → v + 2 ≤ store.current_version
      → frame.ct ≡ some ct_b64
      → frame.key_version ≡ some v
      → plat.b64_decode ct_b64 ≡ ok ct
      → compute_reply store frame
        ≡ ok (record (Frame.new op_host_compute_response) {
          id = frame.id;
          ok = some false;
          code = some err_key_expired;
          error = some (message expired);
        })
  unfolding compute_reply open_request KeyStore.decrypt code
  compute_reply-retired store frame v ct_b64 ct valid old fc fv b64 =
      rw (fc, fv, b64, lookup-expired store v valid old) refl

module _ {ℓ} {P : Type ℓ} ⦃plat : Platform⦄ ⦃net : Peer P⦄ where
  -- A compute request that returned has sent the answer that `compute_reply` gives on the store as
  -- it was, as its last frame; the store is unchanged.
  pub handle_compute_request-answers :
      (frame : Frame) (session : Session) (io : Io P) (session' : Session) (io' : Io P)
      → handle_compute_request frame session io ≡ (ok session', io')
      → (reply : Frame) × (earlier : List Frame) × (compute_reply session.store frame ≡ ok reply)
        × (io'.sent ≡ earlier ++ reply ∷ [])
        × (session'.store ≡ session.store)
  unfolding handle_compute_request
  handle_compute_request-answers frame session io session' io' e =
      let (p, m1, e1, r1) =
        bind-ok (maybe_stale_attest session.last_attested_at session.store session.sequence) _ io
          e in
      let (reply, m2, e2, r2) = bind-ok (lift (compute_reply session.store frame)) _ m1 r1 in
      let (u, m3, e3, r3) = bind-ok (write_frame reply) _ m2 r2 in
      (
        reply,
        m2.sent,
        ap (λ (r : Fallible Frame × Io P). r.0) e2,
        sym (ap (λ (r : Fallible Session × Io P). r.1.sent) r3) ∙ sent-write_frame reply m2 e3,
        sym (
            ap (λ (s : Session). s.store)
              (ok-injective (ap (λ (r : Fallible Session × Io P). r.0) r3))),
      )

  -- While the last attestation is not stale, an accepted compute request sends nothing but its
  -- answer and leaves the session as it is.
  pub handle_compute_request-fresh :
      (frame : Frame) (session : Session) (io : Io P) (reply : Frame)
      (replies : List (Fallible Frame)) (p : P)
      → session.last_attested_at ≢ 0
      → plat.now_secs io.readings ≤ session.last_attested_at + stale_threshold_secs
      → compute_reply session.store frame ≡ ok reply
      → net.receive reply io.peer ≡ (ok replies, p)
      → (io' : Io P) × (handle_compute_request frame session io ≡ (ok session, io'))
        × (io'.sent ≡ io.sent ++ reply ∷ [])
        × (io'.inbox ≡ io.inbox ++ replies)
  unfolding handle_compute_request maybe_stale_attest write_frame
  handle_compute_request-fresh frame session io reply replies p attested recent made taken =
      let stale : (session.last_attested_at == 0
            || ltb stale_threshold_secs (plat.now_secs io.readings - session.last_attested_at))
          ≡ false =
        ground arith in
      let after : Io P = record io {
        peer = p;
        inbox = io.inbox ++ replies;
        sent = io.sent ++ reply ∷ [];
        readings = io.readings + 1;
      } in
      (after, rw (stale, made, taken) refl, refl, refl)
