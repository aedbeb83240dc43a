-- ===== src/Runtime/Server/Attesting.antt =====
-- What an attestation request of runtime/src/main.rs is answered with.
use tee_demo.Base.State.{lift, bind-ok}
use tee_demo.Base.{ℕ, ◌≡◌, sym, ap, ◌∙◌, some, List, [], ◌∷◌, ◌++◌, Fallible, ok, ok-injective}
use tee_demo.Base.Bytes.{Bytes, text}
use tee_demo.Protocol.Frame.{Frame}
use tee_demo.Protocol.Platform.{Platform}
use tee_demo.KeyStore.{StoredKey, current}
use tee_demo.Runtime.Link.{Peer, Io, write_frame, or_now}
use tee_demo.Runtime.Link.Bind.{sent-write_frame}
use tee_demo.Runtime.Attest.{attestation_frame, do_attestation_and_cache}
use tee_demo.Runtime.Attest.Bound.{cached-current}
use tee_demo.Runtime.Server.{Session, nonce_or, handle_attestation_request}

module _ {ℓ} {P : Type ℓ} ⦃plat : Platform⦄ ⦃net : Peer P⦄ where
  -- An attestation request that was handled has been answered last, with the request's id, for the
  -- current key of the store and the request's nonce, and the store is as it was.
  pub handle_attestation_request-attests :
      (frame : Frame) (session : Session) (io : Io P) (session' : Session) (io' : Io P)
      (nonce : Bytes)
      → nonce_or (text "pr3c-default-nonce") frame.nonce ≡ ok nonce
      → handle_attestation_request frame session io ≡ (ok session', io')
      → (key : StoredKey) × (quote : Bytes) × (attested_at : ℕ) × (earlier : List Frame) × (current
            session.store
          ≡ some key)
        × (session'.store ≡ session.store)
        × (io'.sent
            ≡ earlier
              ++ record (attestation_frame key nonce quote attested_at) { id = frame.id } ∷ [])
  unfolding handle_attestation_request
  handle_attestation_request-attests frame session io session' io' nonce is_nonce e =
      let (n, m0, e0, r0) =
        bind-ok (lift (nonce_or (text "pr3c-default-nonce") frame.nonce)) _ io e in
      let same_nonce : n ≡ nonce =
        ok-injective (sym (ap (λ (r : Fallible Bytes × Io P). r.0) e0) ∙ is_nonce) in
      let (p, m1, e1, r1) =
        bind-ok (do_attestation_and_cache n session.store session.sequence) _ m0 r0 in
      let resp : Frame = record (p.0) { id = frame.id } in
      let (t, m2, e2, r2) = bind-ok (or_now resp.attested_at) _ m1 r1 in
      let (u, m3, e3, r3) = bind-ok (write_frame resp) _ m2 r2 in
      let (key, quote, at, cur, same_out) =
        cached-current n session.store session.sequence m0 p.0 p.1 m1 e1 in
      (
        key,
        quote,
        at,
        m2.sent,
        cur,
        sym (
            ap (λ (s : Session). s.store)
              (ok-injective (ap (λ (r : Fallible Session × Io P). r.0) r3))),
        sym (ap (λ (r : Fallible Session × Io P). r.1.sent) r3)
            ∙ sent-write_frame resp m2 e3
            ∙ ap (λ (f : Frame). m2.sent ++ record f { id = frame.id } ∷ []) same_out
            ∙ ap
                (λ (x : Bytes).
                  m2.sent ++ record (attestation_frame key x quote at) { id = frame.id } ∷ [])
                same_nonce,
      )
