-- ===== src/Runtime/Server/Rotation.antt =====
-- What a rotation of runtime/src/main.rs announces.
use tee_demo.Base.State.{◌>>=◌, ◌>>◌, pure, lift, bind-ok}
use tee_demo.Base.{
  ℕ, ◌+◌, ◌≡◌, sym, ap, ◌∙◌, true, none, some, List, [], ◌∷◌, ◌++◌, append_assoc, Fallible, ok,
  ok-injective,
}
use mathlib.Core.Path.{subst}
use tee_demo.Base.Bytes.{Bytes, to_le_bytes}
use tee_demo.Protocol.Frame
use tee_demo.Protocol.Frame.{Frame, op_host_rotate_response, keyring_name}
use tee_demo.Protocol.Platform.{Platform}
use tee_demo.KeyStore
use tee_demo.KeyStore.{KeyStore, StoredKey, current, keyring_json}
use tee_demo.Runtime.Link.{Peer, Io, M, write_frame, or_now}
use tee_demo.Runtime.Link.Bind.{sent-write_frame}
use tee_demo.Runtime.Attest.{attestation_frame, persist_store, do_attestation_and_cache}
use tee_demo.Runtime.Attest.Bound.{cached-current}
use tee_demo.Runtime.Server.{Session, nonce_or, handle_rotate_request}

module _ ⦃plat : Platform⦄ where
  -- The answer to the host, which repeats the fields of the attestation
  abbrev pub rotate_response : Frame → StoredKey → Frame → Frame
  rotate_response frame key attest = record (Frame.new op_host_rotate_response) {
    id = frame.id;
    ok = some true;
    key_version = some key.version;
    public_key = some (plat.b64_encode key.public_key);
    quote = attest.quote;
    binding_nonce = attest.binding_nonce;
    report_data = attest.report_data;
    attested_at = attest.attested_at;
  }

  -- What the two frames say
  abbrev Announced : Frame → KeyStore → StoredKey → List Frame → Type 0
  Announced frame store new_key sent =
      (key : StoredKey) × (nonce : Bytes) × (quote : Bytes) × (attested_at : ℕ) × (earlier : List
        Frame)
      × (current store ≡ some key)
      × (sent
          ≡ earlier
            ++ attestation_frame key nonce quote attested_at
              ∷ rotate_response frame new_key (attestation_frame key nonce quote attested_at)
              ∷ [])

module _ {ℓ} {P : Type ℓ} ⦃plat : Platform⦄ ⦃net : Peer P⦄ where
  -- The two writes that end a rotation
  abbrev pub announce : Frame → KeyStore → StoredKey → Frame → ℕ → ℕ → M P Session
  announce frame store new_key out sequence attested_at = do
    write_frame (record out { id = none })
    write_frame (rotate_response frame new_key (record out { id = none }))
    pure (record { last_attested_at = attested_at; store = store; sequence = sequence })

  sent-announce :
      (frame : Frame) (store : KeyStore) (new_key : StoredKey) (out : Frame) (n t : ℕ) (io : Io P)
      (session' : Session) (io' : Io P)
      → announce frame store new_key out n t io ≡ (ok session', io')
      → (store ≡ session'.store)
        × (io'.sent
            ≡ io.sent
              ++ record out { id = none }
                ∷ rotate_response frame new_key (record out { id = none })
                ∷ [])
  sent-announce frame store new_key out n t io session' io' e =
      let (u, m, e1, r1) = bind-ok (write_frame (record out { id = none })) _ io e in
      let (w, m', e2, r2) =
        bind-ok (write_frame (rotate_response frame new_key (record out { id = none }))) _ m r1 in
      (
        ap (λ (s : Session). s.store) (ok-injective (ap (λ (r : Fallible Session × Io P). r.0) r2)),
        sym (ap (λ (r : Fallible Session × Io P). r.1.sent) r2)
            ∙ sent-write_frame _ m e2
            ∙ ap (λ q. q ++ rotate_response frame new_key (record out { id = none }) ∷ [])
                (sent-write_frame _ io e1)
            ∙ append_assoc io.sent (record out { id = none } ∷ []) _,
      )

  -- A rotation behind its persistence
  abbrev pub attest_new : Frame → ℕ → KeyStore → StoredKey → Bytes → M P Session
  attest_new frame sequence store new_key nonce = do
    (out, n) ← do_attestation_and_cache nonce store sequence
    t ← or_now out.attested_at
    announce frame store new_key out n t

  attest_new-announces :
      (frame : Frame) (n : ℕ) (store : KeyStore) (new_key : StoredKey) (nonce : Bytes) (io : Io P)
      (session' : Session) (io' : Io P)
      → attest_new frame n store new_key nonce io ≡ (ok session', io')
      → (store ≡ session'.store) × Announced frame store new_key io'.sent
  attest_new-announces frame n store new_key nonce io session' io' e =
      let (p, m, e1, r1) =
        bind-ok (do_attestation_and_cache nonce store n)
          (λ (out, k). or_now out.attested_at >>= λ t. announce frame store new_key out k t) io e in
      let (t, m', e2, r2) =
        bind-ok (or_now p.0.attested_at) (λ t. announce frame store new_key p.0 p.1 t) m r1 in
      let (key, quote, at, cur, same_out) = cached-current nonce store n io p.0 p.1 m e1 in
      let (same_store, sent) = sent-announce frame store new_key p.0 p.1 t m' session' io' r2 in
      (
        same_store,
        (
          key,
          nonce,
          quote,
          at,
          m'.sent,
          cur,
          sent
              ∙ ap
                  (λ (o : Frame).
                    m'.sent
                    ++ record o { id = none }
                      ∷ rotate_response frame new_key (record o { id = none })
                      ∷ [])
                  same_out,
        ),
      )

  -- A rotation that returned has rotated the store, and the last two frames that it sent are an
  -- attestation of the current key of the rotated store, with no id, and then the answer with the
  -- request's id, which has the version and the public key of the new key and the attestation's
  -- quote, nonce, REPORTDATA and time. The session goes on with the rotated store.
  pub handle_rotate_request-announces :
      (frame : Frame) (session : Session) (io : Io P) (session' : Session) (io' : Io P)
      → handle_rotate_request frame session io ≡ (ok session', io')
      → (new_key : StoredKey) × (KeyStore.rotate io.draws session.store
          ≡ ok (session'.store, new_key))
        × ((key : StoredKey) × (nonce : Bytes) × (quote : Bytes) × (attested_at : ℕ)
            × (earlier : List Frame) × (current session'.store ≡ some key)
            × (io'.sent
                ≡ earlier
                  ++ attestation_frame key nonce quote attested_at
                    ∷ rotate_response frame new_key (attestation_frame key nonce quote attested_at)
                    ∷ []))
  unfolding handle_rotate_request
  handle_rotate_request-announces frame session io session' io' e =
      let m1 : Io P = record io { draws = io.draws + 1 } in
      let (p, m2, e2, r2) =
        bind-ok (lift (KeyStore.rotate io.draws session.store))
          (λ (store, new_key).
            persist_store store
            >> (lift (nonce_or (to_le_bytes 8 new_key.version) frame.nonce) >>= λ nonce.
                attest_new frame session.sequence store new_key nonce))
          m1 e in
      let (u, m3, e3, r3) = bind-ok (persist_store p.0) _ m2 r2 in
      let (nonce, m4, e4, r4) =
        bind-ok (lift (nonce_or (to_le_bytes 8 p.1.version) frame.nonce))
          (λ nonce. attest_new frame session.sequence p.0 p.1 nonce) m3 r3 in
      let (same_store, announced) =
        attest_new-announces frame session.sequence p.0 p.1 nonce m4 session' io' r4 in
      let rotation : KeyStore.rotate io.draws session.store ≡ ok (p.0, p.1) =
        ap (λ (r : Fallible (KeyStore × StoredKey) × Io P). r.0) e2 in
      (
        p.1,
        subst (λ s. KeyStore.rotate io.draws session.store ≡ ok (s, p.1)) same_store rotation,
        subst (λ s. Announced frame s p.1 io'.sent) same_store announced,
      )
