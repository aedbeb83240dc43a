-- ===== src/Runtime/Connected/Durable/Gives.antt =====
-- Actions of runtime/src/main.rs that go on with a known store.
use tee_demo.Base.State.{◌>>=◌, continue, lift, pure}
use tee_demo.Base.{refl, Fallible, ok, err, panic}
use tee_demo.Base.Bytes.{text}
use tee_demo.Protocol.Frame.{Frame}
use tee_demo.Protocol.Platform.{Platform}
use tee_demo.KeyStore.{KeyStore}
use tee_demo.Runtime.Link.{Peer, Io, M, write_frame, or_now}
use tee_demo.Runtime.Attest.{do_attestation_and_cache}
use tee_demo.Runtime.Server.{
  Session, nonce_or, compute_reply, handle_attestation_request, handle_compute_request,
}
use tee_demo.Runtime.Connected.Durable.{GoesOn}

-- If `m` returns a session, the session has this store.
pub record Gives {ℓ} {P : Type ℓ} (store : KeyStore) (m : M P Session) : Type ℓ where
  pub at : (io : Io P) → GoesOn (m io).0 store

module _ {ℓ} {P : Type ℓ} {A : Type 0} where
  pub GoesOn-continue :
      (store : KeyStore) (r : Fallible A) (io : Io P) (f : A → M P Session)
      → ((a : A) → Gives store (f a))
      → GoesOn (continue (r, io) f).0 store
  GoesOn-continue store (ok a) io f h = (h a).at io
  GoesOn-continue store (err e) io f h = tt
  GoesOn-continue store panic io f h = tt

  pub Gives-bind :
      (store : KeyStore) (m : M P A) (f : A → M P Session)
      → ((a : A) → Gives store (f a))
      → Gives store (m >>= f)
  Gives-bind store m f h = record { at = λ io. GoesOn-continue store (m io).0 (m io).1 f h }

module _ {ℓ} {P : Type ℓ} where
  pub Gives-pure : (session : Session) → Gives {P = P} session.store (pure session)
  Gives-pure session = record { at = λ io. refl }

module _ {ℓ} {P : Type ℓ} ⦃plat : Platform⦄ ⦃net : Peer P⦄ where
  pub Gives-handle_attestation_request :
      (frame : Frame) (session : Session)
      → Gives {P = P} session.store (handle_attestation_request frame session)
  unfolding handle_attestation_request
  Gives-handle_attestation_request frame session =
      Gives-bind session.store (lift (nonce_or (text "pr3c-default-nonce") frame.nonce)) _ λ nonce.
        Gives-bind session.store (do_attestation_and_cache nonce session.store session.sequence) _
          λ out. Gives-bind session.store (or_now out.0.attested_at) _ λ t.
            Gives-bind session.store (write_frame (record out.0 { id = frame.id })) _
              λ u. Gives-pure (record session { last_attested_at = t; sequence = out.1 })

  pub Gives-handle_compute_request :
      (frame : Frame) (session : Session)
      → Gives {P = P} session.store (handle_compute_request frame session)
  unfolding handle_compute_request
  Gives-handle_compute_request frame session = Gives-bind session.store _ _ λ m.
      Gives-bind session.store (lift (compute_reply session.store frame)) _ λ resp.
        Gives-bind session.store (write_frame resp) _
          λ u. Gives-pure (record session { last_attested_at = m.0; sequence = m.1 })
