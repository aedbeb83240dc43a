-- ===== src/Runtime/Connected/Durable/Rotate.antt =====
-- A rotation of runtime/src/main.rs on the loader of loader/src/main.rs.
use tee_demo.Base.State.{◌>>=◌, ◌>>◌, continue, lift}
use tee_demo.Base.{ℕ, ◌+◌, ◌≡◌, ◌≢◌, refl, ◌∙◌, none, arith, Fallible, ok, err, panic}
use tee_demo.Base.Bytes.{Bytes, Text, to_le_bytes}
use tee_demo.Protocol.Frame.{Frame, keyring_name, attestation_name}
use tee_demo.Protocol.Platform.{Platform}
use tee_demo.KeyStore
use tee_demo.KeyStore.{KeyStore, StoredKey}
use tee_demo.KeyStore.Codec.{Fits}
use tee_demo.KeyStore.Fitting.{KeysFit, rotate-Fits}
use tee_demo.Sealing.RoundTrip.{SealSupport}
use tee_demo.Loader.Blobs.{Machine}
use tee_demo.Loader.Operations.Files.{Files}
use tee_demo.Runtime.Link.{Peer, Io, M, write_frame, or_now}
use tee_demo.Runtime.Attest.{persist_store, do_attestation_and_cache}
use tee_demo.Runtime.Connected.Durable.Gives.{Gives, Gives-bind, Gives-pure, GoesOn-continue}
use tee_demo.Runtime.Server.Rotation.{rotate_response, announce, attest_new}
use tee_demo.Runtime.Server.{Session, nonce_or, handle_rotate_request}
use tee_demo.Runtime.Connected.{World, Host, loader_peer}
use tee_demo.Runtime.Connected.Disk.{Writes}
use tee_demo.Runtime.Connected.Spares.{
  Spares, SparesFile, look-continue, Spares-bind, Spares-lift, Spares-pure, Spares-or_now,
  Spares-pathless, Spares-attested,
}
use tee_demo.Runtime.Connected.Persisting.{
  keyring-not_sealed, attestation-not_sealed, sealed_file, loader_peer-SparesFile,
  persist_store-Holds,
}
use tee_demo.Runtime.Connected.Restart.{Holds}
use tee_demo.Runtime.Connected.Durable.{Durable, Durable-same}

module _ {ℓ} {P : Type ℓ} ⦃plat : Platform⦄ ⦃net : Peer P⦄ (frame : Frame) (session : Session)
    (store : KeyStore) (key : StoredKey) where
  -- A rotation behind its persistence
  abbrev pub after_persist : M P Session
  after_persist = do
    nonce ← lift (nonce_or (to_le_bytes 8 key.version) frame.nonce)
    attest_new frame session.sequence store key nonce

  Gives-after_persist : Gives {P = P} store after_persist
  Gives-after_persist =
      Gives-bind store (lift (nonce_or (to_le_bytes 8 key.version) frame.nonce)) _ λ nonce.
        Gives-bind store (do_attestation_and_cache nonce store session.sequence) _ λ out.
          Gives-bind store (or_now out.0.attested_at) _ λ t.
            Gives-bind store (write_frame (record out.0 { id = none })) _ λ u.
              Gives-bind store
                (write_frame (rotate_response frame key (record out.0 { id = none }))) _
                λ w. Gives-pure (record { last_attested_at = t; store = store; sequence = out.1 })

  Spares-after_persist :
      {V : Type 0} {look : P → V} {n : Text} (spares : SparesFile n look net)
      → keyring_name ≢ n
      → attestation_name ≢ n
      → Spares look after_persist
  Spares-after_persist {look = look} spares keyring attestation =
      Spares-bind look (lift (nonce_or (to_le_bytes 8 key.version) frame.nonce)) _
        (Spares-lift look _)
        λ nonce.
          Spares-attested spares keyring attestation nonce store session.sequence
            (λ out. or_now out.0.attested_at >>= λ t. announce frame store key out.0 out.1 t)
            λ out pathless.
              Spares-bind look (or_now out.0.attested_at) _ (Spares-or_now look out.0.attested_at)
                λ t.
                  Spares-bind look (write_frame (record out.0 { id = none })) _
                    (Spares-pathless spares (record out.0 { id = none }) pathless)
                    λ u.
                      Spares-bind look
                        (write_frame (rotate_response frame key (record out.0 { id = none }))) _
                        (Spares-pathless spares
                          (rotate_response frame key (record out.0 { id = none })) refl)
                        λ w. Spares-pure look _

module _ {ℓ κ} {D : Type ℓ} {H : Type κ} ⦃plat : Platform⦄ ⦃machine : Machine D⦄
    (files : Files machine) (writes : Writes machine)
    (b64 : (b : Bytes) → plat.b64_decode (plat.b64_encode b) ≡ ok b) (support : SealSupport plat)
    (short : KeysFit plat) (host : Host H) where
  abbrev net : Peer (World D H)
  net = loader_peer ⦃machine = machine⦄ host

  -- A rotated store and what follows, by what `rotate` gave
  abbrev with_rotated : Frame → Session → KeyStore × StoredKey → M (World D H) Session
  with_rotated frame session (store, key) =
      persist_store ⦃net = net⦄ store >> after_persist ⦃net = net⦄ frame session store key

  persisted_held :
      (frame : Frame) (session : Session) (store : KeyStore) (key : StoredKey) (io : Io (World D H))
      → Fits store
      → Holds plat machine (with_rotated frame session (store, key) io).1.peer.disk store
  persisted_held frame session store key io fits =
      let (blob, stored, opens) = persist_store-Holds files writes b64 host store io support fits in
      let kept =
        look-continue (sealed_file machine) (persist_store ⦃net = net⦄ store io).0
          (persist_store ⦃net = net⦄ store io).1
          (λ u. after_persist ⦃net = net⦄ frame session store key)
          λ u.
            Spares-after_persist ⦃net = net⦄ frame session store key
              (loader_peer-SparesFile files host) keyring-not_sealed attestation-not_sealed in
      (blob, kept ∙ stored, opens)

  rotation_Durable :
      (frame : Frame) (session : Session) (draws : ℕ) (r : Fallible (KeyStore × StoredKey))
      (io : Io (World D H))
      → KeyStore.rotate draws session.store ≡ r
      → Fits session.store
      → Holds plat machine io.peer.disk session.store
      → Durable machine 1 session.store (continue (r, io) (with_rotated frame session))
  rotation_Durable frame session draws (ok (store, key)) io e fits held =
      let fits' = rotate-Fits draws session.store store key short fits e in
      record {
        rotations = 1;
        at_most = omega arith;
        store = store;
        rotated = (draws, store, key, e, refl);
        fits = fits';
        held = persisted_held frame session store key io fits';
        goes_on =
            GoesOn-continue store (persist_store ⦃net = net⦄ store io).0
              (persist_store ⦃net = net⦄ store io).1
              (λ u. after_persist ⦃net = net⦄ frame session store key)
              λ u. Gives-after_persist ⦃net = net⦄ frame session store key;
      }
  rotation_Durable frame session draws (err x) io e fits held =
      Durable-same machine 1 session.store (err x, io) fits held tt
  rotation_Durable frame session draws panic io e fits held =
      Durable-same machine 1 session.store (panic, io) fits held tt

  -- A rotation, however it ends: the store on the disk is the rotated one, or the old one if no key
  -- was made.
  pub handle_rotate_request-Durable :
      (frame : Frame) (session : Session) (io : Io (World D H))
      → Fits session.store
      → Holds plat machine io.peer.disk session.store
      → Durable machine 1 session.store (handle_rotate_request ⦃net = net⦄ frame session io)
  unfolding handle_rotate_request
  handle_rotate_request-Durable frame session io fits held =
      rotation_Durable frame session io.draws (KeyStore.rotate io.draws session.store)
        (record io { draws = io.draws + 1 }) refl fits held
