-- ===== src/Runtime/Connected/Durable/Loop.antt =====
-- The loop of runtime/src/main.rs keeps its store on the disk, and a restart comes back to it.
use tee_demo.Base.State.{◌>>=◌, ◌>>◌, continue, pure}
use mathlib.Core.Path.{subst}
use tee_demo.Base.{
  ◌<◌, ◌^◌, inl, inr, Bool-cases, ℕ, zero, suc, ◌+◌, ◌≤◌, ◌≡◌, refl, ◌∙◌, arith, same, Fallible, ok,
  err, panic,
}
use tee_demo.Base.Bytes.{Bytes}
use tee_demo.Protocol.Frame.{
  Frame, op_runtime_attestation_request, op_runtime_compute_request, op_runtime_rotate_request,
}
use tee_demo.Protocol.Platform.{Platform}
use tee_demo.KeyStore.{KeyStore}
use tee_demo.KeyStore.Codec.{Fits}
use tee_demo.KeyStore.Retention.{IsValid}
use tee_demo.Runtime.Connected.Durable.Rotate.{handle_rotate_request-Durable}
use tee_demo.KeyStore.Fitting.{KeysFit}
use tee_demo.Sealing.RoundTrip.{SealSupport}
use tee_demo.Loader.Blobs.{Machine}
use tee_demo.Loader.Operations.Files.{Files}
use tee_demo.Runtime.Link.{Peer, Io, M, write_frame, read_frame}
use tee_demo.Runtime.Attest.{bootstrap_store}
use tee_demo.Runtime.Connected.Durable.Gives.{
  Gives, Gives-bind, Gives-pure, Gives-handle_attestation_request, Gives-handle_compute_request,
}
use tee_demo.Runtime.Server.{
  Session, unsupported, handle_attestation_request, handle_compute_request, serve, serve_loop,
}
use tee_demo.Runtime.Connected.{World, Host, silent, loader_peer, boot}
use tee_demo.Runtime.Connected.Disk.{Writes}
use tee_demo.Runtime.Connected.Spares.{
  Spares, Spares-bind, Spares-pure, Spares-pathless, Spares-read_frame,
}
use tee_demo.Runtime.Connected.Requests.{
  Spares-handle_attestation_request, Spares-handle_compute_request,
}
use tee_demo.Runtime.Connected.Persisting.{
  keyring-not_sealed, attestation-not_sealed, sealed_file, loader_peer-SparesFile,
}
use tee_demo.Runtime.Connected.Restart.{Holds, boot-restores}
use tee_demo.Runtime.Connected.Durable.{
  Rotations, Rotations-IsValid, GoesOn, Durable, Durable-continue, Durable-same,
}

module _ {ℓ κ} {D : Type ℓ} {H : Type κ} ⦃plat : Platform⦄ ⦃machine : Machine D⦄
    (files : Files machine) (host : Host H) where
  abbrev net : Peer (World D H)
  net = loader_peer ⦃machine = machine⦄ host

  -- An action that leaves the file and the store
  Durable-spared :
      (session : Session) (m : M (World D H) Session) (io : Io (World D H))
      → Fits session.store
      → Holds plat machine io.peer.disk session.store
      → Spares (sealed_file machine) m
      → Gives session.store m
      → Durable machine 1 session.store (m io)
  Durable-spared session m io fits (blob, stored, opens) spares gives =
      Durable-same machine 1 session.store (m io) fits (blob, spares.at io ∙ stored, opens)
        (gives.at io)

  abbrev refuse : Frame → Session → M (World D H) Session
  refuse frame session = write_frame ⦃net = net⦄ (unsupported frame) >> pure session

  Durable-refuse :
      (frame : Frame) (session : Session) (io : Io (World D H))
      → Fits session.store
      → Holds plat machine io.peer.disk session.store
      → Durable machine 1 session.store (refuse frame session io)
  Durable-refuse frame session io fits held =
      Durable-spared session (refuse frame session) io fits held
        (Spares-bind (sealed_file machine) (write_frame ⦃net = net⦄ (unsupported frame)) _
          (Spares-pathless ⦃net = net⦄ (loader_peer-SparesFile files host) (unsupported frame) refl)
          λ u. Spares-pure (sealed_file machine) session)
        (Gives-bind session.store (write_frame ⦃net = net⦄ (unsupported frame)) _
          λ u. Gives-pure session)

  module _ (writes : Writes machine)
      (b64 : (b : Bytes) → plat.b64_decode (plat.b64_encode b) ≡ ok b) (support : SealSupport plat)
      (short : KeysFit plat) where
    serve-Durable :
        (frame : Frame) (session : Session) (io : Io (World D H))
        → Fits session.store
        → Holds plat machine io.peer.disk session.store
        → Durable machine 1 session.store (serve ⦃net = net⦄ frame session io)
    unfolding serve
    serve-Durable frame session io fits held =
        let spares = loader_peer-SparesFile files host in
        elim (Bool-cases (same frame.op op_runtime_attestation_request)) [
          | inl a ↦ rw a (
              Durable-spared session (handle_attestation_request ⦃net = net⦄ frame session) io fits
                held
                (Spares-handle_attestation_request ⦃net = net⦄ spares keyring-not_sealed
                  attestation-not_sealed frame session)
                (Gives-handle_attestation_request ⦃net = net⦄ frame session))
          | inr na ↦ elim (Bool-cases (same frame.op op_runtime_compute_request)) [
            | inl c ↦
                rw (na, c)
                  (Durable-spared session (handle_compute_request ⦃net = net⦄ frame session) io fits
                    held
                    (Spares-handle_compute_request ⦃net = net⦄ spares keyring-not_sealed
                      attestation-not_sealed frame session)
                    (Gives-handle_compute_request ⦃net = net⦄ frame session))
            | inr nc ↦ elim (Bool-cases (same frame.op op_runtime_rotate_request)) [
              | inl r ↦
                  rw (na, nc, r)
                    (handle_rotate_request-Durable files writes b64 support short host frame session
                      io fits held)
              | inr nr ↦ rw (na, nc, nr) (Durable-refuse frame session io fits held)
            ]
          ]
        ]

    -- A round: what was read, its handler, and the rest of the loop
    round_Durable :
        (r : Fallible Frame) (n : ℕ) (session : Session) (io : Io (World D H))
        → Fits session.store
        → Holds plat machine io.peer.disk session.store
        → ((s : Session) (after : Io (World D H))
            → Fits s.store
            → Holds plat machine after.peer.disk s.store
            → Durable machine n s.store (serve_loop ⦃net = net⦄ n s after))
        → Durable machine (1 + n) session.store (
            continue
              (r, io)
              (λ frame. serve ⦃net = net⦄ frame session >>= serve_loop ⦃net = net⦄ n))
    round_Durable (ok frame) n session io fits held rest =
        Durable-continue machine 1 n session.store (serve ⦃net = net⦄ frame session io).0
          (serve ⦃net = net⦄ frame session io).1 (serve_loop ⦃net = net⦄ n)
          (serve-Durable frame session io fits held)
          λ s fits' held'. rest s (serve ⦃net = net⦄ frame session io).1 fits' held'
    round_Durable (err e) n session io fits held rest =
        Durable-same machine (1 + n) session.store (err e, io) fits held tt
    round_Durable panic n session io fits held rest =
        Durable-same machine (1 + n) session.store (panic, io) fits held tt

    pub serve_loop-Durable :
        (rounds : ℕ) (session : Session) (io : Io (World D H))
        → Fits session.store
        → Holds plat machine io.peer.disk session.store
        → Durable machine rounds session.store (serve_loop ⦃net = net⦄ rounds session io)
    unfolding serve_loop
    serve_loop-Durable zero session io fits held =
        Durable-same machine 0 session.store (ok session, io) fits held refl
    serve_loop-Durable (suc n) session io fits held =
        let one_more : 1 + n ≡ suc n = omega arith in
        subst (λ k. Durable machine k session.store (serve_loop ⦃net = net⦄ (suc n) session io))
          one_more
          (round_Durable (read_frame io).0 n session (read_frame io).1 fits
            (held.0, (Spares-read_frame (sealed_file machine)).at io ∙ held.1, held.2)
            λ s after fits' held'. serve_loop-Durable n s after fits' held')

    -- Whatever frames the host sends and in whatever order, and however the loop ends, by an error
    -- or a panic in the middle of a rotation too: a runtime that is started again on the loader's
    -- disk succeeds, with a store that at most `rounds` rotations made of the session's, which is
    -- the store of the session if one goes on, is valid, and has a version that is higher by the
    -- number of rotations. It holds for a store that fits its encoding, is valid, is on the disk
    -- and has room for `rounds` more versions, on a disk that takes every write and changes no
    -- other file, if sealing and base64 do what they document and key pairs fit the encoding.
    pub serve_loop-restarts :
        (rounds : ℕ) (session : Session) (io : Io (World D H)) (seq readings draws : ℕ)
        → Fits session.store
        → IsValid session.store
        → session.store.current_version + rounds < 2 ^ 64
        → Holds plat machine io.peer.disk session.store
        → (store : KeyStore) × (n : ℕ) × (after : Io (World D (Unit {0}))) × (bootstrap_store
              ⦃net = loader_peer ⦃machine = machine⦄ silent⦄
              (boot (serve_loop ⦃net = net⦄ rounds session io).1.peer.disk seq readings draws)
            ≡ (ok store, after))
          × GoesOn (serve_loop ⦃net = net⦄ rounds session io).0 store
          × (n ≤ rounds)
          × Rotations n session.store store
          × IsValid store
          × (store.current_version ≡ session.store.current_version + n)
    serve_loop-restarts rounds session io seq readings draws fits valid room held =
        let d = serve_loop-Durable rounds session io fits held in
        let (after, restarted, same_draws) =
          boot-restores files writes b64 d.store
            (serve_loop ⦃net = net⦄ rounds session io).1.peer.disk seq readings draws d.held in
        let (valid', version) =
          Rotations-IsValid d.rotations session.store d.store d.rotated valid
            (omega (arith, d.at_most)) in
        (d.store, d.rotations, after, restarted, d.goes_on, d.at_most, d.rotated, valid', version)
