-- ===== src/Runtime/Server/NoPanic.antt =====
-- No frame of the host or of the loader makes the loop of runtime/src/main.rs panic.
use tee_demo.Base.State.{lift}
use tee_demo.Base.{
  ℕ, zero, suc, ◌+◌, ◌-◌, ◌%◌, ◌^◌, ◌≡◌, refl, ◌||◌, ◌==◌, ltb, Option, none, some, List, [], ◌∷◌,
  ◌++◌, inl, inr, Bool-cases, same, length, last, last-append, Returns,
}
use tee_demo.Base.Bytes.{Bytes, Text, text, to_le_bytes}
use tee_demo.Protocol.Frame.{
  Frame, op_runtime_attestation_request, op_runtime_compute_request, op_runtime_rotate_request,
}
use tee_demo.Protocol.Platform.{Platform}
use tee_demo.Protocol.Aead.{generate_keypair}
use tee_demo.KeyStore.{KeyStore, StoredKey, retention, evict, rotate}
use tee_demo.Sealing.Safety.{SealingReturns}
use tee_demo.Runtime.Link.{Peer, Io, read_frame, write_frame, draw, or_now, now_secs}
use tee_demo.Runtime.Link.Steady.{
  StreamReturns, Calm, Steady, Steady-bind, Steady-if, Steady-lift, Steady-pure, Steady-draw,
  Steady-or_now, Steady-now_secs, Steady-read_frame, Steady-write_frame,
}
use tee_demo.Runtime.Attest.{
  stale_threshold_secs, persist_store, do_attestation_and_cache, maybe_stale_attest,
  bootstrap_store,
}
use tee_demo.Runtime.Attest.Total.{
  Steady-do_attestation_and_cache, Steady-persist_store, Steady-bootstrap_store,
}
use tee_demo.Runtime.Server.{
  Session, nonce_or, compute_reply, unsupported, handle_attestation_request, handle_compute_request,
  handle_rotate_request, serve, serve_loop, run_loop,
}
use tee_demo.Runtime.Server.Rotation.{rotate_response, announce}
use tee_demo.Runtime.Server.Total.{CratesReturn, compute_reply-total}

-- A key that is put at the end is the last when the list is cut to the newest.
last-evict : (keys : List StoredKey) (k : StoredKey) → last (evict (keys ++ k ∷ [])) ≡ some k
unfolding evict last
last-evict [] k = refl
last-evict (j ∷ keys) k = elim (Bool-cases (ltb retention (length (j ∷ (keys ++ k ∷ []))))) [
  | inl e ↦ rw e (last-evict keys k)
  | inr e ↦ rw e (last-append (j ∷ keys) k)
]

module _ ⦃plat : Platform⦄ where
  rotate-Returns : (draw : ℕ) (store : KeyStore) → Returns (rotate draw store)
  unfolding rotate generate_keypair
  rotate-Returns draw store =
      let version = (store.current_version + 1) % 2 ^ 64 in
      let key : StoredKey = record {
        version = version;
        public_key = (plat.gen_keypair draw).0;
        private_key = (plat.gen_keypair draw).1;
      } in
      rw (last-evict store.keys key) tt

  nonce_or-Returns :
      (d : Bytes) (nonce : Option Text)
      → ((t : Text) → Returns (plat.b64_decode t))
      → Returns (nonce_or d nonce)
  nonce_or-Returns d none decodes = tt
  nonce_or-Returns d (some n) decodes = decodes n

  compute_reply-Returns :
      (store : KeyStore) (frame : Frame) → CratesReturn → Returns (compute_reply store frame)
  compute_reply-Returns store frame crates =
      let (reply, e, id, op) = compute_reply-total store frame crates in rw e tt

module _ {ℓ} {P : Type ℓ} ⦃plat : Platform⦄ ⦃net : Peer P⦄ (stream : StreamReturns net)
    (crates : CratesReturn) (sealing : SealingReturns plat) where
  Steady-attested :
      (nonce : Bytes) (store : KeyStore) (k : ℕ)
      → Steady {P = P} (do_attestation_and_cache nonce store k)
  Steady-attested = Steady-do_attestation_and_cache stream crates.decodes

  Steady-nonce : (d : Bytes) (nonce : Option Text) → Steady {P = P} (lift (nonce_or d nonce))
  Steady-nonce d nonce = Steady-lift (nonce_or d nonce) (nonce_or-Returns d nonce crates.decodes)

  Steady-maybe_stale_attest :
      (t : ℕ) (store : KeyStore) (k : ℕ) → Steady {P = P} (maybe_stale_attest t store k)
  unfolding maybe_stale_attest
  Steady-maybe_stale_attest t store k = Steady-bind now_secs _ Steady-now_secs λ now.
      Steady-if (t == 0 || ltb stale_threshold_secs (now - t)) _ _
        (Steady-bind (do_attestation_and_cache (text "stale-auto-attest-nonce") store k) _
          (Steady-attested (text "stale-auto-attest-nonce") store k)
          λ out.
            Steady-bind (write_frame (record out.0 { id = none })) _
              (Steady-write_frame stream (record out.0 { id = none }))
              λ u.
                Steady-bind (or_now out.0.attested_at) _ (Steady-or_now out.0.attested_at)
                  λ at. Steady-pure (at, out.1))
        (Steady-pure (t, k))

  Steady-handle_attestation_request :
      (frame : Frame) (session : Session)
      → Steady {P = P} (handle_attestation_request frame session)
  unfolding handle_attestation_request
  Steady-handle_attestation_request frame session =
      Steady-bind (lift (nonce_or (text "pr3c-default-nonce") frame.nonce)) _
        (Steady-nonce (text "pr3c-default-nonce") frame.nonce)
        λ nonce.
          Steady-bind (do_attestation_and_cache nonce session.store session.sequence) _
            (Steady-attested nonce session.store session.sequence)
            λ out. Steady-bind (or_now out.0.attested_at) _ (Steady-or_now out.0.attested_at) λ at.
              Steady-bind (write_frame (record out.0 { id = frame.id })) _
                (Steady-write_frame stream (record out.0 { id = frame.id }))
                λ u. Steady-pure (record session { last_attested_at = at; sequence = out.1 })

  Steady-handle_compute_request :
      (frame : Frame) (session : Session) → Steady {P = P} (handle_compute_request frame session)
  unfolding handle_compute_request
  Steady-handle_compute_request frame session =
      Steady-bind (maybe_stale_attest session.last_attested_at session.store session.sequence) _
        (Steady-maybe_stale_attest session.last_attested_at session.store session.sequence)
        λ m.
          Steady-bind (lift (compute_reply session.store frame)) _
            (Steady-lift (compute_reply session.store frame)
              (compute_reply-Returns session.store frame crates))
            λ resp.
              Steady-bind (write_frame resp) _ (Steady-write_frame stream resp)
                λ u. Steady-pure (record session { last_attested_at = m.0; sequence = m.1 })

  Steady-announce :
      (frame : Frame) (store : KeyStore) (key : StoredKey) (out : Frame) (k t : ℕ)
      → Steady {P = P} (announce frame store key out k t)
  Steady-announce frame store key out k t =
      Steady-bind (write_frame (record out { id = none })) _
        (Steady-write_frame stream (record out { id = none }))
        λ u.
          Steady-bind (write_frame (rotate_response frame key (record out { id = none }))) _
            (Steady-write_frame stream (rotate_response frame key (record out { id = none })))
            λ w. Steady-pure (record { last_attested_at = t; store = store; sequence = k })

  Steady-handle_rotate_request :
      (frame : Frame) (session : Session) → Steady {P = P} (handle_rotate_request frame session)
  unfolding handle_rotate_request
  Steady-handle_rotate_request frame session = Steady-bind draw _ Steady-draw λ d.
      Steady-bind (lift (rotate d session.store)) _
        (Steady-lift (rotate d session.store) (rotate-Returns d session.store))
        λ new.
          Steady-bind (persist_store new.0) _
            (Steady-persist_store stream crates.decodes sealing new.0)
            λ u.
              Steady-bind (lift (nonce_or (to_le_bytes 8 new.1.version) frame.nonce)) _
                (Steady-nonce (to_le_bytes 8 new.1.version) frame.nonce)
                λ nonce.
                  Steady-bind (do_attestation_and_cache nonce new.0 session.sequence) _
                    (Steady-attested nonce new.0 session.sequence)
                    λ out.
                      Steady-bind (or_now out.0.attested_at) _ (Steady-or_now out.0.attested_at)
                        λ at. Steady-announce frame new.0 new.1 out.0 out.1 at

  Steady-serve : (frame : Frame) (session : Session) → Steady {P = P} (serve frame session)
  unfolding serve
  Steady-serve frame session =
      Steady-if (same frame.op op_runtime_attestation_request) _ _
        (Steady-handle_attestation_request frame session)
        (Steady-if (same frame.op op_runtime_compute_request) _ _
          (Steady-handle_compute_request frame session)
          (Steady-if (same frame.op op_runtime_rotate_request) _ _
            (Steady-handle_rotate_request frame session)
            (Steady-bind (write_frame (unsupported frame)) _
              (Steady-write_frame stream (unsupported frame)) λ u. Steady-pure session)))

  Steady-serve_loop : (rounds : ℕ) (session : Session) → Steady {P = P} (serve_loop rounds session)
  unfolding serve_loop
  Steady-serve_loop zero session = Steady-pure session
  Steady-serve_loop (suc n) session = Steady-bind read_frame _ Steady-read_frame λ frame.
      Steady-bind (serve frame session) _ (Steady-serve frame session)
        λ session'. Steady-serve_loop n session'

  -- From its start on, and for any number of rounds, the runtime does not panic, whatever the
  -- loader answers, whatever frames the host sends and whatever blob it is given as its sealed keys:
  -- it serves on or ends with an error. The socket and the calls of the crates are assumed not to
  -- panic; additions of machine integers wrap, as in a release build.
  pub run_loop-Returns : (rounds : ℕ) (io : Io P) → Calm io.inbox → Returns (run_loop rounds io).0
  unfolding run_loop
  run_loop-Returns rounds io calm =
      let loop =
        Steady-bind bootstrap_store
          (λ store.
            serve_loop rounds (record { last_attested_at = 0; store = store; sequence = 0 }))
          (Steady-bootstrap_store stream crates.decodes sealing)
          λ store.
            Steady-serve_loop rounds
              (record { last_attested_at = 0; store = store; sequence = 0 }) in
      (loop.at io calm).0
