-- ===== src/Runtime/Server/Secrecy.antt =====
-- What runtime/src/main.rs shows of its key store when it answers for it: the public half only.
use tee_demo.Base.State.{continue, ◌>>=◌, ◌>>◌, lift, pure}
use mathlib.Core.Option
use tee_demo.Base.{
  ℕ, ◌≡◌, refl, true, Option, none, some, List, [], ◌∷◌, map, ◌==◌, find, inl, inr, Bool-cases,
  Fallible, ok, err, panic, ok_or,
}
use tee_demo.Base.Bytes.{Bytes, text}
use tee_demo.Protocol.Frame
use tee_demo.Protocol.Frame.{Frame, op_host_ready}
use tee_demo.Protocol.Platform.{Platform}
use tee_demo.Protocol.Binding.{report_data_binding}
use tee_demo.KeyStore.{KeyStore, StoredKey, current, keyring_json}
use tee_demo.Runtime.Link.{Peer, Io, M, write_frame, or_now, now_secs}
use tee_demo.Runtime.LoaderCalls.{loader_init_quote, loader_get_quote}
use tee_demo.Runtime.Attest.{
  attestation_frame, do_attestation, do_attestation_and_cache, send_ready, maybe_stale_attest,
}
use tee_demo.Runtime.Server.{Session, nonce_or, handle_attestation_request}

-- The key pair, and the store, without their private keys
abbrev pub public_half : StoredKey → StoredKey
public_half key = record key { private_key = [] }

abbrev pub without_secrets : KeyStore → KeyStore
without_secrets store = record store { keys = map public_half store.keys }

-- What others see of a call: how it ended, and what it did to the stream
abbrev ended : {A : Type 0} → Fallible A → Fallible (Unit {0})
ended (ok a) = ok tt
ended (err e) = err e
ended panic = panic

abbrev pub seen {ℓ} : {S : Type ℓ} {A : Type 0} → Fallible A × S → Fallible (Unit {0}) × S
seen (r, s) = (ended r, s)

find-public_half :
    (v : ℕ) (keys : List StoredKey)
    → find (λ k. k.version == v) (map public_half keys)
      ≡ Option.map public_half (find (λ k. k.version == v) keys)
unfolding find
find-public_half v [] = refl
find-public_half v (k ∷ keys) = elim (Bool-cases (k.version == v)) [
  | inl e ↦ rw e refl
  | inr e ↦ rw e (find-public_half v keys)
]

current-without_secrets :
    (store : KeyStore) → current (without_secrets store) ≡ Option.map public_half (current store)
unfolding current
current-without_secrets store = find-public_half store.current_version store.keys

map-public_half :
    {A : Type 0} (f : StoredKey → A)
    → ((k : StoredKey) → f (public_half k) ≡ f k)
    → (keys : List StoredKey) → map f (map public_half keys) ≡ map f keys
map-public_half f h [] = refl
map-public_half f h (k ∷ keys) = λ i. h k i ∷ map-public_half f h keys i

module _ ⦃plat : Platform⦄ where
  keyring_json-without_secrets :
      (store : KeyStore) → keyring_json (without_secrets store) ≡ keyring_json store
  unfolding keyring_json
  keyring_json-without_secrets store = rw (map-public_half _ (λ k. refl) store.keys) refl

module _ {ℓ} {P : Type ℓ} ⦃plat : Platform⦄ ⦃net : Peer P⦄ where
  -- `do_attestation` behind the look for the key
  abbrev attest_key : Bytes → StoredKey → M P Frame
  attest_key nonce key = do
    (att_key_id, target_info_bytes) ← loader_init_quote
    target_info ←
        lift (ok_or (text "invalid target_info") (plat.targetinfo_try_copy_from target_info_bytes))
    let report_data = report_data_binding key.version key.public_key nonce
    let report = plat.report_for_target target_info report_data
    quote ← loader_get_quote att_key_id report
    attested_at ← now_secs
    pure (attestation_frame key nonce quote attested_at)

  attest_found :
      (nonce : Bytes) (found : Option StoredKey)
      → (lift (ok_or (text "empty KeyStore") (Option.map public_half found)) >>= attest_key nonce)
        ≡ (lift (ok_or (text "empty KeyStore") found) >>= attest_key nonce)
  attest_found nonce none = refl
  attest_found nonce (some key) = refl

  do_attestation-without_secrets :
      (nonce : Bytes) (store : KeyStore)
      → do_attestation {P = P} nonce (without_secrets store) ≡ do_attestation nonce store
  unfolding do_attestation
  do_attestation-without_secrets nonce store =
      rw (current-without_secrets store) (attest_found nonce (current store))

  cached-without_secrets :
      (nonce : Bytes) (store : KeyStore) (k : ℕ)
      → do_attestation_and_cache {P = P} nonce (without_secrets store) k
        ≡ do_attestation_and_cache nonce store k
  unfolding do_attestation_and_cache
  cached-without_secrets nonce store k =
      rw (do_attestation-without_secrets nonce store, keyring_json-without_secrets store) refl

  ready_without_secrets :
      (store : KeyStore) → send_ready {P = P} (without_secrets store) ≡ send_ready store
  unfolding send_ready
  ready_without_secrets store = rw (current-without_secrets store) (ready_found (current store))
    where
      ready_found :
          (found : Option StoredKey)
          → write_frame {P = P} (record (Frame.new op_host_ready) {
            ok = some true;
            key_version = some store.current_version;
            public_key = elim (Option.map public_half found) [
              | some key ↦ some (plat.b64_encode key.public_key)
              | none ↦ none
            ];
          })
            ≡ write_frame (record (Frame.new op_host_ready) {
              ok = some true;
              key_version = some store.current_version;
              public_key = elim found [
                | some key ↦ some (plat.b64_encode key.public_key)
                | none ↦ none
              ];
            })
      ready_found none = refl
      ready_found (some key) = refl

  stale_without_secrets :
      (t : ℕ) (store : KeyStore) (k : ℕ)
      → maybe_stale_attest {P = P} t (without_secrets store) k ≡ maybe_stale_attest t store k
  unfolding maybe_stale_attest
  stale_without_secrets t store k =
      rw (cached-without_secrets (text "stale-auto-attest-nonce") store k) refl

module _ {ℓ} {P : Type ℓ} {A B : Type 0} where
  seen-continue :
      (r : Fallible A) (io : Io P) (f g : A → M P B)
      → ((a : A) (m : Io P) → seen (f a m) ≡ seen (g a m))
      → seen (continue (r, io) f) ≡ seen (continue (r, io) g)
  seen-continue (ok a) io f g h = h a io
  seen-continue (err e) io f g h = refl
  seen-continue panic io f g h = refl

module _ {ℓ} {P : Type ℓ} ⦃plat : Platform⦄ ⦃net : Peer P⦄ where
  -- An attestation request behind its attestation
  abbrev attested_rest : Frame → Session → Frame × ℕ → M P Session
  attested_rest frame session (out, sequence') = do
    attested_at ← or_now out.attested_at
    write_frame (record out { id = frame.id })
    pure (record session { last_attested_at = attested_at; sequence = sequence' })

  rest_seen :
      (frame : Frame) (session : Session) (store : KeyStore) (out : Frame × ℕ) (io : Io P)
      → seen (attested_rest frame (record session { store = store }) out io)
        ≡ seen (attested_rest frame session out io)
  rest_seen frame session store (out, k) io =
      seen-continue (or_now out.attested_at io).0 (or_now out.attested_at io).1
        (λ t.
          write_frame (record out { id = frame.id })
          >> pure (record session { last_attested_at = t; store = store; sequence = k }))
        (λ t.
          write_frame (record out { id = frame.id })
          >> pure (record session { last_attested_at = t; sequence = k }))
        λ t m.
          seen-continue (write_frame (record out { id = frame.id }) m).0
            (write_frame (record out { id = frame.id }) m).1
            (λ u. pure (record session { last_attested_at = t; store = store; sequence = k }))
            (λ u. pure (record session { last_attested_at = t; sequence = k })) λ u n. refl

  -- Outside a computation, a rotation and the sealed blob, nothing of the private keys is seen. With
  -- a store whose private keys are erased, an attestation request ends in the same way with the
  -- same stream, so that every frame is the same; an attestation of the runtime's own and the ready
  -- frame are the same actions, and so is the public key ring the same text.
  pub handle_attestation_request-no_secrets :
      (frame : Frame) (session : Session) (t k : ℕ) (io : Io P)
      → (seen (
            handle_attestation_request frame
              (record session { store = without_secrets session.store })
              io)
          ≡ seen (handle_attestation_request frame session io))
        × (maybe_stale_attest {P = P} t (without_secrets session.store) k
            ≡ maybe_stale_attest t session.store k)
        × (send_ready {P = P} (without_secrets session.store) ≡ send_ready session.store)
        × (keyring_json (without_secrets session.store) ≡ keyring_json session.store)
  unfolding handle_attestation_request
  handle_attestation_request-no_secrets frame session t k io =
      let r = nonce_or (text "pr3c-default-nonce") frame.nonce in
      (
        seen-continue r io
            (λ nonce.
              do_attestation_and_cache nonce (without_secrets session.store) session.sequence
              >>= attested_rest frame (record session { store = without_secrets session.store }))
            (λ nonce.
              do_attestation_and_cache nonce session.store session.sequence
              >>= attested_rest frame session)
            λ nonce m. rw (cached-without_secrets nonce session.store session.sequence) (
              seen-continue (do_attestation_and_cache nonce session.store session.sequence m).0
                (do_attestation_and_cache nonce session.store session.sequence m).1
                (attested_rest frame (record session { store = without_secrets session.store }))
                (attested_rest frame session)
                (rest_seen frame session (without_secrets session.store))),
        stale_without_secrets t session.store k,
        ready_without_secrets session.store,
        keyring_json-without_secrets session.store,
      )
