-- ===== src/Runtime/Attest.antt =====
-- Quotes and persistence in runtime/src/main.rs.
pub mod Bound
pub mod Responds
pub mod Persists
pub mod Restores
pub mod Total
use tee_demo.Base.State.{◌>>=◌, ◌>>◌, pure, lift}
use tee_demo.Base.{
  ℕ, ◌+◌, ◌-◌, Bool, true, ◌||◌, Option, none, some, List, [], ◌∷◌, ltb, ◌==◌, if◌then◌else◌,
  Outcome, Fallible, ok, err, panic, ok_or, unwrap_or,
}
use tee_demo.Base.Bytes.{Bytes, Text, text}
use tee_demo.Protocol.Frame
use tee_demo.Protocol.Frame.{
  Frame, op_host_ready, op_host_attestation_response, sealed_keys_name, keyring_name,
  attestation_name,
}
use tee_demo.Protocol.Platform.{Platform}
use tee_demo.Protocol.Binding.{report_data_binding}
use tee_demo.Protocol.Cache.{attestation_cache_json, saturating_add}
use tee_demo.KeyStore
use tee_demo.KeyStore.{KeyStore, StoredKey, current, keyring_json}
use tee_demo.Sealing.{seal, unseal}
use tee_demo.Runtime.Link.{Peer, M, write_frame, draw, now_secs, or_now}
use tee_demo.Runtime.LoaderCalls.{
  loader_init_quote, loader_get_quote, loader_read_blob, loader_write_blob,
}

abbrev pub stale_threshold_secs : ℕ
stale_threshold_secs = 5400

module _ ⦃plat : Platform⦄ where
  -- The response that `do_attestation` builds
  abbrev pub attestation_frame : StoredKey → Bytes → Bytes → ℕ → Frame
  attestation_frame key nonce quote attested_at =
      let report_data = report_data_binding key.version key.public_key nonce in
      record (Frame.new op_host_attestation_response) {
        ok = some true;
        attested_at = some attested_at;
        key_version = some key.version;
        public_key = some (plat.b64_encode key.public_key);
        quote = some (plat.b64_encode quote);
        binding_nonce = some (plat.b64_encode nonce);
        report_data = some (plat.b64_encode report_data);
      }

module _ {ℓ} {P : Type ℓ} ⦃plat : Platform⦄ ⦃net : Peer P⦄ where
  -- `seal` takes two draws of the generator.
  unfoldable pub persist_store : KeyStore → M P (Unit {0})
  persist_store store = do
    d ← draw
    d' ← draw
    sealed_bytes ← lift (seal d store)
    loader_write_blob sealed_keys_name sealed_bytes
    loader_write_blob keyring_name (keyring_json store)

  unfoldable pub write_attestation_cache : Frame → ℕ → M P (Unit {0})
  write_attestation_cache resp sequence = do
    quote ← lift (ok_or (text "missing quote for attestation cache") resp.quote)
    pk ← lift (ok_or (text "missing public_key for attestation cache") resp.public_key)
    generated_at ← or_now resp.attested_at
    loader_write_blob attestation_name (
        attestation_cache_json quote (unwrap_or 0 resp.key_version) pk resp.binding_nonce
          resp.report_data generated_at sequence)

  unfoldable pub do_attestation : Bytes → KeyStore → M P Frame
  do_attestation nonce store = do
    key ← lift (ok_or (text "empty KeyStore") (current store))
    (att_key_id, target_info_bytes) ← loader_init_quote
    target_info ←
        lift (ok_or (text "invalid target_info") (plat.targetinfo_try_copy_from target_info_bytes))
    let report_data = report_data_binding key.version key.public_key nonce
    let report = plat.report_for_target target_info report_data
    quote ← loader_get_quote att_key_id report
    attested_at ← now_secs
    pure (attestation_frame key nonce quote attested_at)

  -- The frame, and the counter `sequence`
  unfoldable pub do_attestation_and_cache : Bytes → KeyStore → ℕ → M P (Frame × ℕ)
  do_attestation_and_cache nonce store sequence = do
    out ← do_attestation nonce store
    let sequence' = saturating_add sequence 1
    write_attestation_cache out sequence'
    loader_write_blob keyring_name (keyring_json store)
    pure (out, sequence')

  unfoldable pub send_ready : KeyStore → M P (Unit {0})
  send_ready store = write_frame (record (Frame.new op_host_ready) {
    ok = some true;
    key_version = some store.current_version;
    public_key = elim (current store) [
      | some key ↦ some (plat.b64_encode key.public_key)
      | none ↦ none
    ];
  })

  -- A new store, persisted
  abbrev pub fresh_store : M P KeyStore
  fresh_store = do d ← draw; store ← lift (KeyStore.new d); persist_store store; pure store

  -- `match sealing::unseal(&blob)`
  abbrev pub restore : Fallible KeyStore → M P KeyStore
  restore (ok store) = do loader_write_blob keyring_name (keyring_json store); pure store
  restore (err e) = fresh_store
  restore panic = lift panic

  unfoldable pub bootstrap_store : M P KeyStore
  bootstrap_store = do
    found ← loader_read_blob sealed_keys_name
    store ← elim found [ some blob ↦ restore (unseal blob) | none ↦ fresh_store ]
    send_ready store
    pure store

  -- The new `last_attested_at` and `sequence`
  unfoldable pub maybe_stale_attest : ℕ → KeyStore → ℕ → M P (ℕ × ℕ)
  maybe_stale_attest last_attested_at store sequence = do
    now ← now_secs
    let elapsed = now - last_attested_at
    if last_attested_at == 0 || ltb stale_threshold_secs elapsed
        then (do
          (out, sequence') ←
              do_attestation_and_cache (text "stale-auto-attest-nonce") store sequence
          let resp : Frame = record out { id = none }
          write_frame resp
          attested_at ← or_now resp.attested_at
          pure (attested_at, sequence'))
        else pure (last_attested_at, sequence)
