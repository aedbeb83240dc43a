-- ===== src/Runtime/Attest/Total.antt =====
-- The loader calls, attestation and persistence of runtime/src/main.rs do not panic.
use tee_demo.Base.State.{◌>>=◌, lift, pure}
use tee_demo.Base.{
  not, is_true, ℕ, Option, none, some, Fallible, ok, err, panic, Returns, Returns-ok_or,
}
use tee_demo.Base.Bytes.{Bytes, Text}
use tee_demo.Protocol.Frame
use tee_demo.Protocol.Frame.{
  op_loader_read_blob, op_loader_read_blob_result, Frame, keyring_name, sealed_keys_name,
}
use tee_demo.Protocol.Platform.{Platform}
use tee_demo.KeyStore
use tee_demo.KeyStore.{KeyStore, keyring_json}
use tee_demo.KeyStore.Retention.{new-IsValid}
use tee_demo.Sealing.{seal, unseal}
use tee_demo.Sealing.Safety.{SealingReturns, seal-Returns, unseal-Returns}
use tee_demo.Runtime.Link.{Peer, draw, next_seq, write_frame, await_reply}
use tee_demo.Runtime.Link.Steady.{
  StreamReturns, Steady, steady_rules, Steady-bind, Steady-lift, Steady-pure, Steady-if,
  Steady-next_seq, Steady-await_reply, Steady-draw, Steady-write_frame,
}
use tee_demo.Runtime.LoaderCalls.{
  loader_init_quote, loader_get_quote, loader_read_blob, loader_write_blob,
}
use tee_demo.Runtime.Attest.{
  persist_store, write_attestation_cache, do_attestation, do_attestation_and_cache, send_ready,
  restore, fresh_store, bootstrap_store,
}

module _ {ℓ} {P : Type ℓ} ⦃plat : Platform⦄ ⦃net : Peer P⦄ (stream : StreamReturns net)
    (decodes : (t : Text) → Returns (plat.b64_decode t)) where
  Steady-loader_init_quote : Steady {P = P} loader_init_quote
  unfolding loader_init_quote
  Steady-loader_init_quote =
      search (steady_rules, Steady-write_frame stream, Returns-ok_or, decodes) depth 14

  Steady-loader_get_quote : (id report : Bytes) → Steady {P = P} (loader_get_quote id report)
  unfolding loader_get_quote
  Steady-loader_get_quote id report =
      search (steady_rules, Steady-write_frame stream, Returns-ok_or, decodes) depth 14

  pub Steady-loader_write_blob :
      (path : Text) (bytes : Bytes) → Steady {P = P} (loader_write_blob path bytes)
  unfolding loader_write_blob
  Steady-loader_write_blob path bytes =
      search (steady_rules, Steady-write_frame stream, Returns-ok_or, decodes) depth 14

  Steady-do_attestation :
      (nonce : Bytes) (store : KeyStore) → Steady {P = P} (do_attestation nonce store)
  unfolding do_attestation
  Steady-do_attestation nonce store =
      search (steady_rules, Steady-loader_init_quote, Steady-loader_get_quote, Returns-ok_or) depth
        14

  Steady-write_attestation_cache :
      (resp : Frame) (sequence : ℕ) → Steady {P = P} (write_attestation_cache resp sequence)
  unfolding write_attestation_cache
  Steady-write_attestation_cache resp sequence =
      search (steady_rules, Steady-loader_write_blob, Returns-ok_or) depth 14

  pub Steady-do_attestation_and_cache :
      (nonce : Bytes) (store : KeyStore) (sequence : ℕ)
      → Steady {P = P} (do_attestation_and_cache nonce store sequence)
  unfolding do_attestation_and_cache
  Steady-do_attestation_and_cache nonce store sequence =
      search
        (
          steady_rules, Steady-do_attestation, Steady-write_attestation_cache,
          Steady-loader_write_blob,
        )
        depth 14

  -- `loader_read_blob` behind its answer
  blob_Steady :
      (blob : Option Text)
      → Steady {P = P} {A = Option Bytes} (elim blob [
        | some b ↦ lift (plat.b64_decode b) >>= λ bytes. pure (some bytes)
        | none ↦ pure none
      ])
  blob_Steady none = Steady-pure none
  blob_Steady (some b) =
      Steady-bind (lift (plat.b64_decode b)) _ (Steady-lift (plat.b64_decode b) (decodes b))
        λ bytes. Steady-pure (some bytes)

  Steady-loader_read_blob : (path : Text) → Steady {P = P} (loader_read_blob path)
  unfolding loader_read_blob
  Steady-loader_read_blob path = Steady-bind next_seq _ Steady-next_seq λ s.
      Steady-bind
        (write_frame (record (Frame.new op_loader_read_blob) { seq = some s; path = some path })) _
        (Steady-write_frame stream _)
        λ u.
          Steady-bind (await_reply op_loader_read_blob_result s) _
            (Steady-await_reply op_loader_read_blob_result s)
            λ resp. Steady-if (not (is_true resp.ok)) _ _ (Steady-pure none) (blob_Steady resp.blob)

  module _ (sealing : SealingReturns plat) where
    pub Steady-persist_store : (store : KeyStore) → Steady {P = P} (persist_store store)
    unfolding persist_store
    Steady-persist_store store = Steady-bind draw _ Steady-draw λ d.
        Steady-bind draw _ Steady-draw λ d'.
          Steady-bind (lift (seal d store)) _
            (Steady-lift (seal d store) (seal-Returns d store sealing))
            λ blob.
              Steady-bind (loader_write_blob sealed_keys_name blob) _
                (Steady-loader_write_blob sealed_keys_name blob)
                λ u. Steady-loader_write_blob keyring_name (keyring_json store)

    new-Returns : (d : ℕ) → Returns (KeyStore.new d)
    new-Returns d = let (store, made, valid, version, keys) = new-IsValid d in rw made tt

    Steady-fresh_store : Steady {P = P} fresh_store
    Steady-fresh_store = Steady-bind draw _ Steady-draw λ d.
        Steady-bind (lift (KeyStore.new d)) _ (Steady-lift (KeyStore.new d) (new-Returns d))
          λ store.
            Steady-bind (persist_store store) _ (Steady-persist_store store) λ u. Steady-pure store

    Steady-restore : (r : Fallible KeyStore) → Returns r → Steady {P = P} (restore r)
    Steady-restore (ok store) h =
        Steady-bind (loader_write_blob keyring_name (keyring_json store)) _
          (Steady-loader_write_blob keyring_name (keyring_json store)) λ u. Steady-pure store
    Steady-restore (err e) h = Steady-fresh_store
    Steady-restore panic h = elim h [ ]

    found_Steady :
        (found : Option Bytes)
        → Steady {P = P} (elim found [ some blob ↦ restore (unseal blob) | none ↦ fresh_store ])
    found_Steady none = Steady-fresh_store
    found_Steady (some blob) = Steady-restore (unseal blob) (unseal-Returns blob sealing)

    pub Steady-bootstrap_store : Steady {P = P} bootstrap_store
    unfolding bootstrap_store send_ready
    Steady-bootstrap_store =
        Steady-bind (loader_read_blob sealed_keys_name) _ (Steady-loader_read_blob sealed_keys_name)
          λ found.
            Steady-bind _ _ (found_Steady found)
              λ store. Steady-bind _ _ (Steady-write_frame stream _) λ u. Steady-pure store
