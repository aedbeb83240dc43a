-- ===== src/Runtime/Attest/Persists.antt =====
-- Persistence in runtime/src/main.rs with a loader that stores blobs.
use tee_demo.Base.{
  ℕ, ◌+◌, ◌%◌, ◌^◌, ◌≡◌, refl, ap, ◌∙◌, ◌⊎◌, inl, inr, some, [], ◌∷◌, ◌++◌, append_assoc, ok,
}
use tee_demo.Base.Bytes.{Bytes, Text}
use tee_demo.Protocol.Frame
use tee_demo.Protocol.Frame.{
  Frame, op_loader_write_blob, op_loader_write_blob_result, sealed_keys_name, keyring_name,
}
use tee_demo.Protocol.Platform.{Platform}
use tee_demo.KeyStore.{KeyStore, keyring_json}
use tee_demo.KeyStore.Codec.{Fits}
use tee_demo.Sealing.{unseal}
use tee_demo.Sealing.RoundTrip.{SealSupport, unseal-seal}
use tee_demo.Runtime.Link.{Peer, Io, write_frame, next_seq, await_reply}
use tee_demo.Runtime.LoaderCalls.{loader_write_blob}
use tee_demo.Runtime.Attest.{persist_store}
use tee_demo.Runtime.Attest.Responds.{Grants}

module _ ⦃plat : Platform⦄ where
  abbrev pub write_request : ℕ → Text → Bytes → Frame
  write_request req_seq path bytes = record (Frame.new op_loader_write_blob) {
    seq = some req_seq;
    path = some path;
    blob = some (plat.b64_encode bytes);
  }

-- The files that `persist_store` and `bootstrap_store` write
abbrev pub IsKept : Text → Type 0
IsKept path = (path ≡ sealed_keys_name) ⊎ (path ≡ keyring_name)

-- A loader that grants every write of these files
pub record Stores {ℓ} {P : Type ℓ} (plat : Platform) (net : Peer P) : Type ℓ where
  pub writes :
      (req_seq : ℕ) (path bytes : Bytes) (p : P)
      → IsKept path
      → (reply : Frame) × (p' : P) × Grants net
          (write_request ⦃plat = plat⦄ req_seq path bytes)
          op_loader_write_blob_result
          req_seq
          p
          reply
          p'

module _ {ℓ} {P : Type ℓ} ⦃plat : Platform⦄ ⦃net : Peer P⦄ (loader : Stores plat net) where
  pub loader_write_blob-responds :
      (path : Text) (bytes : Bytes) (io : Io P)
      → IsKept path
      → io.inbox ≡ []
      → (io' : Io P) × (loader_write_blob path bytes io ≡ (ok tt, io'))
        × (io'.inbox ≡ [])
        × (io'.sent ≡ io.sent ++ write_request ((io.seq + 1) % 2 ^ 64) path bytes ∷ [])
        × (io'.draws ≡ io.draws)
  unfolding loader_write_blob next_seq write_frame await_reply
  loader_write_blob-responds path bytes io kept quiet =
      let s = (io.seq + 1) % 2 ^ 64 in
      let (reply, p', g) = loader.writes s path bytes io.peer kept in
      let after : Io P = record io {
        peer = p';
        inbox = [];
        sent = io.sent ++ write_request s path bytes ∷ [];
        seq = s;
      } in
      (after, rw (g.receives, quiet, g.matches, g.granted) refl, refl, refl, refl)

  -- With a loader that grants its writes, and on a platform that seals, `persist_store` succeeds on
  -- a store that fits its encoding. It sends exactly two frames: a write of `sealed_keys.bin`, with
  -- a blob that unseals to the store, and then a write of `keyring.json` with the public key ring.
  pub persist_store-writes :
      (store : KeyStore) (io : Io P)
      → SealSupport plat
      → Fits store
      → io.inbox ≡ []
      → (blob : Bytes) × (io' : Io P) × (s s' : ℕ) × (persist_store store io ≡ (ok tt, io'))
        × (unseal blob ≡ ok store)
        × (io'.inbox ≡ [])
        × (io'.sent
            ≡ io.sent
              ++ write_request s sealed_keys_name blob
                ∷ write_request s' keyring_name (keyring_json store)
                ∷ [])
  unfolding persist_store
  persist_store-writes store io support fits quiet =
      let (blob, sealed, opened) = unseal-seal io.draws store support fits in
      let m : Io P = record io { draws = io.draws + 1 + 1 } in
      let (m1, e1, quiet1, sent1, draws1) =
        loader_write_blob-responds sealed_keys_name blob m (inl refl) quiet in
      let (m2, e2, quiet2, sent2, draws2) =
        loader_write_blob-responds keyring_name (keyring_json store) m1 (inr refl) quiet1 in
      (
        blob,
        m2,
        (io.seq + 1) % 2 ^ 64,
        (m1.seq + 1) % 2 ^ 64,
        rw (sealed, e1) e2,
        opened,
        quiet2,
        sent2
            ∙ ap
                (λ t.
                  t ++ write_request ((m1.seq + 1) % 2 ^ 64) keyring_name (keyring_json store) ∷ [])
                sent1
            ∙ append_assoc io.sent
                (write_request ((io.seq + 1) % 2 ^ 64) sealed_keys_name blob ∷ []) _,
      )
