-- ===== src/Runtime/Attest/Restores.antt =====
-- The start of runtime/src/main.rs with a loader that still has the sealed blob.
use tee_demo.Base.{
  ℕ, ◌+◌, ◌%◌, ◌^◌, ◌≡◌, refl, ap, ◌∙◌, inr, true, none, some, [], ◌∷◌, ◌++◌, append_assoc, ok,
}
use tee_demo.Base.Bytes.{Bytes, Text}
use tee_demo.Protocol.Frame
use tee_demo.Protocol.Frame.{
  Frame, op_loader_read_blob, op_loader_read_blob_result, sealed_keys_name, keyring_name,
  op_host_ready,
}
use tee_demo.Protocol.Platform.{Platform}
use tee_demo.KeyStore.{KeyStore, current, keyring_json}
use tee_demo.Sealing.{unseal}
use tee_demo.Runtime.Link.{Peer, Io, write_frame, next_seq, await_reply}
use tee_demo.Runtime.LoaderCalls.{loader_read_blob}
use tee_demo.Runtime.Attest.{send_ready, bootstrap_store}
use tee_demo.Runtime.Attest.Responds.{Grants}
use tee_demo.Runtime.Attest.Persists.{Stores, write_request, loader_write_blob-responds}

abbrev pub read_request : ℕ → Frame
read_request req_seq = record (Frame.new op_loader_read_blob) {
  seq = some req_seq;
  path = some sealed_keys_name;
}

module _ ⦃plat : Platform⦄ where
  abbrev pub ready_frame : KeyStore → Frame
  ready_frame store = record (Frame.new op_host_ready) {
    ok = some true;
    key_version = some store.current_version;
    public_key = elim (current store) [
      | some key ↦ some (plat.b64_encode key.public_key)
      | none ↦ none
    ];
  }

module _ {ℓ} {P : Type ℓ} ⦃plat : Platform⦄ ⦃net : Peer P⦄ (loader : Stores plat net) where
  -- If the loader answers the read of `sealed_keys.bin` with a blob that unseals to a store, grants
  -- writes and passes on the ready frame, then `bootstrap_store` succeeds with that store, and it
  -- sends the read, the write of the store's public key ring, and last the ready frame with the
  -- store's version and current public key: it makes no new key.
  pub bootstrap_store-restores :
      (store : KeyStore) (blob : Bytes) (blob_text : Text) (io : Io P) (reply : Frame) (p' : P)
      → io.inbox ≡ []
      → Grants net
          (read_request ((io.seq + 1) % 2 ^ 64))
          op_loader_read_blob_result
          ((io.seq + 1) % 2 ^ 64)
          io.peer
          reply
          p'
      → reply.blob ≡ some blob_text
      → plat.b64_decode blob_text ≡ ok blob
      → unseal blob ≡ ok store
      → ((p : P) → (q : P) × (net.receive (ready_frame store) p ≡ (ok [], q)))
      → (io' : Io P) × (s : ℕ) × (s' : ℕ) × (bootstrap_store io ≡ (ok store, io'))
        × (io'.draws ≡ io.draws)
        × (io'.sent
            ≡ io.sent
              ++ read_request s
                ∷ write_request s' keyring_name (keyring_json store)
                ∷ ready_frame store
                ∷ [])
  unfolding bootstrap_store loader_read_blob next_seq write_frame await_reply send_ready
  bootstrap_store-restores store blob blob_text io reply p' quiet g rb dec opens ready =
      let s = (io.seq + 1) % 2 ^ 64 in
      let m : Io P = record io {
        peer = p';
        inbox = [];
        sent = io.sent ++ read_request s ∷ [];
        seq = s;
      } in
      let (m1, e1, quiet1, sent1, draws1) =
        loader_write_blob-responds loader keyring_name (keyring_json store) m (inr refl) refl in
      let (q, taken) = ready m1.peer in
      let after : Io P = record m1 {
        peer = q;
        inbox = m1.inbox ++ [];
        sent = m1.sent ++ ready_frame store ∷ [];
      } in
      let w : Frame = write_request ((s + 1) % 2 ^ 64) keyring_name (keyring_json store) in
      (
        after,
        s,
        (s + 1) % 2 ^ 64,
        rw (g.receives, quiet, g.matches, g.granted, rb, dec, opens, e1, taken) refl,
        draws1,
        ap (λ t. t ++ ready_frame store ∷ []) sent1
            ∙ ap (λ t. t ++ ready_frame store ∷ [])
                (append_assoc io.sent (read_request s ∷ []) (w ∷ []))
            ∙ append_assoc io.sent (read_request s ∷ w ∷ []) (ready_frame store ∷ []),
      )
