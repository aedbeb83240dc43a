-- ===== src/Runtime/Connected/Fresh.antt =====
-- The first start of runtime/src/main.rs, on a disk without sealed keys.
use tee_demo.Base.{
  ℕ, ◌+◌, ◌%◌, ◌^◌, ◌≡◌, refl, true, some, List, [], ◌∷◌, ◌++◌, arith, same, same_option, is_true,
  Fallible, ok, err,
}
use mathlib.Core.Path.{subst}
use tee_demo.Base.Bytes.{Bytes, Text, text}
use tee_demo.Protocol.Frame.{Frame, op_loader_read_blob_result, sealed_keys_name}
use tee_demo.Protocol.Platform.{Platform}
use tee_demo.KeyStore.{KeyStore}
use tee_demo.KeyStore.Codec.{KeyFits, Fits}
use tee_demo.KeyStore.Fitting.{KeysFit}
use tee_demo.KeyStore.Retention.{IsValid, key_of, new-IsValid}
use tee_demo.Sealing.RoundTrip.{SealSupport}
use tee_demo.Loader.Blobs.{Machine, refusal}
use tee_demo.Loader.Operations.Files.{Files}
use tee_demo.Loader.Operations.Blobs.{handle_loader_op-not_found}
use tee_demo.Runtime.Link.{Peer, Io, next_seq, write_frame, await_reply, answers}
use tee_demo.Runtime.LoaderCalls.{loader_read_blob}
use tee_demo.Runtime.Attest.{send_ready, bootstrap_store}
use tee_demo.Runtime.Attest.Persists.{persist_store-writes}
use tee_demo.Runtime.Attest.Restores.{read_request, ready_frame}
use tee_demo.Runtime.Connected.{World, silent, loader_peer, boot}
use tee_demo.Runtime.Connected.Disk.{Writes, round_of-request, round_of-for_host}
use tee_demo.Runtime.Connected.Restart.{
  Holds, sealed_name-safe, read_request-loader, ready_frame-for_host, loader_peer-Stores,
  boot-restores,
}
use tee_demo.Runtime.Connected.Persisting.{persist_store-Holds}

module _ {ℓ} {D : Type ℓ} ⦃plat : Platform⦄ ⦃machine : Machine D⦄ (files : Files machine)
    (writes : Writes machine) (b64 : (b : Bytes) → plat.b64_decode (plat.b64_encode b) ≡ ok b)
    (support : SealSupport plat) (short : KeysFit plat) where
  abbrev net : Peer (World D (Unit {0}))
  net = loader_peer ⦃machine = machine⦄ silent

  new-Fits :
      (draw : ℕ) (store : KeyStore)
      → store.current_version ≡ 1
      → store.keys ≡ key_of draw 1 ∷ []
      → Fits store
  new-Fits draw store v k =
      let key : KeyFits (key_of draw 1) = record {
        version = omega arith;
        public_key = short.public_keys draw;
        private_key = short.private_keys draw;
      } in
      record {
        current_version = omega (arith, v);
        count = rw k (omega arith);
        keys = rw k (key, tt);
      }

  -- The state behind the refused read
  abbrev after_read : D → ℕ → ℕ → ℕ → Io (World D (Unit {0}))
  after_read d seq readings draws = record (boot d ((seq + 1) % 2 ^ 64) readings (draws + 1)) {
    sent = read_request ((seq + 1) % 2 ^ 64) ∷ [];
  }

  -- On a disk without sealed keys a start makes a valid store of one key, at version 1, and says so
  -- to the host; a second start on the disk that the first left comes back with the same store. It
  -- holds for a disk that takes every write and changes no other file, if sealing and base64 do
  -- what they document and key pairs fit the encoding.
  pub boot-first :
      (d : D) (e : Text) (seq readings draws seq' readings' draws' : ℕ)
      → machine.read sealed_keys_name d ≡ err e
      → (store : KeyStore) × (first second : Io (World D (Unit {0}))) × (bootstrap_store ⦃net = net⦄
            (boot d seq readings draws)
          ≡ (ok store, first))
        × IsValid store
        × (store.current_version ≡ 1)
        × (store.keys ≡ key_of draws 1 ∷ [])
        × ((earlier : List Frame) × (first.sent ≡ earlier ++ ready_frame store ∷ []))
        × (bootstrap_store ⦃net = net⦄ (boot first.peer.disk seq' readings' draws')
            ≡ (ok store, second))
  unfolding bootstrap_store loader_read_blob next_seq write_frame await_reply send_ready same
      same_option is_true
  boot-first d e seq readings draws seq' readings' draws' missing =
      let s = (seq + 1) % 2 ^ 64 in
      let round =
        round_of-request (read_request s)
          (refusal op_loader_read_blob_result (some s) (text "not found")) d d
          (read_request-loader s)
          (handle_loader_op-not_found files (read_request s) sealed_keys_name e d refl refl
            sealed_name-safe missing) in
      let matches : answers op_loader_read_blob_result s
            (refusal op_loader_read_blob_result (some s) (text "not found"))
          ≡ true =
        ground arith in
      let (store, made, valid, version, keys) = new-IsValid draws in
      let fits = new-Fits draws store version keys in
      let m = after_read d seq readings draws in
      let (blob, m1, r, r', e1, opens, quiet, sent) =
        persist_store-writes ⦃net = net⦄ (loader_peer-Stores files writes b64) store m support fits
          refl in
      let held : Holds plat machine m1.peer.disk store =
        subst
          (λ (q : Fallible (Unit {0}) × Io (World D (Unit {0}))).
            Holds plat machine q.1.peer.disk store)
          e1 (persist_store-Holds files writes b64 silent store m support fits) in
      let after : Io (World D (Unit {0})) = record m1 {
        inbox = m1.inbox ++ [];
        sent = m1.sent ++ ready_frame store ∷ [];
      } in
      let to_host =
        round_of-for_host (ready_frame store) m1.peer.disk (ready_frame-for_host store) in
      let (second, restarted, draws_kept) =
        boot-restores files writes b64 store m1.peer.disk seq' readings' draws' held in
      (
        store,
        after,
        second,
        rw (round, matches, made, e1, to_host) refl,
        valid,
        version,
        keys,
        (m1.sent, refl),
        restarted,
      )
