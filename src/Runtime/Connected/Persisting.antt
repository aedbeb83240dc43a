-- ===== src/Runtime/Connected/Persisting.antt =====
-- `persist_store` of runtime/src/main.rs on the loader of loader/src/main.rs.
use tee_demo.Base.State.{◌>>=◌, lift, pure}
use tee_demo.Base.{
  ℕ, ◌+◌, ◌%◌, ◌^◌, ◌≡◌, ◌≢◌, refl, ap, ◌∙◌, not, if◌then◌else◌, is_true, same, same_refl, false,
  true, Fallible, ok, err, unwrap_or,
}
use tee_demo.Base.Bytes.{Bytes, text}
use tee_demo.Protocol.Frame.{
  op_loader_write_blob_result, sealed_keys_name, keyring_name, attestation_name,
}
use tee_demo.Protocol.Platform.{Platform}
use tee_demo.KeyStore.{KeyStore, keyring_json}
use tee_demo.KeyStore.Codec.{Fits}
use tee_demo.Sealing.RoundTrip.{SealSupport, unseal-seal}
use tee_demo.Loader.Blobs.{Machine}
use tee_demo.Loader.Operations.Files.{Files}
use tee_demo.Loader.Operations.Blobs.{handle_loader_op-grants_write}
use tee_demo.Runtime.Link.{Io, M, next_seq, write_frame, await_reply}
use tee_demo.Runtime.LoaderCalls.{loader_write_blob}
use tee_demo.Runtime.Attest.{persist_store}
use tee_demo.Runtime.Attest.Persists.{write_request}
use tee_demo.Runtime.Connected.{World, Host, loader_peer}
use tee_demo.Runtime.Connected.Disk.{Writes, round_of-request, round_of-spares}
use tee_demo.Runtime.Connected.Spares.{
  Spares, SparesFile, look-continue, spares_rules, Spares-loader_write_blob,
}
use tee_demo.Runtime.Connected.Restart.{
  Holds, sealed_name-safe, sealed_name-IsFileName, write_request-loader,
}

pub keyring-not_sealed : keyring_name ≢ sealed_keys_name
unfolding same
keyring-not_sealed e =
    let wrong : false ≡ true = ap (λ t. same t sealed_keys_name) e ∙ same_refl sealed_keys_name in
    cc wrong

pub attestation-not_sealed : attestation_name ≢ sealed_keys_name
unfolding same
attestation-not_sealed e =
    let wrong : false ≡ true = ap (λ t. same t sealed_keys_name) e ∙ same_refl sealed_keys_name in
    cc wrong

-- What the disk has as the sealed blob
abbrev pub sealed_file {ℓ κ} : {D : Type ℓ} {H : Type κ} → Machine D → World D H → Fallible Bytes
sealed_file machine w = machine.read sealed_keys_name w.disk

module _ {ℓ} {P : Type ℓ} where
  -- `loader_write_blob` behind its request
  abbrev written : ℕ → M P (Unit {0})
  written req_seq = do
    resp ← await_reply op_loader_write_blob_result req_seq
    if not (is_true resp.ok)
        then lift (err (unwrap_or (text "loader.write_blob failed") resp.error))
        else pure tt

  Spares-written : {V : Type 0} (look : P → V) (s : ℕ) → Spares look (written s)
  Spares-written look s = search (spares_rules)

module _ {ℓ κ} {D : Type ℓ} {H : Type κ} ⦃plat : Platform⦄ ⦃machine : Machine D⦄
    (files : Files machine) (host : Host H) where
  pub loader_peer-SparesFile :
      SparesFile sealed_keys_name (sealed_file {H = H} machine) (loader_peer host)
  loader_peer-SparesFile = record {
    receives = λ f w h. round_of-spares files f w.disk sealed_keys_name sealed_name-IsFileName h;
  }

module _ {ℓ κ} {D : Type ℓ} {H : Type κ} ⦃plat : Platform⦄ ⦃machine : Machine D⦄
    (files : Files machine) (writes : Writes machine)
    (b64 : (b : Bytes) → plat.b64_decode (plat.b64_encode b) ≡ ok b) (host : Host H) where
  -- However the call ends, the blob is on the disk.
  loader_write_blob-stores :
      (blob : Bytes) (io : Io (World D H))
      → sealed_file machine
          (loader_write_blob ⦃net = loader_peer host⦄ sealed_keys_name blob io).1.peer
        ≡ ok blob
  unfolding loader_write_blob next_seq write_frame
  loader_write_blob-stores blob io =
      let s = (io.seq + 1) % 2 ^ 64 in
      let req = write_request s sealed_keys_name blob in
      let d = io.peer.disk in
      let (d', e, stored) =
        handle_loader_op-grants_write files req sealed_keys_name (plat.b64_encode blob) blob d refl
          refl sealed_name-safe sealed_name-IsFileName.1 refl (b64 blob) (writes.creates d)
          (writes.writes sealed_keys_name blob sealed_name-IsFileName) in
      let round = round_of-request req _ d d' (write_request-loader s sealed_keys_name blob) e in
      (Spares-written (sealed_file machine) s).at _
      ∙ ap (λ m. machine.read sealed_keys_name m.machine) round
      ∙ stored

  -- However `persist_store` ends, the disk has the store.
  pub persist_store-Holds :
      (store : KeyStore) (io : Io (World D H))
      → SealSupport plat
      → Fits store
      → Holds plat machine (persist_store ⦃net = loader_peer host⦄ store io).1.peer.disk store
  unfolding persist_store
  persist_store-Holds store io support fits =
      let (blob, sealed, opened) = unseal-seal io.draws store support fits in
      let m : Io (World D H) = record io { draws = io.draws + 1 + 1 } in
      (
        blob,
        rw sealed (
            look-continue (sealed_file machine)
              (loader_write_blob ⦃net = loader_peer host⦄ sealed_keys_name blob m).0
              (loader_write_blob ⦃net = loader_peer host⦄ sealed_keys_name blob m).1
              (λ u. loader_write_blob ⦃net = loader_peer host⦄ keyring_name (keyring_json store))
              (λ u.
                Spares-loader_write_blob ⦃net = loader_peer host⦄
                  (loader_peer-SparesFile files host) keyring_name (keyring_json store)
                  keyring-not_sealed)
            ∙ loader_write_blob-stores blob m),
        opened,
      )
