-- ===== src/Runtime/Connected/Restart.antt =====
-- A start of runtime/src/main.rs on the disk of an earlier run, with the loader's own operations.
use tee_demo.Base.{
  ℕ, ◌+◌, ◌%◌, ◌^◌, ◌≡◌, ◌≢◌, refl, sym, ap, ◌∙◌, inl, inr, true, false, some, arith, same,
  same_option, is_true, ok,
}
use tee_demo.Base.Bytes.{Bytes, Text, text}
use tee_demo.Strings.Search.{contains, starts_with, ends_with}
use tee_demo.Protocol.Frame.{
  Frame, op_loader_read_blob_result, op_loader_write_blob_result, sealed_keys_name, keyring_name,
  is_loader_op,
}
use tee_demo.Protocol.Platform.{Platform}
use tee_demo.KeyStore.{KeyStore}
use tee_demo.Sealing.{unseal}
use tee_demo.Loader.Blobs.{Machine, safe_blob_name, granted}
use tee_demo.Loader.Names.{IsFileName, safe_blob_name-IsInside}
use tee_demo.Loader.Operations.Files.{Files}
use tee_demo.Loader.Operations.Blobs.{handle_loader_op-grants_write, handle_loader_op-reads}
use tee_demo.Loader.Multiplexer.{is_loader_request}
use tee_demo.Runtime.Link.{Io}
use tee_demo.Runtime.Attest.{bootstrap_store}
use tee_demo.Runtime.Attest.Persists.{Stores, IsKept, write_request}
use tee_demo.Runtime.Attest.Restores.{read_request, ready_frame, bootstrap_store-restores}
use tee_demo.Runtime.Connected.{World, silent, loader_peer, boot}
use tee_demo.Runtime.Connected.Disk.{Writes, round_of-request, round_of-for_host}

-- The disk has a sealed blob, and it unseals to the store.
abbrev pub Holds {ℓ} : {D : Type ℓ} → Platform → Machine D → D → KeyStore → Type 0
Holds plat machine d store =
    (blob : Bytes) × (machine.read sealed_keys_name d ≡ ok blob)
    × (unseal ⦃plat = plat⦄ blob ≡ ok store)

pub sealed_name-safe : safe_blob_name sealed_keys_name ≡ some sealed_keys_name
unfolding safe_blob_name same contains
sealed_name-safe = refl

keyring_name-safe : safe_blob_name keyring_name ≡ some keyring_name
unfolding safe_blob_name same contains
keyring_name-safe = refl

pub IsKept-safe : (path : Text) → IsKept path → safe_blob_name path ≡ some path
IsKept-safe path (inl e) = ap safe_blob_name e ∙ sealed_name-safe ∙ ap some (sym e)
IsKept-safe path (inr e) = ap safe_blob_name e ∙ keyring_name-safe ∙ ap some (sym e)

IsKept-entry : (path : Text) → IsKept path → path ≢ text "."
IsKept-entry path (inl e) dot = cc (sym e ∙ dot)
IsKept-entry path (inr e) dot = cc (sym e ∙ dot)

IsKept-IsFileName : (path : Text) → IsKept path → IsFileName path
IsKept-IsFileName path kept =
    (safe_blob_name-IsInside path path (IsKept-safe path kept), IsKept-entry path kept)

pub sealed_name-IsFileName : IsFileName sealed_keys_name
sealed_name-IsFileName = IsKept-IsFileName sealed_keys_name (inl refl)

module _ ⦃plat : Platform⦄ where
  pub write_request-loader :
      (s : ℕ) (path bytes : Bytes) → is_loader_request (write_request s path bytes) ≡ true
  unfolding is_loader_request is_loader_op starts_with ends_with same
  write_request-loader s path bytes = refl

  pub ready_frame-for_host : (store : KeyStore) → is_loader_request (ready_frame store) ≡ false
  unfolding is_loader_request is_loader_op starts_with
  ready_frame-for_host store = refl

pub read_request-loader : (s : ℕ) → is_loader_request (read_request s) ≡ true
unfolding is_loader_request is_loader_op starts_with ends_with same
read_request-loader s = refl

module _ {ℓ} {D : Type ℓ} ⦃plat : Platform⦄ ⦃machine : Machine D⦄ (files : Files machine)
    (writes : Writes machine) (b64 : (b : Bytes) → plat.b64_decode (plat.b64_encode b) ≡ ok b) where
  -- The loader of loader/src/main.rs is one that the runtime can store its keys with.
  pub loader_peer-Stores : Stores plat (loader_peer ⦃machine = machine⦄ silent)
  unfolding same same_option is_true
  loader_peer-Stores = record {
    writes = λ s path bytes p kept.
        let (d', e, stored) =
          handle_loader_op-grants_write files (write_request s path bytes) path
            (plat.b64_encode bytes) bytes p.disk refl refl (IsKept-safe path kept)
            (IsKept-entry path kept) refl (b64 bytes) (writes.creates p.disk)
            (writes.writes path bytes (IsKept-IsFileName path kept)) in
        let round =
          round_of-request (write_request s path bytes) _ p.disk d'
            (write_request-loader s path bytes) e in
        (
          granted op_loader_write_blob_result (some s),
          record { disk = d'; host = tt },
          record { receives = rw round refl; matches = ground arith; granted = refl },
        );
  }

  -- On a disk with a blob that unseals to a store, a start of the runtime succeeds with that store,
  -- and makes no new key.
  pub boot-restores :
      (store : KeyStore) (d : D) (seq readings draws : ℕ)
      → Holds plat machine d store
      → (io' : Io (World D (Unit {0}))) × (bootstrap_store
            ⦃net = loader_peer ⦃machine = machine⦄ silent⦄
            (boot d seq readings draws)
          ≡ (ok store, io'))
        × (io'.draws ≡ draws)
  unfolding same same_option is_true
  boot-restores store d seq readings draws (blob, stored, opens) =
      let s = (seq + 1) % 2 ^ 64 in
      let reply : Frame = record (granted op_loader_read_blob_result (some s)) {
        blob = some (plat.b64_encode blob);
      } in
      let round = round_of-request (read_request s) reply d d (read_request-loader s) (
        handle_loader_op-reads files (read_request s) sealed_keys_name blob d refl refl
          sealed_name-safe stored) in
      let (io', r, s', e, draws', sent) =
        bootstrap_store-restores ⦃net = loader_peer ⦃machine = machine⦄ silent⦄ loader_peer-Stores
          store blob (plat.b64_encode blob) (boot d seq readings draws) reply
          (record { disk = d; host = tt }) refl
          (record { receives = rw round refl; matches = ground arith; granted = refl }) refl
          (b64 blob) opens
          λ p. (
            p,
            rw (round_of-for_host (ready_frame store) p.disk (ready_frame-for_host store)) refl,
          ) in
      (io', e, draws')
