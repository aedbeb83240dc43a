-- ===== src/Tests/Restart.antt =====
-- The runtime on the loader with a disk in memory: a loop with a rotation, and starts on its disk.
use tee_demo.Base.{
  ℕ, ◌+◌, ◌≤◌, ◌≡◌, refl, none, some, List, [], ◌∷◌, ◌++◌, arith, same, if◌then◌else◌, ok,
}
use tee_demo.Base.Bytes.{Bytes, text, length-to_le_bytes}
use tee_demo.Protocol.Frame
use tee_demo.Protocol.Frame.{
  Frame, sealed_keys_name, op_runtime_compute_request, op_runtime_rotate_request,
}
use tee_demo.KeyStore.{KeyStore}
use tee_demo.KeyStore.Retention.{IsValid, key_of}
use tee_demo.KeyStore.Fitting.{KeysFit}
use tee_demo.Sealing.{seal, unseal}
use tee_demo.Sealing.RoundTrip.{unseal-seal}
use tee_demo.Runtime.Link.{Io}
use tee_demo.Runtime.Attest.{bootstrap_store}
use tee_demo.Runtime.Attest.Restores.{ready_frame}
use tee_demo.Runtime.Connected.Fresh.{boot-first}
use tee_demo.Runtime.Server.{Session, serve_loop}
use tee_demo.Runtime.Connected.{World, Host, silent, loader_peer, boot}
use tee_demo.Runtime.Connected.Disk.{Writes}
use tee_demo.Runtime.Connected.Restart.{Holds}
use tee_demo.Runtime.Connected.Durable.{Rotations, GoesOn}
use tee_demo.Runtime.Connected.Durable.Loop.{serve_loop-restarts}
use tee_demo.Tests.Toy.{toy}
use tee_demo.Tests.Keys.{two_keys, two_keys-Fits, two_keys-IsValid, toy-SealSupport}
use tee_demo.Tests.Loader.{Disk, empty, toy_machine, toy-Files}

-- A host that sends a compute request after each frame of the runtime
abbrev busy : Host (Unit {0})
busy = record {
  before = λ f h. [];
  after = λ f h. ok (Frame.new op_runtime_compute_request) ∷ [];
  next = λ f h. h;
}

toy-Writes : Writes toy_machine
toy-Writes = record { creates = λ d. refl; writes = λ name b file d. refl }

toy-KeysFit : KeysFit toy
toy-KeysFit = record {
  public_keys = λ draw. omega (arith, length-to_le_bytes 4 draw);
  private_keys = λ draw. omega (arith, length-to_le_bytes 4 draw);
}

kept : (blob : Bytes) × (seal 3 two_keys ≡ ok blob) × (unseal blob ≡ ok two_keys)
kept = unseal-seal 3 two_keys toy-SealSupport two_keys-Fits

-- The disk with the sealed blob only
abbrev disk : Disk
disk name = if same name sealed_keys_name then some kept.0 else none

disk-Holds : Holds toy toy_machine disk two_keys
unfolding same
disk-Holds = (kept.0, refl, kept.2)

abbrev session : Session
session = record { last_attested_at = 0; store = two_keys; sequence = 0 }

abbrev serving : Io (World Disk (Unit {0}))
serving = record {
  peer = record { disk = disk; host = tt };
  inbox = ok (Frame.new op_runtime_rotate_request) ∷ ok (Frame.new op_runtime_compute_request) ∷ [];
  sent = [];
  seq = 0;
  readings = 0;
  draws = 4;
}

serve_loop-restarts_example :
    (store : KeyStore) × (n : ℕ) × (after : Io (World Disk (Unit {0}))) × (bootstrap_store
        ⦃net = loader_peer ⦃machine = toy_machine⦄ silent⦄
        (boot (serve_loop ⦃net = loader_peer busy⦄ 2 session serving).1.peer.disk 0 0 9)
      ≡ (ok store, after))
    × GoesOn (serve_loop ⦃net = loader_peer busy⦄ 2 session serving).0 store
    × (n ≤ 2)
    × Rotations n two_keys store
    × IsValid store
    × (store.current_version ≡ 5 + n)
serve_loop-restarts_example =
    serve_loop-restarts toy-Files busy toy-Writes (λ b. refl) toy-SealSupport toy-KeysFit 2 session
      serving 0 0 9 two_keys-Fits two_keys-IsValid (omega arith) disk-Holds

boot-first_example :
    (store : KeyStore) × (first : Io (World Disk (Unit {0}))) × (second : Io
      (World Disk (Unit {0})))
    × (bootstrap_store ⦃net = loader_peer ⦃machine = toy_machine⦄ silent⦄ (boot empty 0 0 7)
        ≡ (ok store, first))
    × IsValid store
    × (store.current_version ≡ 1)
    × (store.keys ≡ key_of 7 1 ∷ [])
    × ((earlier : List Frame) × (first.sent ≡ earlier ++ ready_frame store ∷ []))
    × (bootstrap_store ⦃net = loader_peer ⦃machine = toy_machine⦄ silent⦄
          (boot first.peer.disk 3 5 90)
        ≡ (ok store, second))
boot-first_example =
    boot-first toy-Files toy-Writes (λ b. refl) toy-SealSupport toy-KeysFit empty
      (text "No such file or directory (os error 2)") 0 0 7 3 5 90 refl
