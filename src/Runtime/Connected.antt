-- ===== src/Runtime/Connected.antt =====
-- The runtime connected to the real loader: each frame of runtime/src/main.rs goes through one round
-- of the multiplexer of loader/src/main.rs. The host is any source of frames between those rounds.
pub mod Disk
pub mod Spares
pub mod Requests
pub mod Persisting
pub mod Restart
pub mod Fresh
pub mod Durable
use tee_demo.Base.{ℕ, List, [], ◌∷◌, ◌++◌, map, Fallible, ok}
use tee_demo.Protocol.Frame.{Frame}
use tee_demo.Protocol.Platform.{Platform}
use tee_demo.Loader.Blobs.{Machine}
use tee_demo.Loader.Multiplexer.{Mux, enclave_leg, route_rounds}
use tee_demo.Runtime.Link.{Peer, Io}

-- What the multiplexer passes on from the host before and after it serves a frame of the runtime
pub record Host {ℓ} (H : Type ℓ) : Type ℓ where
  pub before : Frame → H → List (Fallible Frame)
  pub after : Frame → H → List (Fallible Frame)
  pub next : Frame → H → H

-- A host that sends nothing, as host/src/main.rs does before it has the ready frame
abbrev pub silent : Host (Unit {0})
silent = record { before = λ f h. []; after = λ f h. []; next = λ f h. h }

pub record World {ℓ κ} (D : Type ℓ) (H : Type κ) : Type (ℓ ⊔ κ) where
  pub disk : D
  pub host : H

module _ {ℓ} {D : Type ℓ} ⦃plat : Platform⦄ ⦃machine : Machine D⦄ where
  -- The frame's round of the multiplexer
  abbrev pub round_of : Frame → D → Mux D
  round_of f d =
      (route_rounds (enclave_leg (ok f) (ok tt) ∷ [])
        (record { machine = d; to_enclave = []; to_host = [] })).1

module _ {ℓ κ} {D : Type ℓ} {H : Type κ} ⦃plat : Platform⦄ ⦃machine : Machine D⦄ where
  abbrev pub loader_peer : Host H → Peer (World D H)
  loader_peer host = record {
    receive = λ f w. (
      ok (host.before f w.host ++ (map ok (round_of f w.disk).to_enclave ++ host.after f w.host)),
      record { disk = (round_of f w.disk).machine; host = host.next f w.host },
    );
  }

-- The stream of an enclave that starts on this disk, whatever its clock and generator are at
abbrev pub boot {ℓ} : {D : Type ℓ} → D → ℕ → ℕ → ℕ → Io (World D (Unit {0}))
boot d seq readings draws = record {
  peer = record { disk = d; host = tt };
  inbox = [];
  sent = [];
  seq = seq;
  readings = readings;
  draws = draws;
}
