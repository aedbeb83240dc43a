-- ===== src/Loader/Multiplexer.antt =====
-- `route_rounds` of loader/src/main.rs, on an explicit order of its rounds.
pub mod Routing
pub mod Delivery
use tee_demo.Base.{
  ℕ, Bool, not, ◌&&◌, List, [], ◌∷◌, ◌++◌, drop, if◌then◌else◌, Outcome, Fallible, ok, err, panic,
}
use tee_demo.Base.Bytes.{Bytes, Text, text}
use tee_demo.Strings.Search.{ends_with}
use tee_demo.Protocol.Frame.{Frame, is_loader_op}
use tee_demo.Protocol.Platform.{Platform}
use tee_demo.Protocol.Wire.{Json}
use tee_demo.Loader.Sockets.{read_frame_async}
use tee_demo.Loader.Blobs.{Machine}
use tee_demo.Loader.Operations.{handle_loader_op}

-- A round of the loop: the leg that `select!` takes, what the read of it gives, and what the
-- write of this round gives
pub data Round : Type 0 where
  enclave_leg host_leg : (received : Fallible Frame) → (written : Fallible (Unit {0})) → Round

-- The machine, and what was written to the two legs
pub record Mux {ℓ} (D : Type ℓ) : Type ℓ where
  pub machine : D
  pub to_enclave : List Frame
  pub to_host : List Frame

-- `frame.is_loader_op() && !frame.op.ends_with("_result")`
unfoldable pub is_loader_request : Frame → Bool
is_loader_request frame = is_loader_op frame && not (ends_with frame.op (text "_result"))

module _ {ℓ} {D : Type ℓ} where
  -- `write_frame_async(…).await?`, and then the rest of the loop
  abbrev pub after_write :
      Fallible (Unit {0})
      → Mux D
      → Mux D
      → (Mux D → Fallible (Unit {0}) × Mux D)
      → Fallible (Unit {0}) × Mux D
  after_write (ok u) unsent sent loop = loop sent
  after_write (err e) unsent sent loop = (err e, unsent)
  after_write panic unsent sent loop = (panic, unsent)

  -- The write of a reply
  abbrev pub after_reply :
      Fallible Frame
      → Fallible (Unit {0})
      → Mux D
      → (Mux D → Fallible (Unit {0}) × Mux D)
      → Fallible (Unit {0}) × Mux D
  after_reply (ok reply) w mux loop =
      after_write w mux (record mux { to_enclave = mux.to_enclave ++ reply ∷ [] }) loop
  after_reply (err e) w mux loop = (err e, mux)
  after_reply panic w mux loop = (panic, mux)

module _ {ℓ} {D : Type ℓ} ⦃plat : Platform⦄ ⦃machine : Machine D⦄ where
  -- A frame of the runtime
  abbrev pub serve_enclave :
      Frame
      → Fallible (Unit {0})
      → Mux D
      → (Mux D → Fallible (Unit {0}) × Mux D)
      → Fallible (Unit {0}) × Mux D
  serve_enclave frame w mux loop =
      if is_loader_request frame
      then (let (reply, d) = handle_loader_op frame mux.machine in
          after_reply reply w (record mux { machine = d }) loop)
      else after_write w mux (record mux { to_host = mux.to_host ++ frame ∷ [] }) loop

  -- The loop, once the reads are made
  unfoldable pub route_rounds : List Round → Mux D → Fallible (Unit {0}) × Mux D
  route_rounds [] mux = (ok tt, mux)
  route_rounds (enclave_leg (ok frame) w ∷ rounds) mux =
      serve_enclave frame w mux (route_rounds rounds)
  route_rounds (enclave_leg (err e) w ∷ rounds) mux = (ok tt, mux)
  route_rounds (enclave_leg panic w ∷ rounds) mux = (panic, mux)
  route_rounds (host_leg (ok frame) w ∷ rounds) mux =
      after_write w mux (record mux { to_enclave = mux.to_enclave ++ frame ∷ [] })
        (route_rounds rounds)
  route_rounds (host_leg (err e) w ∷ rounds) mux = (ok tt, mux)
  route_rounds (host_leg panic w ∷ rounds) mux = (panic, mux)

-- A round of the loop in bytes: the leg whose frame is complete first, how many bytes the read of the
-- other leg has taken when `select!` drops it (`read_exact` does not give them back), and what the
-- write gives
pub data Turn : Type 0 where
  enclave_turn host_turn : (lost : ℕ) → (written : Fallible (Unit {0})) → Turn

-- The rounds behind a read, if it gave a frame
abbrev after_frame :
    (Fallible Frame → Round) → Fallible (Frame × Bytes) → (Bytes → List Round) → List Round
after_frame leg (ok (frame, rest)) next = leg (ok frame) ∷ next rest
after_frame leg (err e) next = leg (err e) ∷ []
after_frame leg panic next = leg panic ∷ []

module _ ⦃json : Json⦄ where
  -- The reads of the loop, on the bytes that the runtime and the host send
  unfoldable pub select_reads : List Turn → Bytes → Bytes → List Round
  select_reads [] enclave host = []
  select_reads (enclave_turn lost w ∷ turns) enclave host =
      after_frame (λ r. enclave_leg r w) (read_frame_async enclave)
        λ rest. select_reads turns rest (drop lost host)
  select_reads (host_turn lost w ∷ turns) enclave host =
      after_frame (λ r. host_leg r w) (read_frame_async host)
        λ rest. select_reads turns (drop lost enclave) rest

module _ {ℓ} {D : Type ℓ} ⦃plat : Platform⦄ ⦃json : Json⦄ ⦃machine : Machine D⦄ where
  unfoldable pub run_multiplexer : List Turn → Bytes → Bytes → Mux D → Fallible (Unit {0}) × Mux D
  unfolding select_reads
  run_multiplexer turns enclave host mux = route_rounds (select_reads turns enclave host) mux
