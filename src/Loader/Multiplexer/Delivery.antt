-- ===== src/Loader/Multiplexer/Delivery.antt =====
-- The loader's multiplexer on whole byte streams, where no read that `select!` drops has begun.
use tee_demo.Base.{◌≤◌, ◌≡◌, refl, List, [], ◌∷◌, ◌++◌, arith, length, append_assoc, ok}
use tee_demo.Base.Bytes.{Bytes, from_le_bytes-to_le_bytes}
use tee_demo.Protocol.Frame.{Frame}
use tee_demo.Protocol.Platform.{Platform}
use tee_demo.Protocol.Wire.{Json, max_frame}
use tee_demo.Protocol.Wire.RoundTrip.{Sends, packet, read_frame-prefix, read_exact-append}
use tee_demo.Protocol.Wire.Streams.{AllSend, packets}
use tee_demo.Loader.Sockets.{read_frame_async}
use tee_demo.Loader.Blobs.{Machine}
use tee_demo.Loader.Operations.Replies.{CallsReturn}
use tee_demo.Loader.Multiplexer.{
  Round, enclave_leg, host_leg, Turn, enclave_turn, host_turn, Mux, select_reads, run_multiplexer,
}
use tee_demo.Loader.Multiplexer.Routing.{Works, for_host, IsInbound, route_rounds-delivers}

-- The frames that the turns take from the two legs are there, no read that is dropped has begun, and
-- the writes succeed.
abbrev pub Takes : List Turn → List Frame → List Frame → Type 0
Takes [] fs gs = Unit
Takes (enclave_turn lost w ∷ turns) [] gs = ⊥
Takes (enclave_turn lost w ∷ turns) (f ∷ fs) gs = (lost ≡ 0) × (w ≡ ok tt) × Takes turns fs gs
Takes (host_turn lost w ∷ turns) fs [] = ⊥
Takes (host_turn lost w ∷ turns) fs (g ∷ gs) = (lost ≡ 0) × (w ≡ ok tt) × Takes turns fs gs

-- The frames of the two legs in the order of the turns
abbrev pub merged : List Turn → List Frame → List Frame → List Round
merged [] fs gs = []
merged (enclave_turn lost w ∷ turns) [] gs = []
merged (enclave_turn lost w ∷ turns) (f ∷ fs) gs = enclave_leg (ok f) w ∷ merged turns fs gs
merged (host_turn lost w ∷ turns) fs [] = []
merged (host_turn lost w ∷ turns) fs (g ∷ gs) = host_leg (ok g) w ∷ merged turns fs gs

merged-Works :
    (turns : List Turn) (fs gs : List Frame) → Takes turns fs gs → Works (merged turns fs gs)
merged-Works [] fs gs h = tt
merged-Works (enclave_turn lost w ∷ turns) [] gs h = elim h [ ]
merged-Works (enclave_turn lost w ∷ turns) (f ∷ fs) gs (z, k, h) =
    ((f, refl), k, merged-Works turns fs gs h)
merged-Works (host_turn lost w ∷ turns) fs [] h = elim h [ ]
merged-Works (host_turn lost w ∷ turns) fs (g ∷ gs) (z, k, h) =
    ((g, refl), k, merged-Works turns fs gs h)

module _ ⦃json : Json⦄ where
  read_frame_async-packet :
      (frame : Frame) (body rest : Bytes)
      → Sends frame body
      → length body ≤ max_frame
      → read_frame_async (packet body ++ rest) ≡ ok (frame, rest)
  unfolding read_frame_async
  read_frame_async-packet frame body rest s h = ground (
    arith,
    read_frame-prefix body rest,
    from_le_bytes-to_le_bytes 4 (length body) (omega (arith, h)),
    read_exact-append (length body) body rest refl,
    s.parsed,
  )

  select_reads-packets :
      (turns : List Turn) (fs gs : List Frame) (sf : AllSend fs) (sg : AllSend gs) (x y : Bytes)
      → Takes turns fs gs
      → select_reads turns (packets fs sf ++ x) (packets gs sg ++ y) ≡ merged turns fs gs
  unfolding select_reads
  select_reads-packets [] fs gs sf sg x y h = refl
  select_reads-packets (enclave_turn lost w ∷ turns) [] gs sf sg x y h = elim h [ ]
  select_reads-packets (enclave_turn lost w ∷ turns) (f ∷ fs) gs ((body, sends, small), sf) sg x y
        (z, k, h) =
      rw
        (
          append_assoc (packet body) (packets fs sf) x,
          read_frame_async-packet f body (packets fs sf ++ x) sends small,
          z,
          select_reads-packets turns fs gs sf sg x y h,
        )
        refl
  select_reads-packets (host_turn lost w ∷ turns) fs [] sf sg x y h = elim h [ ]
  select_reads-packets (host_turn lost w ∷ turns) fs (g ∷ gs) sf ((body, sends, small), sg) x y
        (z, k, h) =
      rw
        (
          append_assoc (packet body) (packets gs sg) y,
          read_frame_async-packet g body (packets gs sg ++ y) sends small,
          z,
          select_reads-packets turns fs gs sf sg x y h,
        )
        refl

module _ {ℓ} {D : Type ℓ} ⦃plat : Platform⦄ ⦃json : Json⦄ ⦃machine : Machine D⦄ where
  -- The runtime and the host send frames that the reader's limit allows, in one byte stream each, and
  -- whatever bytes follow. If no read had taken bytes when `select!` dropped it, every write succeeds
  -- and no call of the machine panics, then the loop goes on through all its rounds, in any order of
  -- the legs: the host is sent every frame of the runtime but the requests to the loader, in order,
  -- and the enclave every frame of the host and one reply to each of its loader requests, with the
  -- request's sequence number, in the order of the rounds and nothing else.
  pub run_multiplexer-delivers :
      (turns : List Turn) (fs gs : List Frame) (sf : AllSend fs) (sg : AllSend gs) (x y : Bytes)
      (mux : Mux D)
      → CallsReturn plat machine
      → Takes turns fs gs
      → (after : Mux D) × (inbound : List Frame) × (run_multiplexer turns
            (packets fs sf ++ x)
            (packets gs sg ++ y)
            mux
          ≡ (ok tt, after))
        × (after.to_host ≡ mux.to_host ++ for_host (merged turns fs gs))
        × (after.to_enclave ≡ mux.to_enclave ++ inbound)
        × IsInbound (merged turns fs gs) inbound
  unfolding run_multiplexer
  run_multiplexer-delivers turns fs gs sf sg x y mux calls takes =
      rw (select_reads-packets turns fs gs sf sg x y takes)
        (route_rounds-delivers (merged turns fs gs) mux calls (merged-Works turns fs gs takes))
