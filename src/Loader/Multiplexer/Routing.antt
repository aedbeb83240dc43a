-- ===== src/Loader/Multiplexer/Routing.antt =====
-- Where the loader's multiplexer sends what it reads.
use tee_demo.Base.{
  ◌≡◌, refl, sym, ap, ◌∙◌, ◌⊎◌, inl, inr, true, false, List, [], ◌∷◌, ◌++◌, append_assoc,
  append-nil, if◌then◌else◌, Bool-cases, Fallible, ok, err, panic,
}
use tee_demo.Base.Bytes.{text}
use tee_demo.Protocol.Frame.{Frame}
use tee_demo.Protocol.Platform.{Platform}
use tee_demo.Loader.Blobs.{Machine}
use tee_demo.Loader.Operations.{handle_loader_op}
use tee_demo.Loader.Operations.Replies.{CallsReturn, handle_loader_op-replies}
use tee_demo.Loader.Multiplexer.{
  Round, enclave_leg, host_leg, Mux, is_loader_request, after_write, after_reply, route_rounds,
}

-- The frames for the host, in order: what the runtime sent, without the requests to the loader
unfoldable pub for_host : List Round → List Frame
for_host [] = []
for_host (enclave_leg (ok f) w ∷ rounds) =
    let rest = for_host rounds in if is_loader_request f then rest else f ∷ rest
for_host (enclave_leg (err e) w ∷ rounds) = for_host rounds
for_host (enclave_leg panic w ∷ rounds) = for_host rounds
for_host (host_leg r w ∷ rounds) = for_host rounds

-- Every read gives a frame, and every write succeeds.
abbrev pub Works : List Round → Type 0
Works [] = Unit
Works (enclave_leg r w ∷ rounds) = ((f : Frame) × (r ≡ ok f)) × (w ≡ ok tt) × Works rounds
Works (host_leg r w ∷ rounds) = ((f : Frame) × (r ≡ ok f)) × (w ≡ ok tt) × Works rounds

-- `sent` is what goes to the enclave in these rounds: each frame of the host, and for each loader
-- request a reply with its sequence number, in the order of the rounds.
abbrev pub IsInbound : List Round → List Frame → Type 0
IsInbound [] sent = sent ≡ []
IsInbound (enclave_leg (ok f) w ∷ rounds) sent =
    ((is_loader_request f ≡ true)
      × (reply : Frame) × (rest : List Frame) × (sent ≡ reply ∷ rest)
      × (reply.op ≡ f.op ++ text "_result")
      × (reply.seq ≡ f.seq)
      × IsInbound rounds rest)
    ⊎ ((is_loader_request f ≡ false) × IsInbound rounds sent)
IsInbound (enclave_leg (err e) w ∷ rounds) sent = sent ≡ []
IsInbound (enclave_leg panic w ∷ rounds) sent = sent ≡ []
IsInbound (host_leg (ok f) w ∷ rounds) sent =
    (rest : List Frame) × (sent ≡ f ∷ rest) × IsInbound rounds rest
IsInbound (host_leg (err e) w ∷ rounds) sent = sent ≡ []
IsInbound (host_leg panic w ∷ rounds) sent = sent ≡ []

module _ {ℓ} {D : Type ℓ} where
  -- What was sent to the host is `before` and then the first of `frames`.
  abbrev Sent : List Frame → List Frame → Fallible (Unit {0}) × Mux D → Type 0
  Sent before frames after =
      (sent : List Frame) × (rest : List Frame) × (after.1.to_host ≡ before ++ sent)
      × (frames ≡ sent ++ rest)

  Sent-nothing :
      (frames : List Frame) (r : Fallible (Unit {0})) (mux : Mux D)
      → Sent mux.to_host frames (r, mux)
  Sent-nothing frames r mux = ([], frames, sym (append-nil mux.to_host), refl)

  Sent-one :
      (before frames : List Frame) (f : Frame) (after : Fallible (Unit {0}) × Mux D)
      → Sent (before ++ f ∷ []) frames after
      → Sent before (f ∷ frames) after
  Sent-one before frames f after (sent, rest, a, b) =
      (f ∷ sent, rest, a ∙ append_assoc before (f ∷ []) sent, ap (λ t. f ∷ t) b)

module _ {ℓ} {D : Type ℓ} ⦃plat : Platform⦄ ⦃machine : Machine D⦄ where
  Sent-after_write :
      (w : Fallible (Unit {0})) (unsent sent : Mux D) (frames : List Frame) (rounds : List Round)
      → Sent unsent.to_host frames (route_rounds rounds sent)
      → Sent unsent.to_host frames (after_write w unsent sent (route_rounds rounds))
  Sent-after_write (ok u) unsent sent frames rounds h = h
  Sent-after_write (err e) unsent sent frames rounds h = Sent-nothing frames (err e) unsent
  Sent-after_write panic unsent sent frames rounds h = Sent-nothing frames panic unsent

  Sent-forwarded :
      (f : Frame) (w : Fallible (Unit {0})) (rounds : List Round) (mux : Mux D)
      → ((m : Mux D) → Sent m.to_host (for_host rounds) (route_rounds rounds m))
      → Sent mux.to_host
          (f ∷ for_host rounds)
          (after_write w mux (record mux { to_host = mux.to_host ++ f ∷ [] }) (route_rounds rounds))
  Sent-forwarded f (ok u) rounds mux h =
      let next : Mux D = record mux { to_host = mux.to_host ++ f ∷ [] } in
      Sent-one mux.to_host (for_host rounds) f (route_rounds rounds next) (h next)
  Sent-forwarded f (err e) rounds mux h = Sent-nothing (f ∷ for_host rounds) (err e) mux
  Sent-forwarded f panic rounds mux h = Sent-nothing (f ∷ for_host rounds) panic mux

  Sent-replied :
      (r : Fallible Frame) (w : Fallible (Unit {0})) (rounds : List Round) (mux : Mux D)
      → ((m : Mux D) → Sent m.to_host (for_host rounds) (route_rounds rounds m))
      → Sent mux.to_host (for_host rounds) (after_reply r w mux (route_rounds rounds))
  Sent-replied (ok reply) w rounds mux h =
      let after : Mux D = record mux { to_enclave = mux.to_enclave ++ reply ∷ [] } in
      Sent-after_write w mux after (for_host rounds) rounds (h after)
  Sent-replied (err e) w rounds mux h = Sent-nothing (for_host rounds) (err e) mux
  Sent-replied panic w rounds mux h = Sent-nothing (for_host rounds) panic mux

  -- Whatever the order of the rounds and however they end, the host is sent the frames of the
  -- runtime in their order, without gaps, and never a request to the loader: what was sent is a
  -- first part of the frames that are for the host.
  pub route_rounds-forwards :
      (rounds : List Round) (mux : Mux D)
      → (sent : List Frame) × (rest : List Frame) × ((route_rounds rounds mux).1.to_host
          ≡ mux.to_host ++ sent)
        × (for_host rounds ≡ sent ++ rest)
  unfolding route_rounds for_host
  route_rounds-forwards [] mux = Sent-nothing [] (ok tt) mux
  route_rounds-forwards (enclave_leg (ok f) w ∷ rounds) mux =
      elim (Bool-cases (is_loader_request f)) [
        | inl q ↦ rw q (
            Sent-replied (handle_loader_op f mux.machine).0 w rounds
              (record mux { machine = (handle_loader_op f mux.machine).1 })
              (route_rounds-forwards rounds))
        | inr n ↦ rw n (Sent-forwarded f w rounds mux (route_rounds-forwards rounds))
      ]
  route_rounds-forwards (enclave_leg (err e) w ∷ rounds) mux =
      Sent-nothing (for_host rounds) (ok tt) mux
  route_rounds-forwards (enclave_leg panic w ∷ rounds) mux =
      Sent-nothing (for_host rounds) panic mux
  route_rounds-forwards (host_leg (ok f) w ∷ rounds) mux =
      Sent-after_write w mux (record mux { to_enclave = mux.to_enclave ++ f ∷ [] })
        (for_host rounds) rounds
        (route_rounds-forwards rounds (record mux { to_enclave = mux.to_enclave ++ f ∷ [] }))
  route_rounds-forwards (host_leg (err e) w ∷ rounds) mux =
      Sent-nothing (for_host rounds) (ok tt) mux
  route_rounds-forwards (host_leg panic w ∷ rounds) mux = Sent-nothing (for_host rounds) panic mux

module _ {ℓ} {D : Type ℓ} ⦃plat : Platform⦄ ⦃machine : Machine D⦄ where
  -- As long as every read and every write succeeds, and no call of the machine panics, the loop
  -- goes on through all its rounds; the host has been sent every frame that is for it, in order,
  -- and the enclave every frame of the host and one reply to each of its loader requests, with the
  -- request's sequence number, in the order of the rounds and nothing else.
  pub route_rounds-delivers :
      (rounds : List Round) (mux : Mux D)
      → CallsReturn plat machine
      → Works rounds
      → (after : Mux D) × (inbound : List Frame) × (route_rounds rounds mux ≡ (ok tt, after))
        × (after.to_host ≡ mux.to_host ++ for_host rounds)
        × (after.to_enclave ≡ mux.to_enclave ++ inbound)
        × IsInbound rounds inbound
  unfolding route_rounds for_host
  route_rounds-delivers [] mux calls works =
      (mux, [], refl, sym (append-nil mux.to_host), sym (append-nil mux.to_enclave), refl)
  route_rounds-delivers (enclave_leg (ok f) (ok u) ∷ rounds) mux calls works =
      elim (Bool-cases (is_loader_request f)) [
        | inl q ↦
            let (reply, made, o, s) = handle_loader_op-replies calls f mux.machine in
            let d = (handle_loader_op f mux.machine).1 in
            let next : Mux D = record mux {
              machine = d;
              to_enclave = mux.to_enclave ++ reply ∷ [];
            } in
            let (after, inbound, run, host, enclave, ib) =
              route_rounds-delivers rounds next calls works.2 in
            (
              after,
              reply ∷ inbound,
              rw (q, made) run,
              rw q host,
              enclave ∙ append_assoc mux.to_enclave (reply ∷ []) inbound,
              inl (q, reply, inbound, refl, o, s, ib),
            )
        | inr n ↦
            let next : Mux D = record mux { to_host = mux.to_host ++ f ∷ [] } in
            let (after, inbound, run, host, enclave, ib) =
              route_rounds-delivers rounds next calls works.2 in
            (
              after,
              inbound,
              rw n run,
              rw n (host ∙ append_assoc mux.to_host (f ∷ []) (for_host rounds)),
              enclave,
              inr (n, ib),
            )
      ]
  route_rounds-delivers (host_leg (ok f) (ok u) ∷ rounds) mux calls works =
      let next : Mux D = record mux { to_enclave = mux.to_enclave ++ f ∷ [] } in
      let (after, inbound, run, host, enclave, ib) =
        route_rounds-delivers rounds next calls works.2 in
      (
        after,
        f ∷ inbound,
        run,
        host,
        enclave ∙ append_assoc mux.to_enclave (f ∷ []) inbound,
        (inbound, refl, ib),
      )
  route_rounds-delivers (enclave_leg (err e) w ∷ rounds) mux calls works = cc works.0.1
  route_rounds-delivers (enclave_leg panic w ∷ rounds) mux calls works = cc works.0.1
  route_rounds-delivers (enclave_leg (ok f) (err e) ∷ rounds) mux calls works = cc works.1
  route_rounds-delivers (enclave_leg (ok f) panic ∷ rounds) mux calls works = cc works.1
  route_rounds-delivers (host_leg (err e) w ∷ rounds) mux calls works = cc works.0.1
  route_rounds-delivers (host_leg panic w ∷ rounds) mux calls works = cc works.0.1
  route_rounds-delivers (host_leg (ok f) (err e) ∷ rounds) mux calls works = cc works.1
  route_rounds-delivers (host_leg (ok f) panic ∷ rounds) mux calls works = cc works.1
