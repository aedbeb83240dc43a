-- ===== src/Runtime/Link.antt =====
-- The runtime's stream and what it reads of the outside: frames, the clock, random draws. What is
-- at the other end is an interface, so that the theorems hold for any peer, or for the loader.
pub mod Bind
pub mod Quiet
pub mod Replies
pub mod Steady
use tee_demo.Base.{
  ℕ, zero, ◌+◌, ◌%◌, ◌^◌, Bool, ◌&&◌, Option, none, some, List, [], ◌∷◌, ◌++◌, if◌then◌else◌, same,
  same_option, Outcome, Fallible, ok, err, panic,
}
use tee_demo.Base.State.{State, pure}
use tee_demo.Base.Bytes.{Text, text}
use tee_demo.Protocol.Frame.{Frame}
use tee_demo.Protocol.Platform.{Platform}

-- A peer takes a frame, or fails the write, and puts what the runtime will read next.
pub record Peer {ℓ} (P : Type ℓ) : Type ℓ where
  pub receive : Frame → P → Fallible (List (Fallible Frame)) × P

-- The stream, the counter `loader_seq`, and how often the clock and the generator were read
pub record Io {ℓ} (P : Type ℓ) : Type ℓ where
  pub peer : P
  pub inbox : List (Fallible Frame)
  pub sent : List Frame
  pub seq : ℕ
  pub readings : ℕ
  pub draws : ℕ

abbrev pub M {ℓ} : Type ℓ → Type 0 → Type ℓ
M P A = State (Io P) A

-- What `read_frame` returns at the end of the stream
abbrev pub end_of_stream : Text
end_of_stream = text "read len: failed to fill whole buffer"

-- The frame is in the mail, whatever the peer makes of it.
abbrev pub deliver {ℓ} :
    {P : Type ℓ} → Frame → Io P → Fallible (List (Fallible Frame)) × P → Fallible (Unit {0}) × Io P
deliver f io (ok replies, p) =
    (ok tt, record io { peer = p; inbox = io.inbox ++ replies; sent = io.sent ++ f ∷ [] })
deliver f io (err e, p) = (err e, record io { peer = p })
deliver f io (panic, p) = (panic, record io { peer = p })

module _ {ℓ} {P : Type ℓ} ⦃net : Peer P⦄ where
  unfoldable pub write_frame : Frame → M P (Unit {0})
  write_frame f io = deliver f io (net.receive f io.peer)

abbrev next_frame : List (Fallible Frame) → Fallible Frame × List (Fallible Frame)
next_frame [] = (err end_of_stream, [])
next_frame (r ∷ rest) = (r, rest)

-- `resp.op == op && resp.seq == Some(seq)`
abbrev pub answers : Text → ℕ → Frame → Bool
answers op seq f = same f.op op && same_option f.seq (some seq)

-- `loop { let resp = read_frame(stream)?; if resp answers { return … } }`: other frames are
-- dropped. The loop goes on as long as frames come in.
unfoldable pub await_in : Text → ℕ → List (Fallible Frame) → Fallible Frame × List (Fallible Frame)
await_in op seq [] = (err end_of_stream, [])
await_in op seq (ok f ∷ rest) = if answers op seq f then (ok f, rest) else await_in op seq rest
await_in op seq (err e ∷ rest) = (err e, rest)
await_in op seq (panic ∷ rest) = (panic, rest)

module _ {ℓ} {P : Type ℓ} where
  unfoldable pub read_frame : M P Frame
  read_frame io = let (r, rest) = next_frame io.inbox in (r, record io { inbox = rest })

  unfoldable pub next_seq : M P ℕ
  next_seq io = let s = (io.seq + 1) % 2 ^ 64 in (ok s, record io { seq = s })

  abbrev pub draw : M P ℕ
  draw io = (ok io.draws, record io { draws = io.draws + 1 })

  unfoldable pub await_reply : Text → ℕ → M P Frame
  unfolding await_in
  await_reply op seq io =
      let (r, rest) = await_in op seq io.inbox in (r, record io { inbox = rest })

module _ {ℓ} {P : Type ℓ} ⦃plat : Platform⦄ where
  abbrev pub now_secs : M P ℕ
  now_secs io = (ok (plat.now_secs io.readings), record io { readings = io.readings + 1 })

  -- `o.unwrap_or_else(now_secs)`
  abbrev pub or_now : Option ℕ → M P ℕ
  or_now none = now_secs
  or_now (some t) = pure t
