-- ===== src/Host/Daemon.antt =====
-- The daemon of host/src/main.rs: the loop of `cmd_serve`, which takes one client after another, and
-- the thread of `spawn_attest_worker`, in any order on the connection that the mutex guards.
pub mod Moves
pub mod Ids
use tee_demo.Base.{
  ℕ, zero, suc, some, none, same, if◌then◌else◌, List, [], ◌∷◌, ◌++◌, Outcome, Fallible, ok, err,
  panic,
}
use tee_demo.Base.Bytes.{Text, text}
use tee_demo.Strings.Decimal.{show_nat}
use tee_demo.Protocol.Frame.{Frame, op_host_ready}
use tee_demo.Protocol.Platform.{Platform}
use tee_demo.Runtime.Link.{end_of_stream}
use tee_demo.Host.Connection.{RuntimeConnection, from_frame, request_attestation}
use tee_demo.Host.Clients.{Serving, handle_client}

-- The end of `RuntimeConnection::start`, on the stream of a loader that has connected: the first
-- frame is to be `host.Ready`.
abbrev ready_frame : Frame → List (Fallible Frame) → Fallible RuntimeConnection
ready_frame ready rest =
    if same ready.op op_host_ready
    then ok (record { inbox = rest; sent = []; next_id = 0; latest_bundle = from_frame ready })
    else err (text "expected host.Ready, got " ++ ready.op)

unfoldable pub start : List (Fallible Frame) → Fallible RuntimeConnection
start [] = err (text "wait host.Ready: " ++ end_of_stream)
start (ok ready ∷ rest) = ready_frame ready rest
start (err e ∷ rest) = err (text "wait host.Ready: " ++ e)
start (panic ∷ rest) = panic

module _ ⦃plat : Platform⦄ where
  -- One turn of the loop of `spawn_attest_worker`, at the time that the clock shows
  unfoldable pub attest_worker :
      Fallible (Unit {0}) → ℕ → RuntimeConnection → Fallible Frame × RuntimeConnection
  attest_worker w now = request_attestation w (some (text "attest-worker-" ++ show_nat now))

  -- One client of the loop of `cmd_serve`; its error is logged.
  unfoldable pub serve_client :
      Fallible (Unit {0})
      → Fallible (Unit {0})
      → Fallible Frame
      → RuntimeConnection
      → RuntimeConnection
  serve_client wr wc received conn =
      (handle_client wr wc received (record { runtime = conn; written = [] })).1.runtime

  -- Who has the mutex next, or a frame that comes in
  pub data Step (c : RuntimeConnection) : RuntimeConnection → Type 0 where
    client :
        (wr wc : Fallible (Unit {0})) (received : Fallible Frame)
        → Step c (serve_client wr wc received c)
    worker : (w : Fallible (Unit {0})) (now : ℕ) → Step c (attest_worker w now c).1
    arrival : (r : Fallible Frame) → Step c (record c { inbox = c.inbox ++ r ∷ [] })

  -- Reached after a number of steps
  pub data Reach (c : RuntimeConnection) : ℕ → RuntimeConnection → Type 0 where
    here : Reach c 0 c
    next : {n : ℕ} {d e : RuntimeConnection} → Reach c n d → Step d e → Reach c (suc n) e
