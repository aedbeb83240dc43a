-- ===== src/Runtime/Link/Steady.antt =====
-- Actions that do not panic on a stream that does not, one rule for each way to build an action.
use tee_demo.Base.State.{continue, ◌>>=◌, lift, pure}
use tee_demo.Base.{
  ℕ, Bool, true, false, Option, none, some, List, [], ◌∷◌, if◌then◌else◌, All, All-append, Fallible,
  ok, err, panic, Returns, Bool-cases, inl, inr,
}
use tee_demo.Base.Bytes.{Text}
use tee_demo.Protocol.Frame.{Frame}
use tee_demo.Protocol.Platform.{Platform}
use tee_demo.Runtime.Link.{
  Peer, Io, M, deliver, write_frame, read_frame, answers, await_in, next_seq, await_reply, draw,
  now_secs, or_now,
}

-- What is read of the stream: frames and errors
abbrev pub Calm : List (Fallible Frame) → Type 0
Calm = All Returns

-- A write that did not panic, with what it puts into the stream
abbrev pub CalmWrite : Fallible (List (Fallible Frame)) → Type 0
CalmWrite (ok replies) = Calm replies
CalmWrite (err e) = Unit
CalmWrite panic = ⊥

-- The calls of the socket return, whatever the other end sends.
pub record StreamReturns {ℓ} {P : Type ℓ} (net : Peer P) : Type ℓ where
  pub receives : (f : Frame) (p : P) → CalmWrite (net.receive f p).0

-- `m` returns or fails, and the stream is as calm after it.
pub record Steady {ℓ} {P : Type ℓ} {A : Type 0} (m : M P A) : Type ℓ where
  pub at : (io : Io P) → Calm io.inbox → Returns (m io).0 × Calm (m io).1.inbox

module _ {ℓ} {P : Type ℓ} {A : Type 0} where
  pub Steady-lift : (r : Fallible A) → Returns r → Steady {P = P} (lift r)
  Steady-lift r h = record { at = λ io calm. (h, calm) }

  pub Steady-pure : (a : A) → Steady {P = P} (pure a)
  Steady-pure a = record { at = λ io calm. (tt, calm) }

  pub Steady-if : (b : Bool) (m n : M P A) → Steady m → Steady n → Steady (if b then m else n)
  Steady-if true m n hm hn = hm
  Steady-if false m n hm hn = hn

module _ {ℓ} {P : Type ℓ} {A B : Type 0} where
  Calm-continue :
      (r : Fallible A) (io : Io P) (f : A → M P B)
      → Returns r
      → Calm io.inbox
      → ((a : A) → Steady (f a))
      → Returns (continue (r, io) f).0 × Calm (continue (r, io) f).1.inbox
  Calm-continue (ok a) io f hr calm h = (h a).at io calm
  Calm-continue (err e) io f hr calm h = (tt, calm)
  Calm-continue panic io f hr calm h = elim hr [ ]

  pub Steady-bind :
      (m : M P A) (f : A → M P B) → Steady m → ((a : A) → Steady (f a)) → Steady (m >>= f)
  Steady-bind m f hm hf = record {
    at = λ io calm. let (r, c) = hm.at io calm in Calm-continue (m io).0 (m io).1 f r c hf;
  }

await_in-Calm :
    (op : Text) (seq : ℕ) (inbox : List (Fallible Frame))
    → Calm inbox
    → Returns (await_in op seq inbox).0 × Calm (await_in op seq inbox).1
unfolding await_in
await_in-Calm op seq [] h = (tt, tt)
await_in-Calm op seq (ok f ∷ rest) (hf, h) = elim (Bool-cases (answers op seq f)) [
  | inl a ↦ rw a (tt, h)
  | inr n ↦ rw n (await_in-Calm op seq rest h)
]
await_in-Calm op seq (err e ∷ rest) (hf, h) = (tt, h)
await_in-Calm op seq (panic ∷ rest) (hf, h) = elim hf [ ]

module _ {ℓ} {P : Type ℓ} where
  pub Steady-next_seq : Steady {P = P} next_seq
  unfolding next_seq
  Steady-next_seq = record { at = λ io calm. (tt, calm) }

  pub Steady-draw : Steady {P = P} draw
  Steady-draw = record { at = λ io calm. (tt, calm) }

  pub Steady-await_reply : (op : Text) (seq : ℕ) → Steady {P = P} (await_reply op seq)
  unfolding await_reply
  Steady-await_reply op seq = record { at = λ io calm. await_in-Calm op seq io.inbox calm }

  read-Calm :
      (inbox : List (Fallible Frame)) (io : Io P)
      → Calm inbox
      → Returns (read_frame (record io { inbox = inbox })).0
        × Calm (read_frame (record io { inbox = inbox })).1.inbox
  unfolding read_frame
  read-Calm [] io h = (tt, tt)
  read-Calm (r ∷ rest) io h = h

  pub Steady-read_frame : Steady {P = P} read_frame
  Steady-read_frame = record { at = λ io calm. read-Calm io.inbox io calm }

  pub Steady-now_secs : ⦃plat : Platform⦄ → Steady {P = P} now_secs
  Steady-now_secs = record { at = λ io calm. (tt, calm) }

  pub Steady-or_now : ⦃plat : Platform⦄ (o : Option ℕ) → Steady {P = P} (or_now o)
  Steady-or_now none = record { at = λ io calm. (tt, calm) }
  Steady-or_now (some t) = record { at = λ io calm. (tt, calm) }

pub ruleset steady_rules = (
  Steady-bind, Steady-if, Steady-lift, Steady-pure, Steady-next_seq, Steady-await_reply,
  Steady-or_now, Steady-now_secs, Steady-draw,
)

module _ {ℓ} {P : Type ℓ} where
  deliver-Calm :
      (f : Frame) (io : Io P) (r : Fallible (List (Fallible Frame))) (p : P)
      → CalmWrite r
      → Calm io.inbox
      → Returns (deliver f io (r, p)).0 × Calm (deliver f io (r, p)).1.inbox
  deliver-Calm f io (ok replies) p h calm = (tt, All-append Returns io.inbox replies calm h)
  deliver-Calm f io (err e) p h calm = (tt, calm)
  deliver-Calm f io panic p h calm = elim h [ ]

module _ {ℓ} {P : Type ℓ} ⦃net : Peer P⦄ (stream : StreamReturns net) where
  pub Steady-write_frame : (f : Frame) → Steady {P = P} (write_frame f)
  unfolding write_frame
  Steady-write_frame f = record {
    at = λ io calm.
        deliver-Calm f io (net.receive f io.peer).0 (net.receive f io.peer).1
          (stream.receives f io.peer) calm;
  }
