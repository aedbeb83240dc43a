-- ===== src/Runtime/Link/Bind.antt =====
-- What a write that returned has sent.
use tee_demo.Base.{◌≡◌, sym, ap, List, [], ◌∷◌, ◌++◌, Fallible, ok, err, panic}
use tee_demo.Protocol.Frame.{Frame}
use tee_demo.Runtime.Link.{Peer, Io, deliver, write_frame}

module _ {ℓ} {P : Type ℓ} ⦃net : Peer P⦄ where
  deliver-ok :
      (f : Frame) (io : Io P) (r : Fallible (List (Fallible Frame))) (p : P) {u : Unit {0}}
      {io' : Io P}
      → deliver f io (r, p) ≡ (ok u, io')
      → io'.sent ≡ io.sent ++ f ∷ []
  deliver-ok f io (ok replies) p e = sym (ap (λ (q : Fallible (Unit {0}) × Io P). q.1.sent) e)
  deliver-ok f io (err x) p e = cc (ap (λ (q : Fallible (Unit {0}) × Io P). q.0) e)
  deliver-ok f io panic p e = cc (ap (λ (q : Fallible (Unit {0}) × Io P). q.0) e)

  -- A write that succeeded sent its frame, behind those sent before.
  pub sent-write_frame :
      (f : Frame) (io : Io P) {u : Unit {0}} {io' : Io P}
      → write_frame f io ≡ (ok u, io')
      → io'.sent ≡ io.sent ++ f ∷ []
  unfolding write_frame
  sent-write_frame f io e = deliver-ok f io (net.receive f io.peer).0 (net.receive f io.peer).1 e
