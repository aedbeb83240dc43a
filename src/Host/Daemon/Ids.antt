-- ===== src/Host/Daemon/Ids.antt =====
-- The ids of the daemon's requests.
use tee_demo.Base.{ℕ, zero, suc, ◌+◌, ◌^◌, ◌≤◌, ◌<◌, ◌≡◌, ap, ◌∙◌, some, List, [], ◌∷◌, ◌++◌, arith}
use tee_demo.Protocol.Frame.{Frame}
use tee_demo.Protocol.Platform.{Platform}
use tee_demo.Host.Connection.{RuntimeConnection, fresh_id}
use tee_demo.Host.Daemon.{Reach, here, next}
use tee_demo.Host.Daemon.Moves.{Advances, idle, unsent, asked, Step-Advances}

-- Each frame has an id, the ids go up, from above `lo` to at most `hi`.
abbrev pub InOrder : ℕ → ℕ → List Frame → Type 0
InOrder lo hi [] = lo ≤ hi
InOrder lo hi (f ∷ fs) = (id : ℕ) × (f.id ≡ some id) × (lo < id) × InOrder id hi fs

InOrder-wider : (lo hi hi' : ℕ) (fs : List Frame) → hi ≤ hi' → InOrder lo hi fs → InOrder lo hi' fs
InOrder-wider lo hi hi' [] h o = omega arith
InOrder-wider lo hi hi' (f ∷ fs) h (id, i, l, o) = (id, i, l, InOrder-wider id hi hi' fs h o)

InOrder-append :
    (lo hi id : ℕ) (fs : List Frame) (f : Frame)
    → f.id ≡ some id
    → hi < id
    → InOrder lo hi fs
    → InOrder lo id (fs ++ f ∷ [])
InOrder-append lo hi id [] f i l o = (id, i, omega arith, omega arith)
InOrder-append lo hi id (g ∷ fs) f i l (gid, gi, gl, o) =
    (gid, gi, gl, InOrder-append gid hi id fs f i l o)

-- The ids up to the counter, which counts the steps at most
abbrev pub IdsInOrder : ℕ → RuntimeConnection → Type 0
IdsInOrder n c = InOrder 0 c.next_id c.sent × (c.next_id ≤ n)

Advances-IdsInOrder :
    (n : ℕ) (c d : RuntimeConnection)
    → n + 1 < 2 ^ 64
    → IdsInOrder n c
    → Advances c d
    → IdsInOrder (suc n) d
Advances-IdsInOrder n c d h (o, le) (idle e s) = rw (e, s) (o, omega arith)
Advances-IdsInOrder n c d h (o, le) (unsent e s) =
    let up : fresh_id c ≡ c.next_id + 1 = omega arith in
    rw (e, s, up) (InOrder-wider 0 c.next_id (c.next_id + 1) c.sent (omega arith) o, omega arith)
Advances-IdsInOrder n c d h (o, le) (asked f i e s) =
    let up : fresh_id c ≡ c.next_id + 1 = omega arith in
    rw (e, s, up)
      (
        InOrder-append 0 c.next_id (c.next_id + 1) c.sent f (i ∙ ap some up) (omega arith) o,
        omega arith,
      )

module _ ⦃plat : Platform⦄ where
  -- However clients, the attestation worker and incoming frames follow on each other, from a
  -- connection that has sent nothing: the requests that the daemon has sent to the runtime have
  -- ids that go up strictly, so no two of them share one, and the counter of ids is the last of
  -- them at least, and at most the number of steps. For fewer steps than a u64 counts.
  pub Reach-IdsInOrder :
      (c d : RuntimeConnection) (n : ℕ)
      → c.sent ≡ []
      → c.next_id ≡ 0
      → n < 2 ^ 64
      → Reach c n d
      → IdsInOrder n d
  Reach-IdsInOrder c d zero e z h here = rw (e, z) (omega arith, omega arith)
  Reach-IdsInOrder c d (suc n) e z h (next {d = m} r st) =
      Advances-IdsInOrder n m d (omega arith) (Reach-IdsInOrder c m n e z (omega arith) r)
        (Step-Advances st)
