-- ===== src/Runtime/Main.antt =====
-- `main` of runtime/src/main.rs.
use tee_demo.Base.{ℕ, ◌≡◌, refl, Fallible, ok, err, panic, Returns}
use tee_demo.Protocol.Platform.{Platform}
use tee_demo.Sealing.Safety.{SealingReturns}
use tee_demo.Runtime.Link.{Peer, Io}
use tee_demo.Runtime.Link.Steady.{StreamReturns, Calm}
use tee_demo.Runtime.Server.{Session, run_loop}
use tee_demo.Runtime.Server.Total.{CratesReturn}
use tee_demo.Runtime.Server.NoPanic.{run_loop-Returns}

-- What is left of a run: an error is logged.
abbrev logged : Fallible Session → Fallible (Unit {0})
logged (ok session) = ok tt
logged (err e) = ok tt
logged panic = panic

module _ {ℓ} {P : Type ℓ} ⦃plat : Platform⦄ ⦃net : Peer P⦄ where
  -- On the stream that `TcpStream::connect("worker-host")` gave, for a number of rounds of the loop;
  -- `expect` panics without one.
  unfoldable pub main : ℕ → Fallible (Io P) → Fallible (Unit {0})
  unfolding run_loop
  main rounds (ok io) = logged (run_loop rounds io).0
  main rounds (err e) = panic
  main rounds panic = panic

logged-ok : (r : Fallible Session) → Returns r → logged r ≡ ok tt
logged-ok (ok session) h = refl
logged-ok (err e) h = refl
logged-ok panic h = elim h [ ]

module _ {ℓ} {P : Type ℓ} ⦃plat : Platform⦄ ⦃net : Peer P⦄ (stream : StreamReturns net)
    (crates : CratesReturn) (sealing : SealingReturns plat) where
  -- Once the runtime is connected, its `main` does not panic, for any number of rounds of the loop,
  -- whatever the loader answers, whatever frames the host sends and whatever blob it is given as its
  -- sealed keys: it serves on, or logs an error and returns. The socket and the calls of the crates
  -- are assumed not to panic, `Nonce::from_slice` on 12 bytes only; additions of machine integers
  -- wrap, as in a release build.
  pub main_returns : (rounds : ℕ) (io : Io P) → Calm io.inbox → main rounds (ok io) ≡ ok tt
  unfolding main
  main_returns rounds io calm =
      logged-ok (run_loop rounds io).0 (run_loop-Returns stream crates sealing rounds io calm)
