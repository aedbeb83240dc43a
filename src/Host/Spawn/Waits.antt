-- ===== src/Host/Spawn/Waits.antt =====
-- The wait for the loader ends.
use tee_demo.Base.{
  ℕ, zero, suc, ◌+◌, ◌*◌, ◌≤◌, ◌<◌, ◌≡◌, ◌≢◌, ◌⊎◌, refl, inl, inr, Bool, true, false, Option, some,
  arith, leb, Fallible, ok, err, panic,
}
use tee_demo.Base.Bytes.{Text, text}
use tee_demo.Host.Spawn.{
  Attempt, connected, would_block, failed, Launcher, loader_connect_timeout, after_look, look,
  wait_loader,
}

abbrev pub late_error : Text
late_error = text "timeout waiting for loader host leg"

module _ ⦃launcher : Launcher⦄ where
  -- A wait that has ended: the loader has connected, or time was up and the child was killed, or
  -- there is an error and the child was not killed.
  abbrev pub Ended : Option (Fallible (Unit {0}) × Bool) → Type 0
  Ended o =
      (r : Fallible (Unit {0})) × (killed : Bool) × (o ≡ some (r, killed))
      × (((r ≡ ok tt) × (killed ≡ false) × (i : ℕ) × (launcher.attempt i ≡ connected))
          ⊎ (((r ≡ err late_error) × (killed ≡ true)) ⊎ ((r ≢ ok tt) × (killed ≡ false))))

  after_look-Ended :
      (exited : Fallible Bool) (late : Bool) (rest : Option (Fallible (Unit {0}) × Bool))
      → (late ≡ false → Ended rest)
      → Ended (after_look exited late rest)
  after_look-Ended (ok true) late rest h = (_, _, refl, inr (inr ((λ e. cc e), refl)))
  after_look-Ended (ok false) true rest h = (_, _, refl, inr (inl (refl, refl)))
  after_look-Ended (ok false) false rest h = h refl
  after_look-Ended (err x) late rest h = (_, _, refl, inr (inr ((λ e. cc e), refl)))
  after_look-Ended panic late rest h = (_, _, refl, inr (inr ((λ e. cc e), refl)))

  look-Ended :
      (i : ℕ) (a : Attempt) (late : Bool) (rest : Option (Fallible (Unit {0}) × Bool))
      → launcher.attempt i ≡ a
      → (late ≡ false → Ended rest)
      → Ended (look a late rest)
  look-Ended i connected late rest at h = (_, _, refl, inl (refl, refl, i, at))
  look-Ended i (would_block exited) late rest at h = after_look-Ended exited late rest h
  look-Ended i (failed x) late rest at h = (_, _, refl, inr (inr ((λ e. cc e), refl)))

  not_late : (a b : ℕ) → leb a b ≡ false → b < a
  not_late a b h = ground arith

  wait_loader-Ended :
      (fuel i : ℕ)
      → ((n : ℕ) → launcher.clock n + 50 ≤ launcher.clock (suc n))
      → launcher.start_time + loader_connect_timeout ≤ launcher.clock i + 50 * fuel
      → Ended (wait_loader (suc fuel) i)
  unfolding wait_loader
  wait_loader-Ended zero i sleeps h = look-Ended i (launcher.attempt i) _ _ refl λ early. absurd (
      omega
        (arith, not_late (launcher.start_time + loader_connect_timeout) (launcher.clock i) early))
  wait_loader-Ended (suc fuel) i sleeps h =
      look-Ended i (launcher.attempt i) _ _ refl
        λ early. wait_loader-Ended fuel (suc i) sleeps (omega (arith, sleeps i))

  -- The daemon does not wait for its loader for ever: if each look comes at least 50 milliseconds
  -- after the one before, as the sleep in the loop makes it, then the wait ends within 601 looks:
  -- the loader has connected, or time was up and the child was killed, or there is an error and
  -- the child was not killed.
  pub wait_loader-ends :
      launcher.start_time ≤ launcher.clock 0
      → ((n : ℕ) → launcher.clock n + 50 ≤ launcher.clock (suc n))
      → (r : Fallible (Unit {0})) × (killed : Bool) × (wait_loader 601 0 ≡ some (r, killed))
        × (((r ≡ ok tt) × (killed ≡ false) × (i : ℕ) × (launcher.attempt i ≡ connected))
            ⊎ (((r ≡ err late_error) × (killed ≡ true)) ⊎ ((r ≢ ok tt) × (killed ≡ false))))
  wait_loader-ends started sleeps = wait_loader-Ended 600 0 sleeps (omega arith)
