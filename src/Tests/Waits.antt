-- ===== src/Tests/Waits.antt =====
-- The wait for a loader that connects at the third look.
use tee_demo.Base.{
  ℕ, ◌+◌, ◌*◌, ◌≡◌, ◌≢◌, ◌⊎◌, Bool, true, false, some, none, [], arith, ltb, if◌then◌else◌,
  Fallible, ok, err,
}
use tee_demo.Base.Bytes.{text}
use tee_demo.Host.Spawn.{connected, would_block, Launcher, wait_loader}
use tee_demo.Host.Spawn.Waits.{late_error, wait_loader-ends}

instance abbrev slow_loader : Launcher
slow_loader = record {
  parent = λ path. none;
  project_root = text "root";
  set_nonblocking = λ b. ok tt;
  spawn = λ c. ok tt;
  start_time = 5;
  attempt = λ i. if ltb i 2 then would_block (ok false) else connected;
  clock = λ i. 7 + 50 * i;
  stream = [];
}

wait_loader-ends_example :
    (r : Fallible (Unit {0})) × (killed : Bool) × (wait_loader 601 0 ≡ some (r, killed))
    × (((r ≡ ok tt) × (killed ≡ false) × (i : ℕ) × (slow_loader.attempt i ≡ connected))
        ⊎ (((r ≡ err late_error) × (killed ≡ true)) ⊎ ((r ≢ ok tt) × (killed ≡ false))))
wait_loader-ends_example = wait_loader-ends (omega arith) (λ n. omega arith)
