-- ===== src/Host/Spawn.antt =====
-- `RuntimeConnection::start` of host/src/main.rs: the loader is started, and awaited until it
-- connects. What the loader's process does is an interface.
pub mod Waits
use tee_demo.Base.{
  ℕ, zero, suc, ◌+◌, Bool, true, false, Option, none, some, List, [], ◌∷◌, ◌++◌, leb, if◌then◌else◌,
  unwrap_or, require, Outcome, Fallible, ok, err, panic,
}
use tee_demo.Base.State.{State, continue, ◌>>=◌, ◌>>◌, pure, lift}
use tee_demo.Base.Bytes.{Text, text}
use tee_demo.Protocol.Frame.{Frame}
use tee_demo.Host.Connection.{RuntimeConnection}
use tee_demo.Host.Daemon
use tee_demo.Host.Process.{System, Kernel, exists, check, remove_file, bind}

pub record LoaderConfig : Type 0 where
  pub production : Bool
  pub sig : Option Text
  pub expected_mrenclave : Option Text
  pub data_dir : Text
  pub sandbox : Bool
  pub sandbox_wrapper : Text

-- The command that is spawned: a wrapper with its variables, or the loader with its arguments
pub data LoaderCommand : Type 0 where
  wrapped : (wrapper : Text) → (env : List (Text × Text)) → LoaderCommand
  direct : (program : Text) → (args : List Text) → LoaderCommand

-- One look at the listener; a loader that has not connected is looked at itself.
pub data Attempt : Type 0 where
  connected : Attempt
  would_block : (exited : Fallible Bool) → Attempt
  failed : Text → Attempt

pub record Launcher : Type 0 where
  pub parent : Text → Option Text
  pub project_root : Text
  pub set_nonblocking : Bool → Fallible (Unit {0})
  pub spawn : LoaderCommand → Fallible (Unit {0})
  -- The looks, and the time in milliseconds of the deadline's start and of each look
  pub start_time : ℕ
  pub attempt : ℕ → Attempt
  pub clock : ℕ → ℕ
  -- What the loader's connection will send
  pub stream : List (Fallible Frame)

abbrev option_env : Text → Option Text → List (Text × Text)
option_env name none = []
option_env name (some value) = (name, value) ∷ []

abbrev option_arg : Text → Option Text → List Text
option_arg flag none = []
option_arg flag (some value) = flag ∷ value ∷ []

-- `LOADER_CONNECT_TIMEOUT`, in milliseconds
abbrev pub loader_connect_timeout : ℕ
loader_connect_timeout = 30000

module _ ⦃launcher : Launcher⦄ where
  abbrev pub sandbox_command : (sgxs runtime_sock loader_bin : Text) → LoaderConfig → LoaderCommand
  sandbox_command sgxs runtime_sock loader_bin cfg = wrapped cfg.sandbox_wrapper (
      (text "LOADER", loader_bin)
      ∷ (text "HOST_SOCK", runtime_sock)
      ∷ (text "SGXS", sgxs)
      ∷ (text "DATA_DIR", cfg.data_dir)
      ∷ (text "RUN_DIR", unwrap_or cfg.data_dir (launcher.parent runtime_sock))
      ∷ (text "TEE_ROOT", launcher.project_root)
      ∷ (text "PRODUCTION", if cfg.production then text "1" else text "0")
      ∷ (option_env (text "SIG") cfg.sig
          ++ option_env (text "EXPECTED_MRENCLAVE") cfg.expected_mrenclave))

  abbrev pub direct_command : (sgxs runtime_sock loader_bin : Text) → LoaderConfig → LoaderCommand
  direct_command sgxs runtime_sock loader_bin cfg = direct loader_bin (
      text "--host-socket"
      ∷ runtime_sock
      ∷ text "--data-dir"
      ∷ cfg.data_dir
      ∷ ((if cfg.production
            then text "--production"
              ∷ (option_arg (text "--sig") cfg.sig
                  ++ option_arg (text "--expected-mrenclave") cfg.expected_mrenclave)
            else [])
          ++ sgxs ∷ []))

  -- The child
  abbrev pub spawn_loader :
      (sgxs runtime_sock loader_bin : Text) → LoaderConfig → State System (Unit {0})
  spawn_loader sgxs runtime_sock loader_bin cfg =
      if cfg.sandbox
      then (do
        check (exists cfg.sandbox_wrapper) (
            text "sandbox wrapper missing: "
            ++ (cfg.sandbox_wrapper ++ text " (disable with --sandbox=false)"))
        lift (launcher.spawn (sandbox_command sgxs runtime_sock loader_bin cfg)))
      else lift (launcher.spawn (direct_command sgxs runtime_sock loader_bin cfg))

  -- After a look that found nothing: the result, if there is one, and whether the child was killed
  abbrev pub after_look :
      Fallible Bool
      → Bool
      → Option (Fallible (Unit {0}) × Bool)
      → Option (Fallible (Unit {0}) × Bool)
  after_look (ok true) late rest = some (err (text "loader exited early"), false)
  after_look (ok false) late rest =
      if late then some (err (text "timeout waiting for loader host leg"), true) else rest
  after_look (err e) late rest = some (err e, false)
  after_look panic late rest = some (panic, false)

  abbrev pub look :
      Attempt → Bool → Option (Fallible (Unit {0}) × Bool) → Option (Fallible (Unit {0}) × Bool)
  look connected late rest = some (ok tt, false)
  look (would_block exited) late rest = after_look exited late rest
  look (failed e) late rest = some (err e, false)

  -- The loop of looks from the `i`th, with fuel; `none` means that the fuel ran out.
  unfoldable pub wait_loader : ℕ → ℕ → Option (Fallible (Unit {0}) × Bool)
  wait_loader zero i = none
  wait_loader (suc fuel) i =
      let rest = wait_loader fuel (suc i) in
      look (launcher.attempt i)
        (leb (launcher.start_time + loader_connect_timeout) (launcher.clock i)) rest

  abbrev waited : Option (Fallible (Unit {0}) × Bool) → Fallible (Unit {0})
  waited none = err (text "out of fuel")
  waited (some (r, killed)) = r

  module _ ⦃kernel : Kernel⦄ where
    -- `fs::remove_file(path)?` of a file that is there
    abbrev remove_old : Text → State System (Unit {0})
    remove_old path s =
        if exists path s
        then (do lift (require (kernel.removable path) (text "remove")); remove_file path) s
        else (ok tt, s)

    unfoldable pub start_loader :
        (fuel : ℕ) (sgxs runtime_sock loader_bin : Text)
        → LoaderConfig
        → State System RuntimeConnection
    unfolding wait_loader Daemon.start
    start_loader fuel sgxs runtime_sock loader_bin cfg = do
      remove_old runtime_sock
      bind runtime_sock
      lift (launcher.set_nonblocking true)
      spawn_loader sgxs runtime_sock loader_bin cfg
      lift (waited (wait_loader fuel 0))
      lift (launcher.set_nonblocking false)
      lift (Daemon.start launcher.stream)
