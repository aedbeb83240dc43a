-- ===== src/Host/Main.antt =====
-- The subcommands of host/src/main.rs with their default values, and `main` on a parsed command.
pub mod Exit
pub mod Attests
use mathlib.Core.Option
use tee_demo.Base.{
  ℕ, zero, suc, Bool, true, false, Option, none, some, List, [], ◌∷◌, ◌++◌, ◌||◌, same,
  if◌then◌else◌, unwrap, Outcome, Fallible, ok, err, panic,
}
use tee_demo.Base.Result
use tee_demo.Base.State.{State, ◌>>=◌, ◌>>◌, pure}
use tee_demo.Base.Bytes.{Bytes, Text, text}
use tee_demo.Base.Int.{ℤ}
use tee_demo.Strings.Search.{ends_with}
use tee_demo.Protocol.Frame.{Frame}
use tee_demo.Protocol.Platform.{Platform}
use tee_demo.Protocol.Verify.{Dcap}
use tee_demo.Host.Connection.{RuntimeConnection}
use tee_demo.Host.Daemon.{serve_client, attest_worker}
use tee_demo.Host.Process.{System, Kernel, cmd_stop, serve_up}
use tee_demo.Host.Spawn.{LoaderConfig, Launcher, start_loader}
use tee_demo.Host.Client.{Desk, Surroundings}
use tee_demo.Host.Client.Commands.{cmd_calc, cmd_challenge, cmd_pubkey, cmd_rotate}
use tee_demo.Host.Client.OneShot.{Shot, cmd_attest}

abbrev pub default_sock : Text
default_sock = text "/tmp/tee-demo.sock"

abbrev pub default_enclave_sock : Text
default_enclave_sock = text "/tmp/tee-demo-enclave.sock"

abbrev pub default_pid : Text
default_pid = text "/tmp/tee-demo.pid"

abbrev pub default_interval_secs : ℕ
default_interval_secs = 3600

abbrev pub default_initial_delay_secs : ℕ
default_initial_delay_secs = 0

-- `default_value = "/tmp/tee-demo-data"`
abbrev pub default_data_dir : Text
default_data_dir = text "/tmp/tee-demo-data"

-- `Path::join` with a relative path
abbrev join_path : Text → Text → Text
join_path root rest =
    if same root [] || ends_with root (text "/") then root ++ rest else root ++ (text "/" ++ rest)

-- The variable TEE_PROJECT_ROOT if it is set, or the parent of the directory of the crate
abbrev pub project_root : Option Text → Option Text → Fallible Text
project_root (some root) parent = ok root
project_root none parent = unwrap parent

abbrev pub default_sgxs : Text → Text
default_sgxs root = join_path root (text "target/x86_64-fortanix-unknown-sgx/release/tee-demo.sgxs")

abbrev pub default_loader : Text → Text
default_loader root =
    join_path root (text "target/x86_64-unknown-linux-gnu/release/tee-demo-loader")

abbrev pub default_sandbox_wrapper : Text → Text
default_sandbox_wrapper root = join_path root (text "deploy/loader-sandbox.sh")

-- `LoaderConfig::dev`
abbrev pub dev : Text → LoaderConfig
dev root = record {
  production = false;
  sig = none;
  expected_mrenclave = none;
  data_dir = default_data_dir;
  sandbox = false;
  sandbox_wrapper = default_sandbox_wrapper root;
}

-- What `Cli::parse` gives
pub data Commands : Type 0 where
  serve :
      (sgxs loader socket enclave_socket pid : Text) (production : Bool)
      (sig expected_mrenclave : Option Text) (interval_secs initial_delay_secs : ℕ)
      (data_dir : Text) (sandbox : Bool) (sandbox_wrapper : Text)
      → Commands
  calc : (x y : ℤ) (socket : Text) (expected_mrenclave : Option Text) → Commands
  pubkey : (socket : Text) → Commands
  challenge : (socket : Text) (nonce expected_mrenclave : Option Text) → Commands
  rotate : (socket : Text) → Commands
  attest :
      (sgxs loader enclave_socket : Text) (nonce : Option Text) (production : Bool)
      (sig expected_mrenclave : Option Text) (sandbox : Bool) (sandbox_wrapper data_dir : Text)
      → Commands
  stop : (socket enclave_socket pid : Text) → Commands

-- What happens while the daemon serves: a client with what it sends and what the two writes for it
-- give, a connection that fails, a turn of the attestation thread, or a frame of the runtime
pub data Event : Type 0 where
  accepted : (wr wc : Fallible (Unit {0})) (received : Fallible Frame) → Event
  not_accepted : Event
  attested : (w : Fallible (Unit {0})) (now : ℕ) → Event
  arrived : (r : Fallible Frame) → Event

pub record Program {ℓ} (D : Type ℓ) : Type ℓ where
  pub desk : Desk D
  pub system : System
  pub serving : Option RuntimeConnection

-- The daemons behind the sockets, how often the loader is looked at, what happens while the daemon
-- serves, and the write of the request of `attest`
pub record Outside {ℓ} (D : Type ℓ) : Type ℓ where
  pub behind : Text → Surroundings D
  pub looks : ℕ
  pub events : List Event
  pub wrote : Fallible (Unit {0})

module _ ⦃plat : Platform⦄ where
  -- One turn of the loop of `cmd_serve`, or of the thread beside it
  abbrev pub turn : Event → RuntimeConnection → RuntimeConnection
  turn (accepted wr wc received) conn = serve_client wr wc received conn
  turn not_accepted conn = conn
  turn (attested w now) conn = (attest_worker w now conn).1
  turn (arrived r) conn = record conn { inbox = conn.inbox ++ r ∷ [] }

  unfoldable pub serve_events : List Event → RuntimeConnection → RuntimeConnection
  unfolding serve_client attest_worker
  serve_events [] conn = conn
  serve_events (e ∷ events) conn = serve_events events (turn e conn)

module _ {ℓ} {D : Type ℓ} where
  abbrev pub on_desk : State (Desk D) (Unit {0}) → State (Program D) (Unit {0})
  on_desk m p = let (r, d) = m p.desk in (r, record p { desk = d })

  abbrev pub on_system : {A : Type 0} → State System A → State (Program D) A
  on_system m p = let (r, s) = m p.system in (r, record p { system = s })

  -- A command with a runtime of its own: it prints, and leaves no connection.
  abbrev pub on_shot : State Shot (Unit {0}) → State (Program D) (Unit {0})
  on_shot m p =
      let start : Shot = record {
        desk = record {
          daemon = none;
          printed = p.desk.printed;
          readings = p.desk.readings;
          draws = p.desk.draws;
        };
        system = p.system;
      } in
      let (r, s) = m start in
      (
        r,
        record p {
          desk = record (p.desk) {
            printed = s.desk.printed;
            readings = s.desk.readings;
            draws = s.desk.draws;
          };
          system = s.system;
        },
      )

  abbrev pub serving_with : RuntimeConnection → State (Program D) (Unit {0})
  serving_with conn p = (ok tt, record p { serving = some conn })

module _ {ℓ} {D : Type ℓ} ⦃plat : Platform⦄ ⦃dcap : Dcap⦄ ⦃kernel : Kernel⦄ ⦃launcher : Launcher⦄
    (outside : Outside D) where
  -- The clients are served until the process is killed.
  abbrev pub cmd_serve :
      (sgxs loader socket enclave_socket pid : Text) → LoaderConfig → State (Program D) (Unit {0})
  cmd_serve sgxs loader socket enclave_socket pid cfg = do
    runtime ← on_system (
        serve_up (start_loader outside.looks sgxs enclave_socket loader cfg) sgxs loader socket pid)
    serving_with (serve_events outside.events runtime)

  -- `match cli.command`
  unfoldable pub run_command : Commands → State (Program D) (Unit {0})
  unfolding cmd_calc cmd_pubkey cmd_challenge cmd_rotate cmd_attest cmd_stop serve_up start_loader
      serve_events
  run_command
        (serve sgxs loader socket enclave_socket pid production sig expected_mrenclave interval_secs
          initial_delay_secs data_dir sandbox sandbox_wrapper) =
      cmd_serve sgxs loader socket enclave_socket pid (record {
        production = production;
        sig = sig;
        expected_mrenclave = expected_mrenclave;
        data_dir = data_dir;
        sandbox = sandbox;
        sandbox_wrapper = sandbox_wrapper;
      })
  run_command (calc x y socket expected_mrenclave) =
      on_desk (cmd_calc ⦃around = outside.behind socket⦄ x y expected_mrenclave)
  run_command (pubkey socket) = on_desk (cmd_pubkey ⦃around = outside.behind socket⦄)
  run_command (challenge socket nonce expected_mrenclave) =
      on_desk (cmd_challenge ⦃around = outside.behind socket⦄ nonce expected_mrenclave)
  run_command (rotate socket) = on_desk (cmd_rotate ⦃around = outside.behind socket⦄)
  run_command
        (attest sgxs loader enclave_socket nonce production sig expected_mrenclave sandbox
          sandbox_wrapper data_dir) =
      on_shot (
        cmd_attest
          (start_loader outside.looks sgxs enclave_socket loader (record {
            production = production;
            sig = sig;
            expected_mrenclave = expected_mrenclave;
            data_dir = data_dir;
            sandbox = sandbox;
            sandbox_wrapper = sandbox_wrapper;
          }))
          outside.wrote enclave_socket nonce expected_mrenclave)
  run_command (stop socket enclave_socket pid) = on_system (cmd_stop socket enclave_socket pid)

-- The exit code: 1 after an error, 101 after a panic
abbrev pub exit_code : Fallible (Unit {0}) → ℕ
exit_code (ok u) = 0
exit_code (err e) = 1
exit_code panic = 101

module _ {ℓ} {D : Type ℓ} ⦃plat : Platform⦄ ⦃dcap : Dcap⦄ ⦃kernel : Kernel⦄
    ⦃launcher : Launcher⦄ where
  unfoldable pub main : Outside D → Commands → Program D → ℕ × Program D
  unfolding run_command
  main outside command p = let (r, after) = run_command outside command p in (exit_code r, after)
