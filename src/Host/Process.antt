-- ===== src/Host/Process.antt =====
-- The files and processes that host/src/main.rs starts and stops the daemon with: `write_pid`,
-- `read_pid`, `is_running`, the start of `cmd_serve`, and `cmd_stop`.
pub mod Stops
use tee_demo.Base.{
  ℕ, Bool, true, false, Option, none, some, List, [], ◌∷◌, ◌++◌, same, if◌then◌else◌, not, ok_or,
  map_err, require, Outcome, Fallible, ok, err, panic,
}
use tee_demo.Base.Result
use tee_demo.Base.State.{State, continue, ◌>>=◌, ◌>>◌, pure, lift}
use tee_demo.Base.Bytes.{Bytes, Text, text}
use tee_demo.Strings.Decimal.{show_nat, parse_u32}
use tee_demo.Strings.Trim.{trim}
use tee_demo.Strings.Utf8.{from_utf8}
use tee_demo.Host.Connection.{RuntimeConnection}

-- The content of each path; a socket is a file without content.
pub record System : Type 0 where
  pub files : Text → Option Bytes
  pub signalled : List ℕ

-- What the operating system gives, the same at each call
pub record Kernel : Type 0 where
  pub own_pid : ℕ
  pub write : Text → Fallible (Unit {0})
  pub removable : Text → Bool
  -- `UnixListener::bind`
  pub bind : Text → Fallible (Unit {0})
  -- The command `kill`
  pub kill : ℕ → Fallible (Unit {0})

abbrev pub is_some : Option Bytes → Bool
is_some none = false
is_some (some bytes) = true

abbrev pub exists : Text → System → Bool
exists path s = is_some (s.files path)

abbrev pub set_file : Text → Option Bytes → System → System
set_file path content s = record s { files = λ q. if same q path then content else s.files q }

abbrev pub is_running : ℕ → System → Bool
is_running pid s = exists (text "/proc/" ++ show_nat pid) s

-- A file that may be there
abbrev pub when_exists : Text → State System (Unit {0}) → State System (Unit {0})
when_exists path m s = if exists path s then m s else (ok tt, s)

-- The text of a parse error is not that of Rust.
abbrev pub pid_of : Option Bytes → Fallible ℕ
pid_of none = err (text "No such file or directory")
pid_of (some bytes) =
    Result.◌>>=◌ (map_err (λ e. text "stream did not contain valid UTF-8") (from_utf8 bytes))
      (λ content. ok_or (text "invalid pid") (parse_u32 (trim content)))

unfoldable pub read_pid : Text → State System ℕ
unfolding from_utf8 trim parse_u32
read_pid path s = lift (pid_of (s.files path)) s

-- A test of the files, or an error
abbrev pub check : (System → Bool) → Text → State System (Unit {0})
check test e s = (require (test s) e, s)

module _ ⦃kernel : Kernel⦄ where
  -- What a write, if it succeeds, leaves
  abbrev pub written : Fallible (Unit {0}) → System → System → Fallible (Unit {0}) × System
  written (ok u) s after = (ok tt, after)
  written (err e) s after = (err e, s)
  written panic s after = (panic, s)

  unfoldable pub write_pid : Text → State System (Unit {0})
  write_pid path s =
      written (kernel.write path) s (set_file path (some (show_nat kernel.own_pid)) s)

  -- `let _ = fs::remove_file(path)`
  abbrev pub remove_file : Text → State System (Unit {0})
  remove_file path s = (ok tt, if kernel.removable path then set_file path none s else s)

  abbrev pub bind : Text → State System (Unit {0})
  bind path s = written (kernel.bind path) s (set_file path (some []) s)

  abbrev pub kill : ℕ → State System (Unit {0})
  kill pid s = written (kernel.kill pid) s (record s { signalled = s.signalled ++ pid ∷ [] })

  abbrev pub kill_running : ℕ → State System (Unit {0})
  kill_running pid s = if is_running pid s then kill pid s else (ok tt, s)

  unfoldable pub cmd_stop : Text → Text → Text → State System (Unit {0})
  unfolding read_pid
  cmd_stop socket_path runtime_sock pid_path = do
    when_exists pid_path (do pid ← read_pid pid_path; kill_running pid; remove_file pid_path)
    when_exists socket_path (remove_file socket_path)
    when_exists runtime_sock (remove_file runtime_sock)

  -- `cmd_serve` up to its loop, with `RuntimeConnection::start` as an argument
  unfoldable pub serve_up :
      State System RuntimeConnection
      → (sgxs loader_bin socket_path pid_path : Text) → State System RuntimeConnection
  serve_up start sgxs loader_bin socket_path pid_path = do
    check (λ s. not (exists socket_path s))
        (text "client socket exists: " ++ (socket_path ++ text ", run stop first"))
    check (exists loader_bin) (text "loader not built: " ++ loader_bin)
    check (exists sgxs) (text "sgxs not found: " ++ sgxs)
    runtime ← start
    write_pid pid_path
    bind socket_path
    pure runtime
