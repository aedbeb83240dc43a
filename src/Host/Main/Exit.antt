-- ===== src/Host/Main/Exit.antt =====
-- `serve` and then `stop`, from the command line of host/src/main.rs to the files and the exit code.
use tee_demo.Base.{
  ℕ, ◌<◌, ◌^◌, ◌≡◌, refl, sym, ap, ◌∙◌, ◌||◌, Bool, true, false, Option, none, some, [], ◌∷◌, ◌++◌,
  same, if◌then◌else◌, arith, Fallible, ok, err, panic,
}
use tee_demo.Base.State.{bind-ok}
use tee_demo.Base.Bytes.{Text}
use tee_demo.Protocol.Platform.{Platform}
use tee_demo.Protocol.Verify.{Dcap}
use tee_demo.Host.Connection.{RuntimeConnection}
use tee_demo.Host.Process.{Kernel, is_running, serve_up}
use tee_demo.Host.Process.Stops.{cmd_stop-serve_up}
use tee_demo.Host.Spawn.{LoaderConfig, Launcher, start_loader}
use tee_demo.Host.Main.{
  serve, stop, Program, Outside, on_system, serving_with, serve_events, cmd_serve, run_command,
  exit_code, main,
}

-- Only a command that returned exits with 0.
pub exit_code-zero : (r : Fallible (Unit {0})) → exit_code r ≡ 0 → r ≡ ok tt
exit_code-zero (ok u) e = refl
exit_code-zero (err x) e = absurd (omega arith)
exit_code-zero panic e = absurd (omega arith)

module _ {ℓ} {D : Type ℓ} ⦃plat : Platform⦄ ⦃dcap : Dcap⦄ ⦃kernel : Kernel⦄
    ⦃launcher : Launcher⦄ where
  -- A daemon that serves has been started, and nothing else was done to the files.
  cmd_serve-serve_up :
      (outside : Outside D) (sgxs loader socket enclave_socket pid : Text) (cfg : LoaderConfig)
      (p p' : Program D) {u : Unit {0}}
      → cmd_serve outside sgxs loader socket enclave_socket pid cfg p ≡ (ok u, p')
      → (conn : RuntimeConnection) × (serve_up
            (start_loader outside.looks sgxs enclave_socket loader cfg)
            sgxs
            loader
            socket
            pid
            p.system
          ≡ (ok conn, p'.system))
        × (p'.serving ≡ some (serve_events outside.events conn))
  cmd_serve-serve_up outside sgxs loader socket enclave_socket pid cfg p p' e =
      let up =
        serve_up (start_loader outside.looks sgxs enclave_socket loader cfg) sgxs loader socket
          pid in
      let (conn, p1, started, e1) =
        bind-ok (on_system up) (λ c. serving_with (serve_events outside.events c)) p e in
      let same_system : p1.system ≡ p'.system =
        ap (λ (r : Fallible (Unit {0}) × Program D). r.1.system) e1 in
      (
        conn,
        (λ i. ((started i).0, (started i).1.system)) ∙ ap (λ s. (ok conn, s)) same_system,
        sym (ap (λ (r : Fallible (Unit {0}) × Program D). r.1.serving) e1),
      )

  -- From one command line to the next: if `serve` has come to serve, which is an exit code of 0 so
  -- far, then `stop` with the same paths exits with 0, after one signal to the daemon's pid, and
  -- the pid file and both sockets are gone while every other file is as it was. It holds for a pid
  -- of 32 bits that still runs, if `kill` succeeds, the three files can be removed and the pid file
  -- is not the client socket.
  pub main_stops_served :
      (outside outside' : Outside D) (sgxs loader socket enclave_socket pid : Text)
      (production : Bool) (sig expected_mrenclave : Option Text)
      (interval_secs initial_delay_secs : ℕ) (data_dir : Text) (sandbox : Bool)
      (sandbox_wrapper : Text) (p p1 : Program D)
      → kernel.own_pid < 2 ^ 32
      → same pid socket ≡ false
      → main outside
          (serve sgxs loader socket enclave_socket pid production sig expected_mrenclave
            interval_secs initial_delay_secs data_dir sandbox sandbox_wrapper)
          p
        ≡ (0, p1)
      → is_running kernel.own_pid p1.system ≡ true
      → kernel.kill kernel.own_pid ≡ ok tt
      → kernel.removable pid ≡ true
      → kernel.removable socket ≡ true
      → kernel.removable enclave_socket ≡ true
      → (p2 : Program D) × (main outside' (stop socket enclave_socket pid) p1 ≡ (0, p2))
        × (p2.system.signalled ≡ p1.system.signalled ++ kernel.own_pid ∷ [])
        × ((q : Text)
            → p2.system.files q ≡ (
                if same q pid || same q socket || same q enclave_socket
                then none
                else p1.system.files q))
  unfolding main run_command
  main_stops_served outside outside' sgxs loader socket enclave_socket pid production sig
        expected_mrenclave interval_secs initial_delay_secs data_dir sandbox sandbox_wrapper p p1
        small apart served alive killed r1 r2 r3 =
      let cfg : LoaderConfig = record {
        production = production;
        sig = sig;
        expected_mrenclave = expected_mrenclave;
        data_dir = data_dir;
        sandbox = sandbox;
        sandbox_wrapper = sandbox_wrapper;
      } in
      let ran = cmd_serve outside sgxs loader socket enclave_socket pid cfg p in
      let returned : ran.0 ≡ ok tt =
        exit_code-zero ran.0 (ap (λ (r : ℕ × Program D). r.0) served) in
      let up : ran ≡ (ok tt, p1) = λ i. (returned i, (served i).1) in
      let (conn, started, serving_conn) =
        cmd_serve-serve_up outside sgxs loader socket enclave_socket pid cfg p p1 up in
      let (s2, stopped, signalled, files) =
        cmd_stop-serve_up (start_loader outside.looks sgxs enclave_socket loader cfg) sgxs loader
          socket enclave_socket pid p.system p1.system conn small apart started alive killed r1 r2
          r3 in
      (record p1 { system = s2 }, rw stopped refl, signalled, files)
