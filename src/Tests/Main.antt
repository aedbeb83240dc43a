-- ===== src/Tests/Main.antt =====
-- `serve` and `stop` from the command line, with the default paths.
use tee_demo.Base.{
  ℕ, ◌≡◌, refl, true, false, ◌||◌, Bool, Option, none, some, List, [], ◌∷◌, ◌++◌, arith, same,
  if◌then◌else◌, Fallible, ok, err,
}
use tee_demo.Base.Bytes.{Bytes, Text, text}
use tee_demo.Strings.Decimal.{show_nat}
use tee_demo.Strings.Search.{ends_with}
use tee_demo.Protocol.Frame
use tee_demo.Protocol.Frame.{Frame, op_host_ready, op_host_attestation_response}
use tee_demo.Host.Daemon
use tee_demo.Host.Process.{write_pid, serve_up}
use tee_demo.Host.Spawn.{Launcher, connected, start_loader, wait_loader}
use tee_demo.Host.Main.{
  Commands, serve, stop, Program, Outside, not_accepted, default_sock, default_enclave_sock,
  default_pid, default_interval_secs, default_initial_delay_secs, default_data_dir, default_sgxs,
  default_loader, default_sandbox_wrapper, run_command, serve_events, main,
}
use tee_demo.Host.Client.OneShot.{nonce_bytes}
use tee_demo.Protocol.Binding.{report_data_binding}
use tee_demo.KeyStore.Retention.{key_of}
use tee_demo.Host.Main.{attest, dev}
use tee_demo.Host.Main.Attests.{main_attests}
use tee_demo.Host.Connection.{RuntimeConnection, request_attestation}
use tee_demo.Host.Process.{exists}
use tee_demo.Protocol.Verify.{sgx_enclave, verify_quote_allow_debug}
use tee_demo.Protocol.Verify.Sound.{IsExpected}
use tee_demo.Base.{unwrap_or}
use tee_demo.Host.Main.Exit.{main_stops_served}
use tee_demo.Tests.Toy.{toy}
use tee_demo.Tests.Verify.{toy_dcap, expected, toy-b64}
use tee_demo.Tests.Process.{kernel}
use tee_demo.Tests.Client.{toy_surroundings}

abbrev root : Text
root = text "/r"

-- A loader that connects at once and sends the ready frame
instance abbrev quick_loader : Launcher
quick_loader = record {
  parent = λ path. none;
  project_root = root;
  set_nonblocking = λ b. ok tt;
  spawn = λ c. ok tt;
  start_time = 5;
  attempt = λ i. connected;
  clock = λ i. 7;
  stream = ok (Frame.new op_host_ready) ∷ [];
}

abbrev outside : Outside Bool
outside = record {
  behind = λ path. toy_surroundings;
  looks = 601;
  events = not_accepted ∷ [];
  wrote = ok tt;
}

-- `serve` and `stop` without options
abbrev serve_default : Commands
serve_default =
    serve (default_sgxs root) (default_loader root) default_sock default_enclave_sock default_pid
      false none none default_interval_secs default_initial_delay_secs default_data_dir false
      (default_sandbox_wrapper root)

abbrev stop_default : Commands
stop_default = stop default_sock default_enclave_sock default_pid

abbrev program : Program Bool
program = record {
  desk = record { daemon = true; printed = []; readings = 0; draws = 0 };
  system = record {
    files = λ q.
        if same q (text "/proc/42") || same q (default_sgxs root) || same q (default_loader root)
        then some []
        else none;
    signalled = [];
  };
  serving = none;
}

abbrev after : Program Bool
after = (main outside serve_default program).1

served : main outside serve_default program ≡ (0, after)
unfolding main run_command serve_up start_loader wait_loader write_pid same ends_with serve_events
    Daemon.start
served = refl

main_stops_served_example :
    (p2 : Program Bool) × (main outside stop_default after ≡ (0, p2))
    × (p2.system.signalled ≡ after.system.signalled ++ 42 ∷ [])
    × ((q : Text)
        → p2.system.files q ≡ (
            if same q default_pid || same q default_sock || same q default_enclave_sock
            then none
            else after.system.files q))
unfolding main run_command serve_up start_loader wait_loader write_pid same ends_with serve_events
    Daemon.start show_nat
main_stops_served_example =
    main_stops_served outside outside (default_sgxs root) (default_loader root) default_sock
      default_enclave_sock default_pid false none none default_interval_secs
      default_initial_delay_secs default_data_dir false (default_sandbox_wrapper root) program after
      (omega arith) refl served refl refl refl refl refl

-- A loader whose runtime answers the request for an attestation
abbrev quote : Bytes
quote = report_data_binding 2 (key_of 8 2).public_key (nonce_bytes none)

abbrev answering_loader : Launcher
answering_loader = record quick_loader {
  stream =
      ok (Frame.new op_host_ready)
      ∷ ok (record (Frame.new op_host_attestation_response) {
        id = some 1;
        ok = some true;
        key_version = some 2;
        public_key = some (key_of 8 2).public_key;
        quote = some quote;
        binding_nonce = some (nonce_bytes none);
      })
      ∷ [];
}

-- `attest` without options but the MRENCLAVE
abbrev attest_default : Commands
attest_default =
    attest (default_sgxs root) (default_loader root) default_enclave_sock none false none expected
      false (default_sandbox_wrapper root) default_data_dir

abbrev shown : Program Bool
shown = (main ⦃launcher = answering_loader⦄ outside attest_default program).1

shown-ok : main ⦃launcher = answering_loader⦄ outside attest_default program ≡ (0, shown)
unfolding main run_command start_loader wait_loader same ends_with Daemon.start
    tee_demo.Host.Client.OneShot.cmd_attest tee_demo.Host.Client.OneShot.ask
    tee_demo.Host.Connection.request_attestation tee_demo.Host.Connection.take_attestation
    tee_demo.Host.Client.verify_attestation_frame tee_demo.Protocol.Verify.verify_attestation
    tee_demo.Protocol.Verify.verify_quote_allow_debug tee_demo.Base.same_option
    tee_demo.Base.is_true report_data_binding tee_demo.Strings.Hex.hex_encode
    tee_demo.Base.Bytes.to_le_bytes tee_demo.Base.Bytes.from_le_bytes
    tee_demo.Strings.Search.to_lowercase
shown-ok = refl

main_attests_example :
    (exists default_enclave_sock program.system ≡ false)
    × (conn : RuntimeConnection) × (resp : Frame) × (pk_b64 : Text) × (q : Bytes)
    × (public_key : Bytes) × (mr_enclave : Bytes) × ((start_loader ⦃launcher = answering_loader⦄ 601
          (default_sgxs root)
          default_enclave_sock
          (default_loader root)
          (record (dev root) { expected_mrenclave = expected })
          program.system).0
        ≡ ok conn)
    × ((request_attestation (ok tt) (some (nonce_bytes none)) conn).0 ≡ ok resp)
    × (resp.public_key ≡ some pk_b64)
    × (toy.b64_decode pk_b64 ≡ ok public_key)
    × (verify_quote_allow_debug q
        ≡ ok (
            sgx_enclave mr_enclave
              (report_data_binding (unwrap_or 0 resp.key_version) public_key (nonce_bytes none))))
    × IsExpected mr_enclave expected
main_attests_example =
    main_attests ⦃launcher = answering_loader⦄ outside (default_sgxs root) (default_loader root)
      default_enclave_sock none false none expected false (default_sandbox_wrapper root)
      default_data_dir program shown toy-b64 shown-ok
