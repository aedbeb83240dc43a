-- ===== src/Host/Main/Attests.antt =====
-- `attest`, from the command line of host/src/main.rs to its exit code.
use tee_demo.Base.{ℕ, ◌≡◌, ap, Bool, Option, none, some, false, unwrap_or, ok}
use tee_demo.Base.Bytes.{Bytes, Text}
use tee_demo.Protocol.Frame.{Frame}
use tee_demo.Protocol.Platform.{Platform}
use tee_demo.Protocol.Binding.{report_data_binding}
use tee_demo.Protocol.Verify.{Dcap, sgx_enclave, verify_quote_allow_debug}
use tee_demo.Protocol.Verify.Sound.{IsExpected}
use tee_demo.Host.Connection.{RuntimeConnection, request_attestation}
use tee_demo.Host.Process.{Kernel, exists}
use tee_demo.Host.Spawn.{LoaderConfig, Launcher, start_loader}
use tee_demo.Host.Client.OneShot.{Shot, nonce_bytes, cmd_attest}
use tee_demo.Host.Client.OneShot.Sound.{cmd_attest_sound}
use tee_demo.Host.Main.{attest, Program, Outside, run_command, main}
use tee_demo.Host.Main.Exit.{exit_code-zero}

module _ {ℓ} {D : Type ℓ} ⦃plat : Platform⦄ ⦃dcap : Dcap⦄ ⦃kernel : Kernel⦄
    ⦃launcher : Launcher⦄ where
  -- If `attest` exits with 0, then the socket was free, the runtime that was started with the
  -- configuration of the command line answered the request for this nonce, and a quote verified, as
  -- that of an SGX enclave whose REPORTDATA binds the answer's key version and public key to the
  -- nonce of the command line, or to the constant one if there is none, and whose MRENCLAVE is the
  -- one of the command line if there is one. For a base64 that decodes what it encoded.
  pub main_attests :
      (outside : Outside D) (sgxs loader enclave_socket : Text) (nonce : Option Text)
      (production : Bool) (sig expected_mrenclave : Option Text) (sandbox : Bool)
      (sandbox_wrapper data_dir : Text) (p p1 : Program D)
      → ((b : Bytes) → plat.b64_decode (plat.b64_encode b) ≡ ok b)
      → main outside
          (attest sgxs loader enclave_socket nonce production sig expected_mrenclave sandbox
            sandbox_wrapper data_dir)
          p
        ≡ (0, p1)
      → (exists enclave_socket p.system ≡ false)
        × (conn : RuntimeConnection) × (resp : Frame) × (pk_b64 : Text) × (quote : Bytes)
        × (public_key : Bytes) × (mr_enclave : Bytes) × ((start_loader outside.looks sgxs
              enclave_socket loader
              (record {
                production = production;
                sig = sig;
                expected_mrenclave = expected_mrenclave;
                data_dir = data_dir;
                sandbox = sandbox;
                sandbox_wrapper = sandbox_wrapper;
              })
              p.system).0
            ≡ ok conn)
        × ((request_attestation outside.wrote (some (nonce_bytes nonce)) conn).0 ≡ ok resp)
        × (resp.public_key ≡ some pk_b64)
        × (plat.b64_decode pk_b64 ≡ ok public_key)
        × (verify_quote_allow_debug quote
            ≡ ok (
                sgx_enclave mr_enclave (
                  report_data_binding
                    (unwrap_or 0 resp.key_version)
                    public_key
                    (nonce_bytes nonce))))
        × IsExpected mr_enclave expected_mrenclave
  unfolding main run_command
  main_attests outside sgxs loader enclave_socket nonce production sig expected_mrenclave sandbox
        sandbox_wrapper data_dir p p1 b64 attested =
      let cfg : LoaderConfig = record {
        production = production;
        sig = sig;
        expected_mrenclave = expected_mrenclave;
        data_dir = data_dir;
        sandbox = sandbox;
        sandbox_wrapper = sandbox_wrapper;
      } in
      let shot : Shot = record {
        desk = record {
          daemon = none;
          printed = p.desk.printed;
          readings = p.desk.readings;
          draws = p.desk.draws;
        };
        system = p.system;
      } in
      let ran =
        cmd_attest (start_loader outside.looks sgxs enclave_socket loader cfg) outside.wrote
          enclave_socket nonce expected_mrenclave shot in
      let returned : ran.0 ≡ ok tt =
        exit_code-zero ran.0 (ap (λ (r : ℕ × Program D). r.0) attested) in
      let (
        free, down, conn, resp, pk_b64, quote, public_key, mr, made, asked, has, dec, vq,
        is_expected,
      ) =
        cmd_attest_sound (start_loader outside.looks sgxs enclave_socket loader cfg) outside.wrote
          enclave_socket nonce expected_mrenclave shot ran.1 b64 (λ i. (returned i, ran.1)) in
      (free, conn, resp, pk_b64, quote, public_key, mr, made, asked, has, dec, vq, is_expected)
