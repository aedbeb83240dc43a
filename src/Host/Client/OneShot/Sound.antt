-- ===== src/Host/Client/OneShot/Sound.antt =====
-- What `cmd_attest` of host/src/main.rs has shown when it succeeds.
use tee_demo.Base.{
  ◌≡◌, refl, sym, ap, ◌∙◌, true, false, Bool, not, Option, none, some, ◌++◌, unwrap_or, require-ok,
  Fallible, ok,
}
use tee_demo.Base.State.{lift, State, ◌>>◌, bind-ok}
use tee_demo.Base.Bytes.{Bytes, Text, text}
use tee_demo.Protocol.Frame.{Frame}
use tee_demo.Protocol.Platform.{Platform}
use tee_demo.Protocol.Binding.{report_data_binding}
use tee_demo.Protocol.Verify.{Dcap, sgx_enclave, verify_quote_allow_debug}
use tee_demo.Protocol.Verify.Sound.{IsExpected, verify_attestation_sound}
use tee_demo.Host.Connection.{RuntimeConnection, request_attestation}
use tee_demo.Host.Process.{System, Kernel, exists, check, remove_file}
use tee_demo.Host.Client.{verify_attestation_frame}
use tee_demo.Host.Client.Verified.{verify_attestation_frame_sound}
use tee_demo.Host.Client.OneShot.{Shot, on_system, on_desk, shutdown, ask, nonce_bytes, cmd_attest}

not-true : (b : Bool) → not b ≡ true → b ≡ false
not-true true e = sym e
not-true false e = refl

module _ ⦃plat : Platform⦄ ⦃dcap : Dcap⦄ ⦃kernel : Kernel⦄ where
  -- The rest of the command, when the answer is there
  abbrev after_answer : Text → Option Text → Option Text → Frame → State Shot (Unit {0})
  after_answer sock nonce expected resp =
      on_desk (lift dcap.new_runtime)
      >> (on_desk (verify_attestation_frame resp (some (nonce_bytes nonce)) expected)
          >> (shutdown >> on_system (remove_file sock)))

  -- `cmd_attest` succeeds only if the socket was free, the runtime that it started answered the
  -- request for this nonce, and a quote in the answer verified, as that of an SGX enclave whose
  -- REPORTDATA binds the answer's key version and public key to the nonce of the command line, and
  -- whose MRENCLAVE is the expected one if one is expected; the runtime is shut down then.
  pub cmd_attest_sound :
      (start : State System RuntimeConnection) (w : Fallible (Unit {0})) (sock : Text)
      (nonce expected : Option Text) (s s' : Shot) {u : Unit {0}}
      → ((b : Bytes) → plat.b64_decode (plat.b64_encode b) ≡ ok b)
      → cmd_attest start w sock nonce expected s ≡ (ok u, s')
      → (exists sock s.system ≡ false)
        × (s'.desk.daemon ≡ none)
        × (conn : RuntimeConnection) × (resp : Frame) × (pk_b64 : Text) × (quote : Bytes)
        × (public_key : Bytes) × (mr_enclave : Bytes) × ((start s.system).0 ≡ ok conn)
        × ((request_attestation w (some (nonce_bytes nonce)) conn).0 ≡ ok resp)
        × (resp.public_key ≡ some pk_b64)
        × (plat.b64_decode pk_b64 ≡ ok public_key)
        × (verify_quote_allow_debug quote
            ≡ ok (
                sgx_enclave mr_enclave (
                  report_data_binding
                    (unwrap_or 0 resp.key_version)
                    public_key
                    (nonce_bytes nonce))))
        × IsExpected mr_enclave expected
  unfolding cmd_attest ask
  cmd_attest_sound start w sock nonce expected s s' b64 e =
      let (u0, s1, free, e1) =
        bind-ok
          (on_system (
            check (λ t. not (exists sock t))
              (text "runtime socket busy: " ++ (sock ++ text ", stop serve first"))))
          _ s e in
      let (conn, s2, started, e2) = bind-ok (on_system start) _ s1 e1 in
      let m : Shot = record s2 { desk = record (s2.desk) { daemon = some conn } } in
      let (resp, s4, asked, e3) =
        bind-ok (ask w (nonce_bytes nonce) conn) (after_answer sock nonce expected) m e2 in
      let (v, begun, ready, verifies) = bind-ok (on_desk (lift dcap.new_runtime)) _ s4 e3 in
      let (u1, s5, checked, e4) =
        bind-ok (on_desk (verify_attestation_frame resp (some (nonce_bytes nonce)) expected))
          (λ v. shutdown >> on_system (remove_file sock)) begun verifies in
      let verifying : verify_attestation_frame resp (some (nonce_bytes nonce)) expected begun.desk
          ≡ (ok u1, s5.desk) =
        λ i. ((checked i).0, (checked i).1.desk) in
      let (q_b64, p_b64, binding, report, has_key, verified) =
        verify_attestation_frame_sound resp (nonce_bytes nonce) expected begun.desk s5.desk
          verifying in
      let (quote, public_key, mr, dq, dp, vq, is_report, is_expected) =
        verify_attestation_sound q_b64 p_b64 (unwrap_or 0 resp.key_version) (nonce_bytes nonce)
          binding expected report b64 verified in
      (
        not-true (exists sock s.system) (
            require-ok (not (exists sock s.system)) _
              (ap (λ (r : Fallible (Unit {0}) × Shot). r.0) free)),
        sym (ap (λ (r : Fallible (Unit {0}) × Shot). r.1.desk.daemon) e4),
        conn,
        resp,
        p_b64,
        quote,
        public_key,
        mr,
        ap (λ (t : System). (start t).0) (ap (λ (r : Fallible (Unit {0}) × Shot). r.1.system) free)
            ∙ ap (λ (r : Fallible RuntimeConnection × Shot). r.0) started,
        ap (λ (r : Fallible Frame × Shot). r.0) asked,
        has_key,
        dp,
        vq ∙ ap ok is_report,
        is_expected,
      )
