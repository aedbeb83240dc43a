-- ===== src/Host/Client/OneShot.antt =====
-- `cmd_attest` of host/src/main.rs, which starts a runtime of its own for one attestation.
pub mod Sound
use tee_demo.Base.{Option, none, some, ◌++◌, not, unwrap_or, Fallible, ok}
use tee_demo.Base.State.{State, lift, ◌>>=◌, ◌>>◌}
use tee_demo.Base.Bytes.{Bytes, Text, text}
use tee_demo.Protocol.Frame.{Frame}
use tee_demo.Protocol.Platform.{Platform}
use tee_demo.Protocol.Verify.{Dcap}
use tee_demo.Host.Connection.{RuntimeConnection, request_attestation}
use tee_demo.Host.Process.{System, Kernel, exists, check, remove_file}
use tee_demo.Host.Client.{Desk, verify_attestation_frame}

-- The printed lines, and the files
pub record Shot : Type 0 where
  pub desk : Desk (Option RuntimeConnection)
  pub system : System

abbrev pub on_system : {A : Type 0} → State System A → State Shot A
on_system m s = let (r, t) = m s.system in (r, record s { system = t })

abbrev pub on_desk : {A : Type 0} → State (Desk (Option RuntimeConnection)) A → State Shot A
on_desk m s = let (r, t) = m s.desk in (r, record s { desk = t })

abbrev pub connect : RuntimeConnection → State Shot (Unit {0})
connect conn s = (ok tt, record s { desk = record (s.desk) { daemon = some conn } })

-- `shutdown`, which kills the child and cannot fail
abbrev pub shutdown : State Shot (Unit {0})
shutdown s = (ok tt, record s { desk = record (s.desk) { daemon = none } })

abbrev pub nonce_bytes : Option Text → Bytes
nonce_bytes nonce = unwrap_or (text "pr2-attest-nonce") nonce

module _ ⦃plat : Platform⦄ ⦃dcap : Dcap⦄ ⦃kernel : Kernel⦄ where
  unfoldable pub ask : Fallible (Unit {0}) → Bytes → RuntimeConnection → State Shot Frame
  ask w nonce conn s =
      let (r, after) = request_attestation w (some nonce) conn in
      (r, record s { desk = record (s.desk) { daemon = some after } })

  -- With `RuntimeConnection::start` as an argument
  unfoldable pub cmd_attest :
      State System RuntimeConnection
      → Fallible (Unit {0})
      → Text
      → Option Text
      → Option Text
      → State Shot (Unit {0})
  unfolding ask
  cmd_attest start w runtime_sock nonce expected = do
    on_system (
        check (λ s. not (exists runtime_sock s))
          (text "runtime socket busy: " ++ (runtime_sock ++ text ", stop serve first")))
    conn ← on_system start
    connect conn
    resp ← ask w (nonce_bytes nonce) conn
    on_desk (lift dcap.new_runtime)
    on_desk (verify_attestation_frame resp (some (nonce_bytes nonce)) expected)
    shutdown
    on_system (remove_file runtime_sock)
