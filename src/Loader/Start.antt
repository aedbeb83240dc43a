-- ===== src/Loader/Start.antt =====
-- The checks of loader/src/main.rs before it launches the enclave. The file system, the SGX device
-- and enclave_runner are an interface; what is handed to enclave_runner is the result.
pub mod Checked
use tee_demo.Base.{
  ℕ, Bool, true, false, not, Option, none, some, List, ltb, same, if◌then◌else◌, length, unwrap_or,
  Outcome, ok, err, panic, ◌>>=◌, ◌>>◌, slice, map_err,
}
use tee_demo.Base.Bytes.{Bytes, Text, text}
use tee_demo.Strings.Search.{to_lowercase}
use tee_demo.Strings.Hex.{hex_encode}

pub record Args : Type 0 where
  pub host_socket : Text
  pub sgxs : Text
  pub production : Bool
  pub sig : Option Text
  pub expected_mrenclave : Option Text
  pub data_dir : Text

-- `HostService`
pub record HostService : Type 0 where
  pub host_socket : Text
  pub data_dir : Text

-- `HostService::new`
abbrev pub new_service : Text → Text → HostService
new_service host_socket data_dir = record { host_socket = host_socket; data_dir = data_dir }

-- What the enclave is built from; no signature is the dummy one.
pub record Launch : Type 0 where
  pub sgxs : Text
  pub signature : Option Text
  pub service : HostService

-- Why the loader does not launch
pub data StartError : Type 0 where
  no_runtime no_signature open_failed too_short no_data_dir no_device bad_signature : StartError
  mismatch : (expected actual : Text) → StartError

-- Paths and devices
pub record Disk : Type 0 where
  pub exists : Text → Bool
  pub with_extension : Text → Text → Text
  -- The bytes of a file that opens
  pub content : Text → Option Bytes
  pub create_dir_all : Text → Bool
  pub isgx_device : Bool
  -- Whether `EnclaveBuilder::signature` loads the file
  pub signature_loads : Text → Bool

abbrev guard : Bool → StartError → Outcome StartError (Unit {0})
guard true e = ok tt
guard false e = err e

abbrev opened : Option Bytes → Outcome StartError Bytes
opened none = err open_failed
opened (some bytes) = ok bytes

-- The field ENCLAVEHASH of a SIGSTRUCT
abbrev pub mrenclave_of : Bytes → Outcome StartError Bytes
mrenclave_of buf = slice 960 992 buf

module _ ⦃disk : Disk⦄ where
  unfoldable pub verify_mrenclave : Text → Text → Outcome StartError (Unit {0})
  verify_mrenclave sig_path expected_hex = do
    buf ← opened (disk.content sig_path)
    guard (not (ltb (length buf) 992)) too_short
    mrenclave_bytes ← mrenclave_of buf
    let actual_hex = hex_encode mrenclave_bytes
    guard (same actual_hex (to_lowercase expected_hex)) (mismatch expected_hex actual_hex)

  -- The `if let` of `run`
  abbrev pub check_signature : Option Text → Option Text → Outcome StartError (Unit {0})
  check_signature (some sig_path) (some expected) = verify_mrenclave sig_path expected
  check_signature (some sig_path) none = ok tt
  check_signature none expected = ok tt

  -- The `match sig` of `run`
  abbrev pub load_signature : Option Text → Outcome StartError (Unit {0})
  load_signature (some sig_path) = guard (disk.signature_loads sig_path) bad_signature
  load_signature none = ok tt

  unfoldable pub run : Text → Text → Option Text → Option Text → Text → Outcome StartError Launch
  unfolding verify_mrenclave
  run sgxs host_socket sig expected_mrenclave data_dir = do
    check_signature sig expected_mrenclave
    guard (disk.create_dir_all data_dir) no_data_dir
    guard disk.isgx_device no_device
    load_signature sig
    ok (record { sgxs = sgxs; signature = sig; service = new_service host_socket data_dir })

  -- The signature path and the expected MRENCLAVE of the arguments
  abbrev pub signing : Args → Outcome StartError (Option Text × Option Text)
  signing args =
      if args.production
      then (do
        let sig = unwrap_or (disk.with_extension args.sgxs (text "sig")) args.sig
        guard (disk.exists sig) no_signature
        ok (some sig, args.expected_mrenclave))
      else ok (none, none)

  unfoldable pub main : Args → Outcome StartError Launch
  unfolding run
  main args = do
    guard (disk.exists args.sgxs) no_runtime
    (sig, expected) ← signing args
    run args.sgxs args.host_socket sig expected args.data_dir
