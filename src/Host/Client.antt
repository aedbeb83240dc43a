-- ===== src/Host/Client.antt =====
-- The client's side of host/src/main.rs: what its commands use, the challenge, and the check of the
-- answer. The daemon behind its socket, the clock and /dev/urandom are an interface.
pub mod Hex
pub mod Commands
pub mod Verified
pub mod Genuine
pub mod Attests
pub mod Calculates
pub mod Rotates
pub mod OneShot
pub mod Renews
pub mod Logged
pub mod Confidential
use tee_demo.Base.{
  ℕ, zero, suc, ◌+◌, ◌%◌, Bool, true, Option, none, some, List, [], ◌∷◌, ◌++◌, is_true,
  if◌then◌else◌, unwrap_or, ok_or, require, Outcome, Fallible, ok, err, panic,
}
use tee_demo.Base.State.{State, continue, ◌>>=◌, ◌>>◌, pure, lift}
use tee_demo.Base.Bytes.{Bytes, Text, text, to_le_bytes}
use tee_demo.Strings.Decimal.{show_nat}
use tee_demo.Protocol.Frame
use tee_demo.Protocol.Frame.{Frame, op_client_challenge}
use tee_demo.Protocol.Platform.{Platform}
use tee_demo.Protocol.Verify.{
  VerifiedReport, Dcap, mrenclave_hex, report_data_b64, verify_attestation,
}

pub record Desk {ℓ} (D : Type ℓ) : Type ℓ where
  pub daemon : D
  pub printed : List Text
  pub readings : ℕ
  pub draws : ℕ

pub record Surroundings {ℓ} (D : Type ℓ) : Type ℓ where
  -- `client_roundtrip`: a new connection, the frame, and the answer
  pub client_roundtrip : Frame → D → Fallible Frame × D
  pub now_secs : ℕ → ℕ
  -- 32 bytes of /dev/urandom
  pub urandom : ℕ → Fallible Bytes

-- The fallback for a nonce: `t[i % 8] + i`, in u8, for each `i` below 32
abbrev add_index : ℕ → Bytes → Bytes
add_index i [] = []
add_index i (b ∷ bs) = ((b + i) % 256) ∷ add_index (i + 1) bs

abbrev pub time_nonce : ℕ → Bytes
time_nonce now = let t = to_le_bytes 8 now in add_index 0 (t ++ (t ++ (t ++ t)))

module _ {ℓ} {D : Type ℓ} where
  -- `println!`
  abbrev pub say : Text → State (Desk D) (Unit {0})
  say line s = (ok tt, record s { printed = s.printed ++ line ∷ [] })

  abbrev pub say_some : Text → Option Text → State (Desk D) (Unit {0})
  say_some label none = pure tt
  say_some label (some value) = say (label ++ value)

module _ {ℓ} {D : Type ℓ} ⦃around : Surroundings D⦄ where
  abbrev pub roundtrip : Frame → State (Desk D) Frame
  roundtrip req s =
      let (r, d) = around.client_roundtrip req s.daemon in (r, record s { daemon = d })

  abbrev pub clock : State (Desk D) ℕ
  clock s = (ok (around.now_secs s.readings), record s { readings = s.readings + 1 })

  -- What `getrandom_fill` gave, or the time
  abbrev pub nonce_from : Fallible Bytes → State (Desk D) Bytes
  nonce_from (ok bytes) = pure bytes
  nonce_from (err e) = do now ← clock; pure (time_nonce now)
  nonce_from panic = lift panic

  unfoldable pub random_challenge_nonce : State (Desk D) Bytes
  random_challenge_nonce s = nonce_from (around.urandom s.draws) (record s { draws = s.draws + 1 })

module _ ⦃plat : Platform⦄ where
  -- The nonce to check against: the client's, or the one of the answer
  abbrev pub nonce_of : Option Bytes → Text → Fallible Bytes
  nonce_of (some n) binding = ok n
  nonce_of none binding = plat.b64_decode binding

  abbrev pub challenge_request : ℕ → Bytes → Frame
  challenge_request id nonce = record (Frame.new op_client_challenge) {
    id = some id;
    nonce = some (plat.b64_encode nonce);
  }

module _ {ℓ} {D : Type ℓ} ⦃plat : Platform⦄ ⦃dcap : Dcap⦄ where
  unfoldable pub verify_attestation_frame :
      Frame → Option Bytes → Option Text → State (Desk D) (Unit {0})
  verify_attestation_frame resp client_nonce expected = do
    quote_b64 ← lift (ok_or (text "missing quote") resp.quote)
    pk_b64 ← lift (ok_or (text "missing public_key") resp.public_key)
    let kv = unwrap_or 0 resp.key_version
    binding ← lift (ok_or (text "missing binding_nonce") resp.binding_nonce)
    nonce ← lift (nonce_of client_nonce binding)
    verified ← lift (verify_attestation quote_b64 pk_b64 kv nonce binding expected)
    mrenclave ← lift (ok_or (text "no SGX enclave report") (mrenclave_hex verified))
    rd_b64 ← lift (ok_or (text "no report_data") (report_data_b64 verified))
    say (text "MRENCLAVE=" ++ mrenclave)
    say (text "REPORTDATA=" ++ rd_b64)
    say (text "KEY_VERSION=" ++ show_nat kv)
    say (text "PUBLIC_KEY=" ++ pk_b64)
    say (text "REPORTDATA_BINDING_OK")
    say (text "QUOTE_VERIFY_OK")

module _ {ℓ} {D : Type ℓ} ⦃plat : Platform⦄ ⦃dcap : Dcap⦄ ⦃around : Surroundings D⦄ where
  -- `challenge_and_verify`, once the nonce and the time are known
  abbrev pub challenge_with : Option Text → Bytes → ℕ → State (Desk D) (ℕ × Bytes)
  challenge_with expected nonce id = do
    resp ← roundtrip (challenge_request id nonce)
    lift (require (is_true resp.ok) (text "challenge failed: " ++ unwrap_or [] resp.error))
    lift dcap.new_runtime
    verify_attestation_frame resp (some nonce) expected
    let kv = unwrap_or 0 resp.key_version
    pk_b64 ← lift (ok_or (text "no public_key") resp.public_key)
    pk ← lift (plat.b64_decode pk_b64)
    pure (kv, pk)

  unfoldable pub challenge_and_verify : Option Text → State (Desk D) (ℕ × Bytes)
  unfolding random_challenge_nonce
  challenge_and_verify expected = do
    nonce ← random_challenge_nonce
    id ← clock
    challenge_with expected nonce id
