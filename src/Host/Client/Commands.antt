-- ===== src/Host/Client/Commands.antt =====
-- The commands of host/src/main.rs that talk to the daemon: `challenge`, `calc`, `pubkey`, `rotate`.
use tee_demo.Base.{
  ℕ, ◌+◌, ◌==◌, ◌||◌, not, Option, none, some, [], ◌∷◌, ◌++◌, ltb, length, concat, same, is_true,
  if◌then◌else◌, unwrap_or, ok_or, require, err,
}
use tee_demo.Base.State.{State, ◌>>=◌, ◌>>◌, pure, lift}
use tee_demo.Base.Bytes.{Bytes, Text, text}
use tee_demo.Base.Int.{ℤ}
use tee_demo.Strings.Decimal.{show_nat, show_int}
use tee_demo.Protocol.Frame
use tee_demo.Protocol.Frame.{Frame, op_client_compute, op_client_pubkey, op_client_rotate}
use tee_demo.Protocol.Platform.{Platform}
use tee_demo.Protocol.Binding.{report_data_binding}
use tee_demo.Protocol.Aead
use tee_demo.Protocol.Verify.{Dcap}
use tee_demo.Runtime.Compute.Plaintext.{plaintext}
use tee_demo.Host.Client.{
  Desk, Surroundings, say, say_some, roundtrip, clock, random_challenge_nonce, challenge_request,
  verify_attestation_frame, challenge_and_verify,
}
use tee_demo.Host.Client.Hex.{hex_decode}

-- The bytes of the Chinese words before the result
abbrev calc_label : Text
calc_label =
    text "TEE "
    ++ (0xe8 ∷ 0xae ∷ 0xa1 ∷ 0xe7 ∷ 0xae ∷ 0x97 ∷ 0xe7 ∷ 0xbb ∷ 0x93 ∷ 0xe6 ∷ 0x9e ∷ 0x9c ∷ [])
    ++ text ": "

-- `{x}^3 + 5*{y} = {result}`
abbrev pub calc_line : ℤ → ℤ → ℤ → Text
calc_line x y result =
    concat
      (calc_label ∷ show_int x ∷ text "^3 + 5*" ∷ show_int y ∷ text " = " ∷ show_int result ∷ [])

abbrev compute_failed : Frame → Text
compute_failed resp = concat (
    text "compute failed: "
    ∷ unwrap_or [] resp.error
    ∷ text " (code: "
    ∷ unwrap_or [] resp.code
    ∷ text ")"
    ∷ [])

abbrev pub compute_request : ℕ → ℕ → Text → Text → Frame
compute_request id kv ct aad = record (Frame.new op_client_compute) {
  id = some id;
  key_version = some kv;
  ct = some ct;
  aad_json = some aad;
}

abbrev pub rotate_request : Frame
rotate_request = record (Frame.new op_client_rotate) { id = some 1 }

module _ {ℓ} {D : Type ℓ} where
  -- The answer to a computation
  abbrev pub show_result : ℤ → ℤ → ℕ → Frame → State (Desk D) (Unit {0})
  show_result x y kv resp =
      if is_true resp.ok
      then (do
        result ← lift (ok_or (text "missing result") resp.result)
        say (calc_line x y result)
        say (text "RESULT=" ++ show_int result)
        say (text "KEY_VERSION=" ++ show_nat kv))
      else lift (err (compute_failed resp))

module _ {ℓ} {D : Type ℓ} ⦃plat : Platform⦄ where
  -- `aead::encrypt`, with a draw of its own
  abbrev pub sealed : Bytes → Bytes → Bytes → State (Desk D) Bytes
  sealed public_key pt aad s =
      (Aead.encrypt s.draws public_key pt aad, record s { draws = s.draws + 1 })

  -- The check of the REPORTDATA against the answer's own fields, if all three are there
  abbrev pub check_rotated : Text → Option Text → Option ℕ → Option Text → State (Desk D) (Unit {0})
  check_rotated rd (some pk_b64) (some kv) (some nonce_b64) = do
    pk ← lift (plat.b64_decode pk_b64)
    nonce ← lift (plat.b64_decode nonce_b64)
    let expected = report_data_binding kv pk nonce
    actual ← lift (plat.b64_decode rd)
    lift (require (same expected actual) (text "REPORTDATA binding mismatch after rotate"))
    say (text "REPORTDATA_BINDING_OK")
  check_rotated rd _ _ _ = pure tt

  abbrev pub show_report_data : Frame → Option Text → State (Desk D) (Unit {0})
  show_report_data resp none = pure tt
  show_report_data resp (some rd) = do
    say (text "REPORTDATA=" ++ rd)
    check_rotated rd resp.public_key resp.key_version resp.binding_nonce

module _ {ℓ} {D : Type ℓ} ⦃plat : Platform⦄ ⦃around : Surroundings D⦄ where
  unfoldable pub cmd_rotate : State (Desk D) (Unit {0})
  cmd_rotate = do
    resp ← roundtrip rotate_request
    lift (require (is_true resp.ok) (text "rotate failed: " ++ unwrap_or [] resp.error))
    say (text "KEY_VERSION=" ++ show_nat (unwrap_or 0 resp.key_version))
    say (text "PUBLIC_KEY=" ++ unwrap_or [] resp.public_key)
    say_some (text "QUOTE=") resp.quote
    say_some (text "BINDING_NONCE=") resp.binding_nonce
    show_report_data resp resp.report_data

  unfoldable pub cmd_pubkey : State (Desk D) (Unit {0})
  cmd_pubkey = do
    resp ← roundtrip (record (Frame.new op_client_pubkey) { id = some 1 })
    say (text "KEY_VERSION=" ++ show_nat (unwrap_or 0 resp.key_version))
    say (text "PUBLIC_KEY=" ++ unwrap_or [] resp.public_key)
    say_some (text "QUOTE=") resp.quote
    say_some (text "REPORTDATA=") resp.report_data

  -- The nonce of the command line, or a fresh one
  abbrev pub challenge_nonce : Option Text → State (Desk D) Bytes
  challenge_nonce (some h) = do
    bytes ← lift (hex_decode h)
    lift (
        require (not (length bytes == 0 || ltb 255 (length bytes)))
          (text "nonce length must be 1..=255"))
    pure bytes
  challenge_nonce none = random_challenge_nonce

module _ {ℓ} {D : Type ℓ} ⦃plat : Platform⦄ ⦃dcap : Dcap⦄ ⦃around : Surroundings D⦄ where
  unfoldable pub cmd_challenge : Option Text → Option Text → State (Desk D) (Unit {0})
  unfolding hex_decode random_challenge_nonce
  cmd_challenge nonce_hex expected = do
    nonce ← challenge_nonce nonce_hex
    resp ← roundtrip (challenge_request 1 nonce)
    lift (require (is_true resp.ok) (text "challenge failed: " ++ unwrap_or [] resp.error))
    lift dcap.new_runtime
    verify_attestation_frame resp (some nonce) expected
    say (text "NONCE=" ++ plat.b64_encode nonce)
    say_some (text "QUOTE=") resp.quote

  abbrev pub calc_with : ℤ → ℤ → ℕ → Bytes → State (Desk D) (Unit {0})
  calc_with x y kv pubkey = do
    id ← clock
    let aad = Aead.aad_json 1 id op_client_compute kv
    ct ← sealed pubkey (plaintext x y) aad
    resp ← roundtrip (compute_request id kv (plat.b64_encode ct) aad)
    show_result x y kv resp

  unfoldable pub cmd_calc : ℤ → ℤ → Option Text → State (Desk D) (Unit {0})
  cmd_calc x y expected = do (kv, pubkey) ← challenge_and_verify expected; calc_with x y kv pubkey
