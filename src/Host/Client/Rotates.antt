-- ===== src/Host/Client/Rotates.antt =====
-- What the check at the end of the `rotate` command is worth.
use tee_demo.Base.{
  ℕ, ◌≡◌, refl, append_each, append_each-eq-append, true, some, List, [], ◌∷◌, ◌++◌, same_refl,
  is_true, ok,
}
use tee_demo.Base.Bytes.{Bytes, Text, text}
use tee_demo.Strings.Decimal.{show_nat}
use tee_demo.Protocol.Frame
use tee_demo.Protocol.Frame.{Frame, op_host_rotate_result}
use tee_demo.Protocol.Platform.{Platform}
use tee_demo.Protocol.Binding.{report_data_binding}
use tee_demo.Host.Client.{Desk, Surroundings}
use tee_demo.Host.Client.Commands.{rotate_request, cmd_rotate}

-- An answer with any key and any quote, and the binding of that key to a nonce as its REPORTDATA,
-- which takes no secret to write
abbrev pub made_up : ⦃plat : Platform⦄ → ℕ → Bytes → Bytes → Text → Frame
made_up ⦃plat⦄ kv pk nonce quote = record (Frame.new op_host_rotate_result) {
  id = some 1;
  ok = some true;
  key_version = some kv;
  public_key = some (plat.b64_encode pk);
  quote = some quote;
  binding_nonce = some (plat.b64_encode nonce);
  report_data = some (plat.b64_encode (report_data_binding kv pk nonce));
}

module _ ⦃plat : Platform⦄ where
  abbrev pub rotated_lines : ℕ → Bytes → Bytes → Text → List Text
  rotated_lines kv pk nonce quote =
      (text "KEY_VERSION=" ++ show_nat kv)
      ∷ (text "PUBLIC_KEY=" ++ plat.b64_encode pk)
      ∷ (text "QUOTE=" ++ quote)
      ∷ (text "BINDING_NONCE=" ++ plat.b64_encode nonce)
      ∷ (text "REPORTDATA=" ++ plat.b64_encode (report_data_binding kv pk nonce))
      ∷ text "REPORTDATA_BINDING_OK"
      ∷ []

module _ {ℓ} {D : Type ℓ} ⦃plat : Platform⦄ ⦃around : Surroundings D⦄ where
  -- An answer with these fields is accepted and printed.
  pub cmd_rotate-accepts :
      (resp : Frame) (kv : ℕ) (pk nonce : Bytes) (quote : Text) (s : Desk D) (d : D)
      → ((b : Bytes) → plat.b64_decode (plat.b64_encode b) ≡ ok b)
      → around.client_roundtrip rotate_request s.daemon ≡ (ok resp, d)
      → resp.ok ≡ some true
      → resp.key_version ≡ some kv
      → resp.public_key ≡ some (plat.b64_encode pk)
      → resp.quote ≡ some quote
      → resp.binding_nonce ≡ some (plat.b64_encode nonce)
      → resp.report_data ≡ some (plat.b64_encode (report_data_binding kv pk nonce))
      → (s' : Desk D) × (cmd_rotate s ≡ (ok tt, s'))
        × (s'.printed ≡ s.printed ++ rotated_lines kv pk nonce quote)
  unfolding cmd_rotate is_true
  cmd_rotate-accepts resp kv pk nonce quote s d b64 answered fo fk fp fq fn fr =
      let lines = rotated_lines kv pk nonce quote in
      let after : Desk D = record s { daemon = d; printed = append_each s.printed lines } in
      (
        after,
        rw
            (
              answered,
              fo,
              fk,
              fp,
              fq,
              fn,
              fr,
              b64 pk,
              b64 nonce,
              b64 (report_data_binding kv pk nonce),
              same_refl (report_data_binding kv pk nonce),
            )
            refl,
        append_each-eq-append s.printed lines,
      )

  -- `rotate` accepts any public key with any quote: if the answer carries a version, a key and a
  -- nonce, any text as its quote, and the binding of these as its REPORTDATA, then the command
  -- succeeds, prints that key and says that the REPORTDATA binding is right. For a base64 that
  -- decodes what it encoded.
  pub cmd_rotate-made_up :
      (kv : ℕ) (pk nonce : Bytes) (quote : Text) (s : Desk D) (d : D)
      → ((b : Bytes) → plat.b64_decode (plat.b64_encode b) ≡ ok b)
      → around.client_roundtrip rotate_request s.daemon ≡ (ok (made_up kv pk nonce quote), d)
      → (s' : Desk D) × (cmd_rotate s ≡ (ok tt, s'))
        × (s'.printed ≡ s.printed ++ rotated_lines kv pk nonce quote)
  cmd_rotate-made_up kv pk nonce quote s d b64 answered =
      cmd_rotate-accepts (made_up kv pk nonce quote) kv pk nonce quote s d b64 answered refl refl
        refl refl refl refl
