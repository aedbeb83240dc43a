-- ===== src/Host/Client/Confidential.antt =====
-- What `calc` of host/src/main.rs sends to the daemon.
use tee_demo.Base.State.{continue, ◌>>=◌}
use tee_demo.Base.{
  ℕ, ◌+◌, ◌≡◌, refl, sym, ap, ◌∙◌, ◌⊎◌, inl, inr, Option, List, [], ◌∷◌, ◌++◌, append_assoc,
  append-nil, Fallible, ok, err, panic,
}
use tee_demo.Base.Bytes.{Bytes, Text}
use tee_demo.Base.Int.{ℤ}
use tee_demo.Protocol.Frame.{Frame}
use tee_demo.Protocol.Platform.{Platform}
use tee_demo.Protocol.Aead
use tee_demo.Protocol.Binding.{report_data_binding}
use tee_demo.Protocol.Verify.{Dcap, sgx_enclave, verify_quote_allow_debug}
use tee_demo.Protocol.Verify.Sound.{IsExpected}
use tee_demo.Runtime.Compute.Plaintext.{plaintext}
use tee_demo.Host.Client.{
  Desk, Surroundings, roundtrip, clock, random_challenge_nonce, challenge_request, challenge_with,
  challenge_and_verify,
}
use tee_demo.Host.Client.Commands.{compute_request, show_result, calc_with, cmd_calc}
use tee_demo.Host.Client.Calculates.{calc_aad}
use tee_demo.Host.Client.Verified.{challenge_with_sound}
use tee_demo.Host.Client.Logged.{
  Logged, logged, log-continue, challenge_rest, Mute-challenge_rest, Mute-random_challenge_nonce,
  Mute-show_result,
}

module _ ⦃plat : Platform⦄ where
  -- A request for a computation, whose ciphertext is the plaintext sealed to this key
  abbrev Sealed : ℤ → ℤ → ℕ → Bytes → List Frame → Type 0
  Sealed x y kv pk requests =
      (id : ℕ) × (draw : ℕ) × (ct : Bytes) × (requests
        ≡ compute_request id kv (plat.b64_encode ct) (calc_aad id kv) ∷ [])
      × (Aead.encrypt draw pk (plaintext x y) (calc_aad id kv) ≡ ok ct)

module _ ⦃plat : Platform⦄ ⦃dcap : Dcap⦄ where
  -- Some quote verified that binds the key to the nonce.
  abbrev IsVerified : Option Text → Bytes → ℕ → Bytes → Type 0
  IsVerified expected nonce kv pk =
      (quote : Bytes) × (mr_enclave : Bytes) × (verify_quote_allow_debug quote
        ≡ ok (sgx_enclave mr_enclave (report_data_binding kv pk nonce)))
      × IsExpected mr_enclave expected

  -- What `calc` may ask the daemon for
  abbrev pub IsGuarded : ℤ → ℤ → Option Text → List Frame → Type 0
  IsGuarded x y expected requests =
      (requests ≡ [])
      ⊎ (((id : ℕ) × (nonce : Bytes) × (requests ≡ challenge_request id nonce ∷ []))
          ⊎ ((id : ℕ) × (nonce : Bytes) × (kv : ℕ) × (pk : Bytes) × (rest : List Frame) × (requests
                ≡ challenge_request id nonce ∷ rest)
              × Sealed x y kv pk rest
              × IsVerified expected nonce kv pk))

module _ {ℓ} {D : Type ℓ} ⦃plat : Platform⦄ ⦃dcap : Dcap⦄ (around : Surroundings D) where
  abbrev net : Surroundings (Logged D)
  net = logged around

  -- The sealed request, if the encryption succeeds
  Sealed-log :
      (x y : ℤ) (kv id draw : ℕ) (pk : Bytes) (r : Fallible Bytes) (s : Desk (Logged D))
      → Aead.encrypt draw pk (plaintext x y) (calc_aad id kv) ≡ r
      → (more : List Frame) × ((continue
            (r, s)
            (λ ct.
              roundtrip ⦃around = net⦄ (compute_request id kv (plat.b64_encode ct) (calc_aad id kv))
              >>= show_result x y kv)).1.daemon.log
          ≡ s.daemon.log ++ more)
        × ((more ≡ []) ⊎ Sealed x y kv pk more)
  Sealed-log x y kv id draw pk (ok ct) s e =
      let req = compute_request id kv (plat.b64_encode ct) (calc_aad id kv) in
      (
        req ∷ [],
        log-continue (roundtrip ⦃around = net⦄ req s).0 (roundtrip ⦃around = net⦄ req s).1
            (show_result x y kv) (Mute-show_result x y kv),
        inr (id, draw, ct, refl, e),
      )
  Sealed-log x y kv id draw pk (err e) s h = ([], sym (append-nil s.daemon.log), inl refl)
  Sealed-log x y kv id draw pk panic s h = ([], sym (append-nil s.daemon.log), inl refl)

  calc_with-log :
      (x y : ℤ) (kv : ℕ) (pk : Bytes) (s : Desk (Logged D))
      → (more : List Frame) × ((calc_with ⦃around = net⦄ x y kv pk s).1.daemon.log
          ≡ s.daemon.log ++ more)
        × ((more ≡ []) ⊎ Sealed x y kv pk more)
  calc_with-log x y kv pk s =
      let id = around.now_secs s.readings in
      Sealed-log x y kv id s.draws pk (Aead.encrypt s.draws pk (plaintext x y) (calc_aad id kv))
        (record s { readings = s.readings + 1; draws = s.draws + 1 }) refl

  -- The answer to a challenge is read, and nothing more is asked.
  challenge_with-log :
      (expected : Option Text) (nonce : Bytes) (id : ℕ) (s : Desk (Logged D))
      → (challenge_with ⦃around = net⦄ expected nonce id s).1.daemon.log
        ≡ s.daemon.log ++ challenge_request id nonce ∷ []
  challenge_with-log expected nonce id s =
      let req = challenge_request id nonce in
      log-continue (roundtrip ⦃around = net⦄ req s).0 (roundtrip ⦃around = net⦄ req s).1
        (challenge_rest expected nonce) (Mute-challenge_rest expected nonce)

  -- What was asked, behind the challenge
  challenged_log :
      (x y : ℤ) (expected : Option Text) (nonce : Bytes) (id : ℕ) (s : Desk (Logged D))
      (r : Fallible (ℕ × Bytes)) (after : Desk (Logged D))
      → ((b : Bytes) → plat.b64_decode (plat.b64_encode b) ≡ ok b)
      → challenge_with ⦃around = net⦄ expected nonce id s ≡ (r, after)
      → after.daemon.log ≡ s.daemon.log ++ challenge_request id nonce ∷ []
      → (requests : List Frame) × ((continue
            (r, after)
            (λ p. calc_with ⦃around = net⦄ x y p.0 p.1)).1.daemon.log
          ≡ s.daemon.log ++ requests)
        × IsGuarded x y expected requests
  challenged_log x y expected nonce id s (ok (kv, pk)) after b64 e asked =
      let (quote, mr, vq, is_expected) =
        challenge_with_sound ⦃around = net⦄ expected nonce id s after kv pk b64 e in
      let (more, log, said) = calc_with-log x y kv pk after in
      let whole =
        log
        ∙ ap (λ l. l ++ more) asked
        ∙ append_assoc s.daemon.log (challenge_request id nonce ∷ []) more in
      elim said [
        | inl none_more ↦ (
          challenge_request id nonce ∷ more,
          whole,
          inr (inl (id, nonce, ap (λ l. challenge_request id nonce ∷ l) none_more)),
        )
        | inr sealed_one ↦ (
          challenge_request id nonce ∷ more,
          whole,
          inr (inr (id, nonce, kv, pk, more, refl, sealed_one, (quote, mr, vq, is_expected))),
        )
      ]
  challenged_log x y expected nonce id s (err e) after b64 h asked =
      (challenge_request id nonce ∷ [], asked, inr (inl (id, nonce, refl)))
  challenged_log x y expected nonce id s panic after b64 h asked =
      (challenge_request id nonce ∷ [], asked, inr (inl (id, nonce, refl)))

  -- What was asked, behind the draw of the nonce
  drawn_log :
      (x y : ℤ) (expected : Option Text) (r : Fallible Bytes) (s : Desk (Logged D))
      → ((b : Bytes) → plat.b64_decode (plat.b64_encode b) ≡ ok b)
      → (requests : List Frame) × ((continue
            (continue
              (r, s)
              (λ nonce.
                clock ⦃around = net⦄ >>= λ id. challenge_with ⦃around = net⦄ expected nonce id))
            (λ p. calc_with ⦃around = net⦄ x y p.0 p.1)).1.daemon.log
          ≡ s.daemon.log ++ requests)
        × IsGuarded x y expected requests
  drawn_log x y expected (ok nonce) s b64 =
      let id = around.now_secs s.readings in
      let m : Desk (Logged D) = record s { readings = s.readings + 1 } in
      challenged_log x y expected nonce id m (challenge_with ⦃around = net⦄ expected nonce id m).0
        (challenge_with ⦃around = net⦄ expected nonce id m).1 b64 refl
        (challenge_with-log expected nonce id m)
  drawn_log x y expected (err e) s b64 = ([], sym (append-nil s.daemon.log), inl refl)
  drawn_log x y expected panic s b64 = ([], sym (append-nil s.daemon.log), inl refl)

  -- Whatever the daemon answers, `calc` lets x and y out only in a ciphertext that is sealed to a
  -- verified key. It asks the daemon for nothing; or for a challenge; or for a challenge and then a
  -- computation, whose request holds the plaintext sealed to a public key, and nothing else of x
  -- and y, after some quote verified as that of an SGX enclave whose REPORTDATA binds this key and
  -- its version to the nonce of the challenge, with the expected MRENCLAVE if one is expected. For
  -- a base64 that decodes what it encoded.
  pub cmd_calc-IsGuarded :
      (x y : ℤ) (expected : Option Text) (s : Desk (Logged D))
      → ((b : Bytes) → plat.b64_decode (plat.b64_encode b) ≡ ok b)
      → (requests : List Frame) × ((cmd_calc ⦃around = net⦄ x y expected s).1.daemon.log
          ≡ s.daemon.log ++ requests)
        × IsGuarded x y expected requests
  unfolding cmd_calc challenge_and_verify
  cmd_calc-IsGuarded x y expected s b64 =
      let (r, m) = random_challenge_nonce ⦃around = net⦄ s in
      let (requests, log, guarded) = drawn_log x y expected r m b64 in
      (requests, log ∙ ap (λ l. l ++ requests) ((Mute-random_challenge_nonce around).at s), guarded)
