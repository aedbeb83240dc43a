-- ===== src/Host/Client/Logged.antt =====
-- The client's side of host/src/main.rs with a log of the frames that it sends to the daemon.
use tee_demo.Base.State.{State, continue, ◌>>=◌, ◌>>◌, pure, lift}
use tee_demo.Base.{
  ℕ, ◌+◌, ◌≡◌, refl, ◌∙◌, Option, some, List, [], ◌∷◌, ◌++◌, Bool, true, false, if◌then◌else◌,
  is_true, unwrap_or, ok_or, require, Fallible, ok, err, panic,
}
use tee_demo.Base.Bytes.{Bytes, Text, text}
use tee_demo.Base.Int.{ℤ}
use tee_demo.Protocol.Frame.{Frame}
use tee_demo.Protocol.Platform.{Platform}
use tee_demo.Protocol.Verify.{Dcap}
use tee_demo.Host.Client.{
  Desk, Surroundings, say, nonce_from, random_challenge_nonce, verify_attestation_frame,
}
use tee_demo.Host.Client.Commands.{show_result}

-- The daemon, whatever it is, and what it was asked
pub record Logged {ℓ} (D : Type ℓ) : Type ℓ where
  pub inner : D
  pub log : List Frame

abbrev pub logged {ℓ} : {D : Type ℓ} → Surroundings D → Surroundings (Logged D)
logged around = record {
  client_roundtrip = λ req d. (
    (around.client_roundtrip req d.inner).0,
    record { inner = (around.client_roundtrip req d.inner).1; log = d.log ++ req ∷ [] },
  );
  now_secs = around.now_secs;
  urandom = around.urandom;
}

-- However `m` ends, it has asked the daemon nothing.
pub record Mute {ℓ} {D : Type ℓ} {A : Type 0} (m : State (Desk (Logged D)) A) : Type ℓ where
  pub at : (s : Desk (Logged D)) → (m s).1.daemon.log ≡ s.daemon.log

module _ {ℓ} {D : Type ℓ} {A : Type 0} where
  pub Mute-lift : (r : Fallible A) → Mute {D = D} (lift r)
  Mute-lift r = record { at = λ s. refl }

  pub Mute-pure : (a : A) → Mute {D = D} (pure a)
  Mute-pure a = record { at = λ s. refl }

  Mute-if :
      (b : Bool) (m n : State (Desk (Logged D)) A) → Mute m → Mute n → Mute (if b then m else n)
  Mute-if true m n hm hn = hm
  Mute-if false m n hm hn = hn

module _ {ℓ} {D : Type ℓ} {A B : Type 0} where
  pub log-continue :
      (r : Fallible A) (s : Desk (Logged D)) (f : A → State (Desk (Logged D)) B)
      → ((a : A) → Mute (f a))
      → (continue (r, s) f).1.daemon.log ≡ s.daemon.log
  log-continue (ok a) s f h = (h a).at s
  log-continue (err e) s f h = refl
  log-continue panic s f h = refl

  Mute-bind :
      (m : State (Desk (Logged D)) A) (f : A → State (Desk (Logged D)) B)
      → Mute m
      → ((a : A) → Mute (f a))
      → Mute (m >>= f)
  Mute-bind m f hm hf = record { at = λ s. log-continue (m s).0 (m s).1 f hf ∙ hm.at s }

module _ {ℓ} {D : Type ℓ} where
  Mute-say : (line : Text) → Mute {D = D} (say line)
  Mute-say line = record { at = λ s. refl }

ruleset mute_rules = (Mute-bind, Mute-if, Mute-lift, Mute-pure, Mute-say)

module _ {ℓ} {D : Type ℓ} ⦃plat : Platform⦄ ⦃dcap : Dcap⦄ where
  pub Mute-verify_attestation_frame :
      (resp : Frame) (chosen : Option Bytes) (expected : Option Text)
      → Mute {D = D} (verify_attestation_frame resp chosen expected)
  unfolding verify_attestation_frame
  Mute-verify_attestation_frame resp chosen expected = search mute_rules depth 20

  pub Mute-show_result : (x y : ℤ) (kv : ℕ) (resp : Frame) → Mute {D = D} (show_result x y kv resp)
  Mute-show_result x y kv resp = search mute_rules depth 12

module _ {ℓ} {D : Type ℓ} (around : Surroundings D) where
  nonce_from-log :
      (r : Fallible Bytes) (s : Desk (Logged D))
      → (nonce_from ⦃around = logged around⦄ r s).1.daemon.log ≡ s.daemon.log
  nonce_from-log (ok bytes) s = refl
  nonce_from-log (err e) s = refl
  nonce_from-log panic s = refl

  pub Mute-random_challenge_nonce : Mute {D = D} (random_challenge_nonce ⦃around = logged around⦄)
  unfolding random_challenge_nonce
  Mute-random_challenge_nonce = record {
    at = λ s. nonce_from-log (around.urandom s.draws) (record s { draws = s.draws + 1 });
  }

module _ {ℓ} {D : Type ℓ} ⦃plat : Platform⦄ ⦃dcap : Dcap⦄ where
  -- `challenge_with` behind its answer
  abbrev pub challenge_rest : Option Text → Bytes → Frame → State (Desk (Logged D)) (ℕ × Bytes)
  challenge_rest expected nonce resp = do
    lift (require (is_true resp.ok) (text "challenge failed: " ++ unwrap_or [] resp.error))
    lift dcap.new_runtime
    verify_attestation_frame resp (some nonce) expected
    let kv = unwrap_or 0 resp.key_version
    pk_b64 ← lift (ok_or (text "no public_key") resp.public_key)
    pk ← lift (plat.b64_decode pk_b64)
    pure (kv, pk)

  pub Mute-challenge_rest :
      (expected : Option Text) (nonce : Bytes) (resp : Frame)
      → Mute {D = D} (challenge_rest expected nonce resp)
  Mute-challenge_rest expected nonce resp =
      search (mute_rules, Mute-verify_attestation_frame) depth 12
