-- ===== src/Host/Daemon/Moves.antt =====
-- What the requests of host/src/main.rs do to the counter of ids and to the frames sent.
use tee_demo.Base.{
  ℕ, ◌≡◌, refl, sym, ap, Bool, true, false, Option, none, some, List, [], ◌∷◌, ◌++◌, same,
  if◌then◌else◌, ok_or, Fallible, ok, err, panic,
}
use mathlib.Core.Path.{subst}
use tee_demo.Base.State.{State, continue, ◌>>=◌, pure, lift}
use tee_demo.Base.Bytes.{Bytes, Text, text}
use tee_demo.Protocol.Frame.{
  Frame, op_client_compute, op_client_challenge, op_client_pubkey, op_client_rotate,
}
use tee_demo.Protocol.Platform.{Platform}
use tee_demo.Host.Connection.{
  AttestationBundle, RuntimeConnection, Wait, request, fresh_id, request_attestation,
  request_compute_ct, request_rotate,
}
use tee_demo.Host.Clients.{
  Serving, locked, write_out, client_challenge, attested_bundle, client_pubkey, handle_client,
}
use tee_demo.Host.Daemon.{Step, client, worker, arrival, serve_client, attest_worker}

-- No request, a request whose write failed, or a request with the fresh id
pub data Advances (c d : RuntimeConnection) : Type 0 where
  idle : d.next_id ≡ c.next_id → d.sent ≡ c.sent → Advances c d
  unsent : d.next_id ≡ fresh_id c → d.sent ≡ c.sent → Advances c d
  asked :
      (f : Frame)
      → f.id ≡ some (fresh_id c)
      → d.next_id ≡ fresh_id c
      → d.sent ≡ c.sent ++ f ∷ []
      → Advances c d

Advances-request :
    (f : Frame) (w : Fallible (Unit {0})) (c : RuntimeConnection)
    (wait : AttestationBundle → List (Fallible Frame) → Wait)
    → f.id ≡ some (fresh_id c)
    → Advances c (request f w (record c { next_id = fresh_id c }) wait).1
Advances-request f (ok u) c wait i = asked f i refl refl
Advances-request f (err e) c wait i = unsent refl refl
Advances-request f panic c wait i = unsent refl refl

record Still {A : Type 0} (m : State Serving A) : Type 0 where
  at : (s : Serving) → (m s).1.runtime ≡ s.runtime

record Moves {A : Type 0} (m : State Serving A) : Type 0 where
  at : (s : Serving) → Advances s.runtime (m s).1.runtime

Moves-Still : {A : Type 0} (m : State Serving A) → Still m → Moves m
Moves-Still m h = record {
  at = λ s.
      idle (ap (λ (c : RuntimeConnection). c.next_id) (h.at s))
        (ap (λ (c : RuntimeConnection). c.sent) (h.at s));
}

Moves-locked :
    (call : RuntimeConnection → Fallible Frame × RuntimeConnection)
    → ((c : RuntimeConnection) → Advances c (call c).1)
    → Moves (locked call)
Moves-locked call h = record { at = λ s. h s.runtime }

Still-write_out : (out : Frame) (w : Fallible (Unit {0})) → Still (write_out out w)
Still-write_out out (ok u) = record { at = λ s. refl }
Still-write_out out (err e) = record { at = λ s. refl }
Still-write_out out panic = record { at = λ s. refl }

module _ {A B : Type 0} where
  Still-then-Moves :
      (r : Fallible A) (s : Serving) (c : RuntimeConnection) (k : A → State Serving B)
      → s.runtime ≡ c
      → ((a : A) → Moves (k a))
      → Advances c (continue (r, s) k).1.runtime
  Still-then-Moves (ok a) s c k e h = subst (λ x. Advances x (k a s).1.runtime) e ((h a).at s)
  Still-then-Moves (err x) s c k e h =
      idle (ap (λ (d : RuntimeConnection). d.next_id) e) (ap (λ (d : RuntimeConnection). d.sent) e)
  Still-then-Moves panic s c k e h =
      idle (ap (λ (d : RuntimeConnection). d.next_id) e) (ap (λ (d : RuntimeConnection). d.sent) e)

  Moves-then-Still :
      (r : Fallible A) (s : Serving) (c : RuntimeConnection) (k : A → State Serving B)
      → Advances c s.runtime
      → ((a : A) → Still (k a))
      → Advances c (continue (r, s) k).1.runtime
  Moves-then-Still (ok a) s c k adv h = subst (Advances c) (sym ((h a).at s)) adv
  Moves-then-Still (err x) s c k adv h = adv
  Moves-then-Still panic s c k adv h = adv

  -- A chain of which one action asks the runtime at most once
  Moves-after :
      (m : State Serving A) (k : A → State Serving B)
      → Still m
      → ((a : A) → Moves (k a))
      → Moves (m >>= k)
  Moves-after m k hm hk = record {
    at = λ s. Still-then-Moves (m s).0 (m s).1 s.runtime k (hm.at s) hk;
  }

  Moves-before :
      (m : State Serving A) (k : A → State Serving B)
      → Moves m
      → ((a : A) → Still (k a))
      → Moves (m >>= k)
  Moves-before m k hm hk = record {
    at = λ s. Moves-then-Still (m s).0 (m s).1 s.runtime k (hm.at s) hk;
  }

Still-lift : {A : Type 0} (r : Fallible A) → Still (lift r)
Still-lift r = record { at = λ s. refl }

Moves-if :
    {A : Type 0} (b : Bool) (m n : State Serving A) → Moves m → Moves n → Moves (if b then m else n)
Moves-if true m n hm hn = hm
Moves-if false m n hm hn = hn

Moves-compute_ct :
    (w : Fallible (Unit {0})) (client_id : ℕ) (ct aad : Text) (v : ℕ)
    → Moves (locked (request_compute_ct w client_id ct aad v))
unfolding request_compute_ct
Moves-compute_ct w client_id ct aad v = Moves-locked _ λ c. Advances-request _ w c _ refl

Moves-rotate : (w : Fallible (Unit {0})) → Moves (locked (request_rotate w))
unfolding request_rotate
Moves-rotate w = Moves-locked _ λ c. Advances-request _ w c _ refl

module _ ⦃plat : Platform⦄ where
  Advances-attestation :
      (w : Fallible (Unit {0})) (nonce : Option Bytes) (c : RuntimeConnection)
      → Advances c (request_attestation w nonce c).1
  unfolding request_attestation
  Advances-attestation w n c = Advances-request _ w c _ refl

  module _ (wr wc : Fallible (Unit {0})) where
    Moves-attested_bundle : (quote : Option Text) → Moves (attested_bundle wr wc quote)
    Moves-attested_bundle (some quote) = record { at = λ s. idle refl refl }
    Moves-attested_bundle none =
        Moves-before _ (λ resp. pure tt)
          (Moves-locked _ (Advances-attestation wr (some (text "pubkey-attest-nonce"))))
          λ resp. record { at = λ s. refl }

    Moves-challenge :
        (client_id : ℕ) (nonce : Option Text) → Moves (client_challenge wr wc client_id nonce)
    Moves-challenge client_id none = Moves-Still _ (Still-write_out _ wc)
    Moves-challenge client_id (some n) = Moves-after _ _ (Still-lift (plat.b64_decode n)) λ nonce.
        Moves-before _ _ (Moves-locked _ (Advances-attestation wr (some nonce)))
          λ resp. Still-write_out _ wc

    Moves-pubkey : (client_id : ℕ) → Moves (client_pubkey wr wc client_id)
    Moves-pubkey client_id = record {
      at = λ s.
          (Moves-before _ _ (Moves-attested_bundle s.runtime.latest_bundle.quote)
              λ u. record { at = λ t. (Still-write_out _ wc).at t }).at
            s;
    }

    -- A client makes the host ask the runtime at most once.
    Moves-handle_client : (received : Fallible Frame) → Moves (handle_client wr wc received)
    unfolding handle_client
    Moves-handle_client received = Moves-after _ _ (Still-lift received) λ req.
        Moves-if (same req.op op_client_compute) _ _
          (Moves-after _ _ (Still-lift (ok_or (text "missing ct") req.ct))
            λ ct. Moves-before _ _ (Moves-compute_ct wr _ ct _ _) λ resp. Still-write_out _ wc)
          (Moves-if (same req.op op_client_challenge) _ _ (Moves-challenge _ req.nonce) (
            Moves-if (same req.op op_client_pubkey) _ _ (Moves-pubkey _) (
              Moves-if (same req.op op_client_rotate) _ _
                (Moves-before _ _ (Moves-rotate wr) λ resp. Still-write_out _ wc)
                (Moves-Still _ (Still-write_out _ wc)))))

  -- A step of the daemon asks the runtime at most once, under the fresh id.
  pub Step-Advances : {c d : RuntimeConnection} → Step c d → Advances c d
  unfolding serve_client attest_worker
  Step-Advances {c = c} (client wr wc received) =
      (Moves-handle_client wr wc received).at (record { runtime = c; written = [] })
  Step-Advances {c = c} (worker w now) = Advances-attestation w _ c
  Step-Advances (arrival r) = idle refl refl
