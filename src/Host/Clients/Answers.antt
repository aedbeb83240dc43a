-- ===== src/Host/Clients/Answers.antt =====
-- Every request of a client gets one answer, or none if the handler fails.
use tee_demo.Base.{
  ℕ, ◌≡◌, ◌≢◌, ◌⊎◌, refl, ◌∙◌, inl, inr, Bool, true, false, Option, none, some, List, [], ◌∷◌, ◌++◌,
  same, Bool-cases, is_true, if◌then◌else◌, unwrap_or, ok_or, Fallible, ok, err, panic,
}
use mathlib.Core.Path.{subst}
use tee_demo.Base.State.{State, continue, ◌>>=◌, pure, lift}
use tee_demo.Base.Bytes.{Text, text}
use tee_demo.Protocol.Frame.{
  Frame, op_client_compute, op_host_compute_result, op_client_pubkey, op_host_pubkey_result,
  op_client_rotate, op_host_rotate_result, op_client_challenge, op_host_challenge_result,
}
use tee_demo.Protocol.Platform.{Platform}
use tee_demo.Host.Connection.{RuntimeConnection, request_attestation, request_rotate}
use tee_demo.Host.Clients.{
  Serving, locked, write_out, latest_bundle, compute_result, missing_nonce, unsupported_op,
  client_compute, client_challenge, attested_bundle, client_pubkey, handle_client,
}

-- Nothing is written to the client.
pub record Silent {A : Type 0} (m : State Serving A) : Type 0 where
  pub at : (s : Serving) → (m s).1.written ≡ s.written

-- One answer is written, with this id and operation, if the action returns, and none otherwise.
abbrev AnswersFrom : ℕ → Text → List Frame → Fallible (Unit {0}) × Serving → Type 0
AnswersFrom client_id op before after =
    ((out : Frame) × (after.0 ≡ ok tt)
      × (out.id ≡ some client_id)
      × (out.op ≡ op)
      × (after.1.written ≡ before ++ out ∷ []))
    ⊎ ((after.0 ≢ ok tt) × (after.1.written ≡ before))

pub record Answers (client_id : ℕ) (op : Text) (m : State Serving (Unit {0})) : Type 0 where
  pub answer : (s : Serving) → AnswersFrom client_id op s.written (m s)

module _ {A : Type 0} where
  Silent-lift : (r : Fallible A) → Silent (lift r)
  Silent-lift r = record { at = λ s. refl }

  kept-continue :
      {B : Type 0} (r : Fallible A) (s : Serving) (k : A → State Serving B)
      → ((a : A) → Silent (k a))
      → (continue (r, s) k).1.written ≡ s.written
  kept-continue (ok a) s k h = (h a).at s
  kept-continue (err e) s k h = refl
  kept-continue panic s k h = refl

  Silent-bind :
      {B : Type 0} (m : State Serving A) (k : A → State Serving B)
      → Silent m
      → ((a : A) → Silent (k a))
      → Silent (m >>= k)
  Silent-bind m k hm hk = record { at = λ s. kept-continue (m s).0 (m s).1 k hk ∙ hm.at s }

  Answers-continue :
      (client_id : ℕ) (op : Text) (before : List Frame) (r : Fallible A) (s : Serving)
      (k : A → State Serving (Unit {0}))
      → s.written ≡ before
      → ((a : A) → Answers client_id op (k a))
      → AnswersFrom client_id op before (continue (r, s) k)
  Answers-continue client_id op before (ok a) s k e h =
      subst (λ b. AnswersFrom client_id op b (k a s)) e ((h a).answer s)
  Answers-continue client_id op before (err x) s k e h = inr ((λ q. cc q), e)
  Answers-continue client_id op before panic s k e h = inr ((λ q. cc q), e)

  Answers-bind :
      (client_id : ℕ) (op : Text) (m : State Serving A) (k : A → State Serving (Unit {0}))
      → Silent m
      → ((a : A) → Answers client_id op (k a))
      → Answers client_id op (m >>= k)
  Answers-bind client_id op m k hm hk = record {
    answer = λ s. Answers-continue client_id op s.written (m s).0 (m s).1 k (hm.at s) hk;
  }

Silent-locked :
    (call : RuntimeConnection → Fallible Frame × RuntimeConnection) → Silent (locked call)
Silent-locked call = record { at = λ s. refl }

Silent-latest_bundle : Silent latest_bundle
Silent-latest_bundle = record { at = λ s. refl }

Answers-write_out :
    (client_id : ℕ) (op : Text) (out : Frame) (w : Fallible (Unit {0}))
    → out.id ≡ some client_id
    → out.op ≡ op
    → Answers client_id op (write_out out w)
Answers-write_out client_id op out (ok u) i o = record { answer = λ s. inl (out, refl, i, o, refl) }
Answers-write_out client_id op out (err e) i o = record { answer = λ s. inr ((λ q. cc q), refl) }
Answers-write_out client_id op out panic i o = record { answer = λ s. inr ((λ q. cc q), refl) }

compute_result-fields :
    (client_id : ℕ) (resp : Frame)
    → ((compute_result client_id resp).id ≡ some client_id)
      × ((compute_result client_id resp).op ≡ op_host_compute_result)
compute_result-fields client_id resp = elim (Bool-cases (is_true resp.ok)) [
  | inl e ↦ rw e (refl, refl)
  | inr e ↦ rw e (refl, refl)
]

-- The operation of the answer to each operation of a client
abbrev pub result_op : Text → Text
result_op op =
    if same op op_client_compute
    then op_host_compute_result
    else if same op op_client_challenge
    then op_host_challenge_result
    else if same op op_client_pubkey
    then op_host_pubkey_result
    else if same op op_client_rotate
    then op_host_rotate_result
    else text "error"

Answers-if :
    (b : Bool) (client_id : ℕ) (op op' : Text) (m n : State Serving (Unit {0}))
    → Answers client_id op m
    → Answers client_id op' n
    → Answers client_id (if b then op else op') (if b then m else n)
Answers-if true client_id op op' m n hm hn = hm
Answers-if false client_id op op' m n hm hn = hn

module _ ⦃plat : Platform⦄ (wr wc : Fallible (Unit {0})) where
  Answers-compute :
      (req : Frame) (client_id : ℕ)
      → Answers client_id op_host_compute_result (client_compute wr wc req client_id)
  Answers-compute req client_id =
      Answers-bind client_id _ _ _ (Silent-lift (ok_or (text "missing ct") req.ct)) λ ct.
        Answers-bind client_id _ _ _ (Silent-locked _) λ resp.
          Answers-write_out client_id _ (compute_result client_id resp) wc
            (compute_result-fields client_id resp).0 (compute_result-fields client_id resp).1

  Answers-challenge :
      (client_id : ℕ) (nonce : Option Text)
      → Answers client_id op_host_challenge_result (client_challenge wr wc client_id nonce)
  Answers-challenge client_id none =
      Answers-write_out client_id _ (missing_nonce client_id) wc refl refl
  Answers-challenge client_id (some n) =
      Answers-bind client_id _ _ _ (Silent-lift (plat.b64_decode n)) λ nonce.
        Answers-bind client_id _ _ _ (Silent-locked _)
          λ resp. Answers-write_out client_id _ _ wc refl refl

  Silent-attested_bundle : (quote : Option Text) → Silent (attested_bundle wr wc quote)
  Silent-attested_bundle (some quote) = record { at = λ s. refl }
  Silent-attested_bundle none =
      Silent-bind (locked (request_attestation wr (some (text "pubkey-attest-nonce"))))
        (λ resp. pure tt) (Silent-locked _) λ resp. record { at = λ s. refl }

  Answers-pubkey :
      (client_id : ℕ) → Answers client_id op_host_pubkey_result (client_pubkey wr wc client_id)
  Answers-pubkey client_id = record {
    answer = λ s.
        (Answers-bind client_id _ _ _ (Silent-attested_bundle s.runtime.latest_bundle.quote) λ u.
            Answers-bind client_id _ _ _ Silent-latest_bundle
              λ bundle. Answers-write_out client_id op_host_pubkey_result _ wc refl refl).answer
          s;
  }

  -- For every request of a client: if the handler returns, it has written exactly one answer, which
  -- has the client's id, 0 if there was none, and the operation that belongs to the request's; if
  -- the handler fails, it has written nothing.
  pub handle_client-answers :
      (req : Frame) (s : Serving)
      → ((out : Frame) × ((handle_client wr wc (ok req) s).0 ≡ ok tt)
          × (out.id ≡ some (unwrap_or 0 req.id))
          × (out.op ≡ result_op req.op)
          × ((handle_client wr wc (ok req) s).1.written ≡ s.written ++ out ∷ []))
        ⊎ (((handle_client wr wc (ok req) s).0 ≢ ok tt)
            × ((handle_client wr wc (ok req) s).1.written ≡ s.written))
  unfolding handle_client
  handle_client-answers req s =
      let client_id = unwrap_or 0 req.id in
      (Answers-if (same req.op op_client_compute) client_id _ _ _ _ (Answers-compute req client_id)
          (Answers-if (same req.op op_client_challenge) client_id _ _ _ _
            (Answers-challenge client_id req.nonce)
            (Answers-if (same req.op op_client_pubkey) client_id _ _ _ _ (Answers-pubkey client_id)
              (Answers-if (same req.op op_client_rotate) client_id _ _ _ _
                (Answers-bind client_id _ _ _ (Silent-locked (request_rotate wr))
                  λ resp. Answers-write_out client_id op_host_rotate_result _ wc refl refl)
                (Answers-write_out client_id (text "error") (unsupported_op client_id req.op) wc
                  refl refl))))).answer
        s
