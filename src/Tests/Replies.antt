-- ===== src/Tests/Replies.antt =====
-- A compute request with a ciphertext that is cut off.
use tee_demo.Protocol.Frame
use tee_demo.Base.{
  ◌≡◌, ◌∙◌, sym, ap, inl, inr, some, [], ◌∷◌, ◌==◌, same, Bool, Bool-cases, if◌then◌else◌, length,
  length-replicate, ok, err, ok-injective, Returns, ◌++◌, true, false,
}
use tee_demo.Protocol.Frame.{Frame, op_host_compute_response, op_runtime_compute_request}
use tee_demo.Runtime.Server.{compute_reply, Session, handle_attestation_request}
use tee_demo.Base.Bytes.{Bytes, Text, text}
use tee_demo.KeyStore.{keyring_json}
use tee_demo.Sealing.Safety.{SealingReturns}
use tee_demo.Runtime.Link.{Peer, Io}
use tee_demo.Runtime.Link.Steady.{StreamReturns}
use tee_demo.Runtime.Attest.{maybe_stale_attest, send_ready}
use tee_demo.Runtime.Main.{main, main_returns}
use tee_demo.Runtime.Server.Secrecy.{without_secrets, seen, handle_attestation_request-no_secrets}
use tee_demo.Runtime.Server.Total.{CratesReturn, compute_reply-total}
use tee_demo.Tests.Toy.{toy}
use tee_demo.Tests.Server.{store}

toy-CratesReturn : CratesReturn
toy-CratesReturn = record {
  decodes = λ t. tt;
  private_keys = λ b. tt;
  encapped_keys = λ b. tt;
  opens =
      λ sk enc info body aad. elim (Bool-cases (same sk enc)) [ inl e ↦ rw e tt | inr e ↦ rw e tt ];
}

abbrev cut_off : Frame
cut_off = record (Frame.new op_runtime_compute_request) {
  id = some 12;
  key_version = some 2;
  ct = some (200 ∷ 255 ∷ 1 ∷ []);
}

compute_reply-total_example :
    (reply : Frame) × (compute_reply store cut_off ≡ ok reply)
    × (reply.id ≡ cut_off.id)
    × (reply.op ≡ op_host_compute_response)
compute_reply-total_example = compute_reply-total store cut_off toy-CratesReturn

taken :
    (key : Bytes) (fits : Bool)
    → Returns {E = Text} (if fits then ok key else err (text "InvalidLength"))
taken key true = tt
taken key false = tt

toy-SealingReturns : SealingReturns toy
toy-SealingReturns = record {
  derives = λ req. tt;
  takes_key = λ key. taken key (length key == 16);
  takes_nonce = λ bytes h. rw h tt;
  encrypts = λ cipher bytes nonce m made. tt;
  decrypts = λ cipher bytes nonce ct made. tt;
  draws = λ draw n. tt;
  fills = λ draw n bytes drawn. sym (ap length (ok-injective drawn)) ∙ length-replicate n draw;
}

-- The loader's blob is no sealed one, and the host sends nonsense.
instance abbrev nonsense : Peer (Unit {0})
nonsense = record {
  receive = λ f p. (
    ok (
        ok (record (Frame.new (f.op ++ text "_result")) {
          seq = f.seq;
          ok = some true;
          blob = some (text "TDK1");
          att_key_id = some (text "id");
          target_info = some (text "info");
          quote = some (text "quote");
        })
        ∷ ok cut_off
        ∷ []),
    p,
  );
}

nonsense-StreamReturns : StreamReturns nonsense
nonsense-StreamReturns = record { receives = λ f p. (tt, (tt, tt)) }

abbrev serving : Io (Unit {0})
serving = record { peer = tt; inbox = []; sent = []; seq = 0; readings = 0; draws = 0 }

main_returns_example : main ⦃net = nonsense⦄ 3 (ok serving) ≡ ok tt
main_returns_example =
    main_returns ⦃net = nonsense⦄ nonsense-StreamReturns toy-CratesReturn toy-SealingReturns 3
      serving tt

abbrev session : Session
session = record { last_attested_at = 0; store = store; sequence = 0 }

handle_attestation_request-no_secrets_example :
    (seen (
        handle_attestation_request ⦃net = nonsense⦄ cut_off
          (record session { store = without_secrets store })
          serving)
      ≡ seen (handle_attestation_request ⦃net = nonsense⦄ cut_off session serving))
    × (maybe_stale_attest ⦃net = nonsense⦄ 0 (without_secrets store) 4
        ≡ maybe_stale_attest ⦃net = nonsense⦄ 0 store 4)
    × (send_ready ⦃net = nonsense⦄ (without_secrets store) ≡ send_ready ⦃net = nonsense⦄ store)
    × (keyring_json (without_secrets store) ≡ keyring_json store)
handle_attestation_request-no_secrets_example =
    handle_attestation_request-no_secrets ⦃net = nonsense⦄ cut_off session 0 4 serving
