-- ===== src/Tests/Client.antt =====
-- The client's commands against a small daemon.
use tee_demo.Base.{
  ◌+◌, ◌≡◌, refl, true, Bool, some, List, [], ◌∷◌, ◌++◌, arith, find, same, if◌then◌else◌, ok,
  panic,
}
use tee_demo.Base.Bytes.{Bytes, Text, text, to_le_bytes}
use tee_demo.Base.Int.{pos, negsuc}
use tee_demo.Protocol.Frame
use tee_demo.Protocol.Frame.{
  Frame, op_client_challenge, op_client_rotate, op_host_challenge_result, op_host_compute_response,
  op_host_ready,
}
use tee_demo.Protocol.Aead.{encrypt}
use tee_demo.Protocol.Binding.{report_data_binding}
use tee_demo.Protocol.Verify.{sgx_enclave, verify_quote_allow_debug}
use tee_demo.Protocol.Verify.Sound.{IsExpected}
use tee_demo.KeyStore.{lookup}
use tee_demo.KeyStore.Retention.{key_of}
use tee_demo.Runtime.Compute.{compute}
use tee_demo.Runtime.Server.{compute_reply}
use tee_demo.Runtime.Server.Computing.{compute_reply-sealed}
use tee_demo.Host.Connection.{RuntimeConnection, from_frame}
use tee_demo.Host.Clients.{Serving, handle_client, quoted_result}
use tee_demo.Host.Clients.Computes.{forwarded, computed_result, handle_client-computes}
use tee_demo.Host.Client.{Desk, Surroundings, random_challenge_nonce, challenge_and_verify}
use tee_demo.Host.Client.Hex.{hex_decode, hex_decode_panics}
use tee_demo.Host.Client.Commands.{compute_request, cmd_calc, cmd_rotate}
use tee_demo.Host.Client.Verified.{challenge_and_verify_sound}
use tee_demo.Host.Client.Genuine.{verified_lines, challenge_and_verify_complete}
use tee_demo.Host.Client.Calculates.{calc_aad, calc_lines, cmd_calc-computes}
use tee_demo.Host.Client.Logged.{Logged, logged}
use tee_demo.Host.Client.Confidential.{IsGuarded, cmd_calc-IsGuarded}
use tee_demo.Host.Client.Rotates.{made_up, rotated_lines, cmd_rotate-made_up}
use tee_demo.Tests.Toy.{toy, toy-IsKeyPair}
use tee_demo.Tests.Verify.{toy_dcap, expected, toy-b64, quote-verified, expected-IsExpected}
use tee_demo.Tests.Server.{store, sealed_request}

hex_decode_panics_example : hex_decode (b'a' ∷ 0xe2 ∷ 0x82 ∷ 0xac ∷ []) ≡ panic
hex_decode_panics_example = hex_decode_panics b'a' (omega arith) (omega arith)

abbrev public_key : Bytes
public_key = (key_of 8 2).public_key

abbrev nonce : Bytes
nonce = 4 ∷ 2 ∷ []

abbrev quote : Bytes
quote = report_data_binding 2 public_key nonce

abbrev pub challenged : Frame
challenged =
    quoted_result op_host_challenge_result 1700 (record (Frame.new op_host_challenge_result) {
      key_version = some 2;
      public_key = some public_key;
      quote = some quote;
      binding_nonce = some nonce;
    })

-- A daemon whose answers are fixed; its state is not used.
instance abbrev pub toy_surroundings : Surroundings Bool
toy_surroundings = record {
  client_roundtrip = λ req d.
      if same req.op op_client_challenge
      then (ok challenged, d)
      else if same req.op op_client_rotate
      then (ok (made_up 3 (text "key") (text "nonce") (text "quote")), d)
      else (ok (computed_result 1701 (compute (pos 3) (negsuc 1))), d);
  now_secs = λ reading. 1700 + reading;
  urandom = λ draw. ok nonce;
}

abbrev desk : Desk Bool
desk = record { daemon = true; printed = []; readings = 0; draws = 0 }

abbrev drawn : Desk Bool
drawn = record desk { draws = 1 }

abbrev verified : Desk Bool
verified = record drawn {
  readings = 1;
  printed = [] ++ (verified_lines (10 ∷ 11 ∷ []) quote 2 public_key);
}

drawn-ok : random_challenge_nonce desk ≡ (ok nonce, drawn)
unfolding random_challenge_nonce
drawn-ok = refl

verified-ok : challenge_and_verify expected desk ≡ (ok (2, public_key), verified)
unfolding same
verified-ok =
    challenge_and_verify_complete expected desk drawn nonce quote public_key (10 ∷ 11 ∷ []) 2
      challenged true toy-b64 refl drawn-ok refl refl refl refl refl refl (quote-verified quote)
      expected-IsExpected

challenge_and_verify_sound_example :
    (n : Bytes) × (mid : Desk Bool) × (q : Bytes) × (mr_enclave : Bytes) × (random_challenge_nonce
        desk
      ≡ (ok n, mid))
    × (verify_quote_allow_debug q
        ≡ ok (sgx_enclave mr_enclave (report_data_binding 2 public_key n)))
    × IsExpected mr_enclave expected
challenge_and_verify_sound_example =
    challenge_and_verify_sound expected desk verified 2 public_key toy-b64 verified-ok

cmd_rotate-made_up_example :
    (s' : Desk Bool) × (cmd_rotate desk ≡ (ok tt, s'))
    × (s'.printed ≡ [] ++ rotated_lines 3 (text "key") (text "nonce") (text "quote"))
unfolding same
cmd_rotate-made_up_example =
    cmd_rotate-made_up 3 (text "key") (text "nonce") (text "quote") desk true toy-b64 refl

-- The daemon's side of the computation
abbrev aad : Text
aad = calc_aad 1701 2

abbrev request : Frame
request = compute_request 1701 2 sealed_request aad

abbrev connection : RuntimeConnection
connection = record {
  inbox = [];
  sent = [];
  next_id = 7;
  latest_bundle = from_frame (Frame.new op_host_ready);
}

abbrev reply : Frame
reply = record (Frame.new op_host_compute_response) {
  id = some 8;
  ok = some true;
  result = some (compute (pos 3) (negsuc 1));
}

abbrev serving : Serving
serving = record { runtime = record connection { inbox = ok reply ∷ [] }; written = [] }

abbrev answer : Frame
answer = computed_result 1701 (compute (pos 3) (negsuc 1))

reply-ok : compute_reply store (forwarded serving.runtime sealed_request aad 2) ≡ ok reply
unfolding lookup encrypt find to_le_bytes
reply-ok =
    compute_reply-sealed store (forwarded serving.runtime sealed_request aad 2) 2 (key_of 8 2) 0
      (pos 3) (negsuc 1) aad sealed_request refl (toy-IsKeyPair 8) refl refl refl refl refl
      (omega arith) (omega arith)

served :
    (s' : Serving) × (handle_client (ok tt) (ok tt) (ok request) serving ≡ (ok tt, s'))
    × (s'.written ≡ [] ++ answer ∷ [])
unfolding lookup encrypt find to_le_bytes
served =
    handle_client-computes store (key_of 8 2) request reply serving [] 2 0 (pos 3) (negsuc 1) aad
      sealed_request refl (toy-IsKeyPair 8) refl refl refl refl refl refl (omega arith)
      (omega arith) refl reply-ok

cmd_calc-computes_example :
    (s' : Desk Bool) × (cmd_calc (pos 3) (negsuc 1) expected desk ≡ (ok tt, s'))
    × (s'.printed ≡ verified.printed ++ calc_lines (pos 3) (negsuc 1) 2)
unfolding lookup encrypt find to_le_bytes same
cmd_calc-computes_example =
    cmd_calc-computes (pos 3) (negsuc 1) expected desk verified store (key_of 8 2) 2 sealed_request
      serving served.0 reply answer [] true verified-ok refl (toy-IsKeyPair 8) refl refl
      (omega arith) (omega arith) refl reply-ok served.1 served.2 refl

abbrev logged_desk : Desk (Logged Bool)
logged_desk = record {
  daemon = record { inner = true; log = [] };
  printed = [];
  readings = 0;
  draws = 0;
}

cmd_calc-IsGuarded_example :
    (requests : List Frame) × ((cmd_calc ⦃around = logged toy_surroundings⦄
        (pos 3)
        (negsuc 1)
        expected
        logged_desk).1.daemon.log
      ≡ requests)
    × IsGuarded (pos 3) (negsuc 1) expected requests
cmd_calc-IsGuarded_example =
    cmd_calc-IsGuarded toy_surroundings (pos 3) (negsuc 1) expected logged_desk toy-b64
