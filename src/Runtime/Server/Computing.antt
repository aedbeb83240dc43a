-- ===== src/Runtime/Server/Computing.antt =====
-- The answers of runtime/src/main.rs to compute requests.
use tee_demo.Base.{ℕ, ◌<◌, ◌≡◌, refl, true, some, arith, All, All-map, All-append, ok}
use tee_demo.Base.Bytes.{Bytes, text}
use tee_demo.Base.Int.{ℤ, IsI64}
use tee_demo.Strings.Decimal.{show_int}
use tee_demo.Strings.Utf8.{from_utf8-ascii}
use tee_demo.Protocol.Frame
use tee_demo.Protocol.Frame.{
  Frame, op_host_compute_response, err_bad_input, err_key_expired, err_key_unknown,
  err_decrypt_failed,
}
use tee_demo.Protocol.Platform.{Platform, IsKeyPair}
use tee_demo.Protocol.Aead
use tee_demo.Protocol.Aead.Envelopes.{decrypt-encrypt}
use tee_demo.KeyStore
use tee_demo.KeyStore.{
  KeyStore, StoredKey, DecryptErr, expired, unknown, failed, lookup, code, message,
}
use tee_demo.Runtime.Compute.{compute, open_request}
use tee_demo.Runtime.Compute.Plaintext.{plaintext, show_int-All, parse_xy_json-plaintext}
use tee_demo.Runtime.Server.{compute_reply}

plaintext-ascii : (x y : ℤ) → All (λ b. b < 128) (plaintext x y)
unfolding plaintext
plaintext-ascii x y =
    let number =
      λ (a : ℤ). All-map {Q = λ b. b < 128} (λ c h. omega arith) (show_int a) (show_int-All a) in
    All-append _ (text "{\"x\":") _ (omega arith) (
      All-append _ (show_int x) _ (number x) (
        All-append _ (text ",\"y\":") _ (omega arith)
          (All-append _ (show_int y) (text "}") (number y) (omega arith))))

module _ ⦃plat : Platform⦄ where
  decrypt-sealed :
      (store : KeyStore) (v : ℕ) (k : StoredKey) (draw : ℕ) (pt aad ct : Bytes)
      → lookup store v ≡ ok k
      → IsKeyPair plat k.public_key k.private_key
      → Aead.encrypt draw k.public_key pt aad ≡ ok ct
      → KeyStore.decrypt store v ct aad ≡ ok pt
  unfolding KeyStore.decrypt
  decrypt-sealed store v k draw pt aad ct found pair sealed =
      let (ct', e, d) = decrypt-encrypt k.public_key k.private_key pt aad draw pair in
      let same_ct : ct' ≡ ct = cc (e, sealed) in rw (found, ← same_ct, d) refl

  open_request-sealed :
      (store : KeyStore) (v : ℕ) (k : StoredKey) (draw : ℕ) (x y : ℤ) (aad ct : Bytes)
      → lookup store v ≡ ok k
      → IsKeyPair plat k.public_key k.private_key
      → Aead.encrypt draw k.public_key (plaintext x y) aad ≡ ok ct
      → plat.b64_decode (plat.b64_encode ct) ≡ ok ct
      → IsI64 x
      → IsI64 y
      → open_request store v (plat.b64_encode ct) aad ≡ ok (x, y)
  unfolding open_request
  open_request-sealed store v k draw x y aad ct found pair sealed b64 hx hy =
      rw
        (
          b64,
          decrypt-sealed store v k draw (plaintext x y) aad ct found pair sealed,
          from_utf8-ascii (plaintext x y) (plaintext-ascii x y),
          parse_xy_json-plaintext x y hx hy,
        )
        refl

  -- A request that carries two i64 numbers, sealed to a key that the store has for the request's
  -- version, under the associated data that the request names, is answered with the request's id
  -- and the result of `compute` on the two numbers.
  pub compute_reply-sealed :
      (store : KeyStore) (frame : Frame) (v : ℕ) (k : StoredKey) (draw : ℕ) (x y : ℤ)
      (aad ct : Bytes)
      → lookup store v ≡ ok k
      → IsKeyPair plat k.public_key k.private_key
      → Aead.encrypt draw k.public_key (plaintext x y) aad ≡ ok ct
      → plat.b64_decode (plat.b64_encode ct) ≡ ok ct
      → frame.ct ≡ some (plat.b64_encode ct)
      → frame.key_version ≡ some v
      → frame.aad_json ≡ some aad
      → IsI64 x
      → IsI64 y
      → compute_reply store frame
        ≡ ok (record (Frame.new op_host_compute_response) {
          id = frame.id;
          ok = some true;
          result = some (compute x y);
        })
  unfolding compute_reply
  compute_reply-sealed store frame v k draw x y aad ct found pair sealed b64 fc fv fa hx hy =
      rw (fc, fv, fa, open_request-sealed store v k draw x y aad ct found pair sealed b64 hx hy)
        refl
