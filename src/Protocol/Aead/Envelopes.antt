-- ===== src/Protocol/Aead/Envelopes.antt =====
-- The HPKE envelope: a round trip for a matching key pair, and no panic on any input.
use tee_demo.Base.{
  ℕ, ◌+◌, ◌^◌, ◌<◌, ◌≡◌, refl, ap, ◌∙◌, [], ◌++◌, arith, length, append-nil, append_assoc,
  length-append, ok, map_err, slice, slice-append, Returns, Returns-bind, Returns-map_err,
  Returns-unless_short, Returns-slice, take, drop,
}
use mathlib.Core.Path.{subst}
use tee_demo.Base.Bytes.{
  Bytes, Text, to_le_bytes, from_le_bytes, as_u16, length-to_le_bytes, from_le_bytes-to_le_bytes,
}
use tee_demo.Protocol.Platform.{Platform, IsKeyPair}
use tee_demo.Protocol.Aead.{hpke_info, encrypt, decrypt}

-- The three parts of an envelope, as `decrypt` cuts them
module _ (enc ct : Bytes) (short : length enc < 2 ^ 16) where
  abbrev header : Bytes
  header = to_le_bytes 2 (as_u16 (length enc))

  abbrev packed : Bytes
  packed = header ++ (enc ++ ct)

  header_reads : from_le_bytes header ≡ length enc
  header_reads = from_le_bytes-to_le_bytes 2 (as_u16 (length enc)) (omega arith) ∙ omega arith

  length-packed : length packed ≡ 2 + length enc + length ct
  length-packed = omega (
    arith,
    length-append header (enc ++ ct),
    length-append enc ct,
    length-to_le_bytes 2 (as_u16 (length enc)),
  )

  slice-header : slice {E = Text} 0 2 packed ≡ ok header
  slice-header =
      slice-append 0 2 [] header (enc ++ ct) refl
        (omega (arith, length-to_le_bytes 2 (as_u16 (length enc))))

  slice-enc : slice {E = Text} 2 (2 + length enc) packed ≡ ok enc
  slice-enc = slice-append 2 _ header enc ct (length-to_le_bytes 2 _) refl

  slice-ct : slice {E = Text} (2 + length enc) (length packed) packed ≡ ok ct
  slice-ct =
      let cut =
        slice-append {E = Text} (2 + length enc) (length packed) (header ++ enc) ct []
          (omega (arith, length-append header enc, length-to_le_bytes 2 (as_u16 (length enc))))
          (omega (arith, length-packed)) in
      subst (λ t. slice {E = Text} (2 + length enc) (length packed) t ≡ ok ct)
        (append_assoc header enc (ct ++ []) ∙ ap (λ t. header ++ (enc ++ t)) (append-nil ct)) cut

module _ ⦃plat : Platform⦄ where
  open_packed :
      (sk enc ct aad pt sk' enc' : Bytes)
      → length enc < 2 ^ 16
      → plat.private_key_from_bytes sk ≡ ok sk'
      → plat.encapped_key_from_bytes enc ≡ ok enc'
      → plat.single_shot_open sk' enc' hpke_info ct aad ≡ ok pt
      → decrypt sk (to_le_bytes 2 (as_u16 (length enc)) ++ (enc ++ ct)) aad ≡ ok pt
  unfolding decrypt
  open_packed sk enc ct aad pt sk' enc' short a b c = ground (
    arith,
    length-packed enc ct short,
    slice-header enc ct short,
    header_reads enc ct short,
    slice-enc enc ct short,
    slice-ct enc ct short,
    a,
    b,
    c,
  )

  -- What is encrypted to the public key of a matching pair, under any associated data, decrypts
  -- with the private key under the same associated data to the plaintext.
  pub decrypt-encrypt :
      (pk sk plaintext aad : Bytes) (draw : ℕ)
      → IsKeyPair plat pk sk
      → (ct : Bytes) × (encrypt draw pk plaintext aad ≡ ok ct) × (decrypt sk ct aad ≡ ok plaintext)
  decrypt-encrypt pk sk plaintext aad draw pair =
      let e = pair hpke_info draw plaintext aad in
      (
        to_le_bytes 2 (as_u16 (length e.enc)) ++ (e.enc ++ e.sealed_text),
        unfold encrypt in rw (e.public_parses, e.seals) refl,
        open_packed sk e.enc e.sealed_text aad plaintext e.private_key e.parsed_enc e.enc_short
            e.private_parses e.enc_parses e.opens,
      )

  -- Whatever the bytes of the key and of the envelope, `decrypt` does not panic: every slice it
  -- takes is in range. The calls of the hpke crate are assumed not to panic.
  pub decrypt-Returns :
      (private_key ct aad : Bytes)
      → ((b : Bytes) → Returns (plat.private_key_from_bytes b))
      → ((b : Bytes) → Returns (plat.encapped_key_from_bytes b))
      → ((sk enc info body : Bytes) → Returns (plat.single_shot_open sk enc info body aad))
      → Returns (decrypt private_key ct aad)
  unfolding decrypt
  decrypt-Returns private_key ct aad r1 r2 r3 = Returns-unless_short (length ct) 2 _ _ λ h1.
      Returns-slice 0 2 ct _ (omega arith) (omega arith) (
        Returns-unless_short (length ct) _ _ _ λ h2.
          Returns-slice _ _ ct _ (omega arith) (omega arith) (
            Returns-slice _ _ ct _ (omega arith) (omega arith) (
              Returns-bind (map_err _ (plat.private_key_from_bytes private_key)) _
                (Returns-map_err _ _ (r1 private_key))
                λ sk.
                  Returns-bind (map_err _ (plat.encapped_key_from_bytes (take _ (drop 2 ct)))) _
                    (Returns-map_err _ _ (r2 _))
                    λ enc.
                      Returns-map_err _ (plat.single_shot_open sk enc hpke_info _ aad)
                        (r3 sk enc hpke_info _))))
