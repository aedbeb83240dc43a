-- ===== src/Protocol/Binding/Collision.antt =====
-- What a quote's REPORTDATA pins down: the key version, the public key and the nonce.
use tee_demo.Base.{
  ℕ, ◌^◌, ◌<◌, ◌≡◌, sym, ap, ◌∙◌, ◌≢◌, ◌⊎◌, inl, inr, arith, length, append-cancel, same, same_refl,
  same_sound, Bool-cases,
}
use tee_demo.Base.Bytes.{
  Bytes, to_le_bytes, from_le_bytes, as_u16, length-to_le_bytes, from_le_bytes-to_le_bytes,
}
use tee_demo.Protocol.Platform.{Platform}
use tee_demo.Protocol.Binding.{binding_message, report_data_binding}

to_le_bytes-injective :
    (width a b : ℕ)
    → a < 256 ^ width
    → b < 256 ^ width
    → to_le_bytes width a ≡ to_le_bytes width b
    → a ≡ b
to_le_bytes-injective width a b ha hb e =
    sym (from_le_bytes-to_le_bytes width a ha)
    ∙ ap from_le_bytes e
    ∙ from_le_bytes-to_le_bytes width b hb

same_width : (width a b : ℕ) → length (to_le_bytes width a) ≡ length (to_le_bytes width b)
same_width width a b = length-to_le_bytes width a ∙ sym (length-to_le_bytes width b)

module _ (v w : ℕ) (pk qk m n : Bytes) (hv : v < 2 ^ 64) (hw : w < 2 ^ 64) where
  -- The hashed message determines its parts, for public keys of less than 64 KiB.
  binding_message-injective :
      length pk < 2 ^ 16
      → length qk < 2 ^ 16
      → binding_message v pk m ≡ binding_message w qk n
      → (v ≡ w) × (pk ≡ qk) × (m ≡ n)
  binding_message-injective hp hq e =
      let (e0, r0) = append-cancel _ _ _ _ (same_width 2 1 1) e in
      let (ev, r1) = append-cancel _ _ _ _ (same_width 8 v w) r0 in
      let (el, r2) =
        append-cancel _ _ _ _ (same_width 2 (as_u16 (length pk)) (as_u16 (length qk))) r1 in
      let lens : length pk ≡ length qk = omega (
        arith,
        to_le_bytes-injective 2 (as_u16 (length pk)) (as_u16 (length qk)) (omega arith)
            (omega arith) el,
      ) in
      let (ep, r3) = append-cancel _ _ _ _ lens r2 in
      (to_le_bytes-injective 8 v w (omega arith) (omega arith) ev, ep, cc r3)

-- Two messages with one digest
abbrev pub Collides : Platform → Type 0
Collides plat = (a : Bytes) × (b : Bytes) × (a ≢ b) × (plat.sha256 a ≡ plat.sha256 b)

module _ ⦃plat : Platform⦄ where
  -- If two bindings agree then they bind the same key version, public key and nonce, or they
  -- exhibit two different messages with the same SHA-256 digest: for u64 versions and public keys
  -- of less than 64 KiB, with nonces of any length, and for a hash of one fixed length.
  pub report_data_binding-collision :
      (v w : ℕ) (pk qk m n : Bytes)
      → ((a b : Bytes) → length (plat.sha256 a) ≡ length (plat.sha256 b))
      → v < 2 ^ 64
      → w < 2 ^ 64
      → length pk < 2 ^ 16
      → length qk < 2 ^ 16
      → report_data_binding v pk m ≡ report_data_binding w qk n
      → ((v ≡ w) × (pk ≡ qk) × (m ≡ n)) ⊎ Collides plat
  unfolding report_data_binding
  report_data_binding-collision v w pk qk m n digest_len hv hw hp hq e =
      let a : Bytes = binding_message v pk m in
      let b : Bytes = binding_message w qk n in
      let digests = (append-cancel (plat.sha256 a) (plat.sha256 b) _ _ (digest_len a b) e).0 in
      elim (Bool-cases (same a b)) [
        | inl s ↦ inl (binding_message-injective v w pk qk m n hv hw hp hq (same_sound a b s))
        | inr d ↦ inr (a, b, (λ q. cc (d, ap (same a) q, same_refl a)), digests)
      ]
