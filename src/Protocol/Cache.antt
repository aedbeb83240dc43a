-- ===== src/Protocol/Cache.antt =====
-- The untrusted attestation.json of protocol/src/lib.rs
use Prim.Native.Nat.{min}
use tee_demo.Base.{ℕ, ◌+◌, ◌-◌, ◌^◌, Option, none, some, [], ◌∷◌, concat}
use tee_demo.Base.Bytes.{Text, text}
use tee_demo.Strings.Decimal.{show_nat}
use tee_demo.Protocol.Frame.{protocol_version}

abbrev pub attestation_cache_ttl_secs : ℕ
attestation_cache_ttl_secs = 3600

-- `saturating_add` of `u64`
abbrev pub saturating_add : ℕ → ℕ → ℕ
saturating_add a b = min (a + b) (2 ^ 64 - 1)

-- `"name":"value",`, or nothing
optional_field : Text → Option Text → Text
optional_field name none = []
optional_field name (some value) =
    concat (text "\"" ∷ name ∷ text "\":\"" ∷ value ∷ text "\"," ∷ [])

unfoldable pub attestation_cache_json : Text → ℕ → Text → Option Text → Option Text → ℕ → ℕ → Text
unfolding optional_field
attestation_cache_json quote key_version public_key binding_nonce report_data generated_at
      sequence =
    let expires_at = saturating_add generated_at attestation_cache_ttl_secs in
    concat (
      text "{\"v\":"
      ∷ show_nat protocol_version
      ∷ text ",\"quote_type\":\"ecdsa\",\"quote\":\""
      ∷ quote
      ∷ text "\",\"key_version\":"
      ∷ show_nat key_version
      ∷ text ",\"public_key\":\""
      ∷ public_key
      ∷ text "\","
      ∷ optional_field (text "binding_nonce") binding_nonce
      ∷ optional_field (text "report_data") report_data
      ∷ text "\"generated_at\":"
      ∷ show_nat generated_at
      ∷ text ",\"expires_at\":"
      ∷ show_nat expires_at
      ∷ text ",\"sequence\":"
      ∷ show_nat sequence
      ∷ text "}"
      ∷ [])
