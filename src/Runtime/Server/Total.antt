-- ===== src/Runtime/Server/Total.antt =====
-- The computation of an answer in runtime/src/main.rs never ends in a panic.
use tee_demo.Base.{
  ℕ, ◌≡◌, refl, Bool, true, false, Option, none, some, leb, unwrap_or, Returns, Returns-bind,
  Returns-bind_ok, map_err-ok, Returns-map_err, Returns-ok_or, find, ◌==◌, if◌then◌else◌, ◌-◌,
  Outcome, Fallible, ok, err, panic,
}
use tee_demo.Base.Bytes.{Bytes, Text, text}
use tee_demo.Base.Int.{ℤ}
use tee_demo.Strings.Slices.{Steps}
use tee_demo.Strings.Utf8.{from_utf8, from_utf8-Returns}
use tee_demo.Strings.Utf8.Boundaries.{from_utf8-Steps}
use tee_demo.Protocol.Frame.{Frame, op_host_compute_response}
use tee_demo.Protocol.Platform.{Platform}
use tee_demo.Protocol.Aead
use tee_demo.Protocol.Aead.{aad_json}
use tee_demo.Protocol.Aead.Envelopes.{decrypt-Returns}
use tee_demo.KeyStore
use tee_demo.KeyStore.{KeyStore, DecryptErr, StoredKey, expired, unknown, lookup}
use tee_demo.Runtime.Compute.Slicing.{extract_field-Returns}
use tee_demo.Runtime.Compute.{parse_xy_json, open_request}
use tee_demo.Runtime.Server.{missing_ct, compute_response, compute_reply}

-- What `lookup` makes of the key that it finds
found_Returns :
    (o : Option StoredKey) (old : Bool)
    → Returns {E = DecryptErr} {A = StoredKey}
        (elim o [ some k ↦ ok k | none ↦ if old then err expired else err unknown ])
found_Returns (some k) old = tt
found_Returns none true = tt
found_Returns none false = tt

lookup-Returns : (store : KeyStore) (version : ℕ) → Returns (lookup store version)
unfolding lookup
lookup-Returns store version =
    found_Returns (find (λ k. k.version == version) store.keys)
      (leb 2 (store.current_version - version))

parse_xy_json-Returns : (s : Text) → Steps s → Returns (parse_xy_json s)
unfolding parse_xy_json
parse_xy_json-Returns s steps =
    Returns-bind _ _ (extract_field-Returns s (text "x") (text "\"x\"") steps refl) λ field_x.
      Returns-bind _ _ (Returns-ok_or _ field_x) λ x.
        Returns-bind _ _ (extract_field-Returns s (text "y") (text "\"y\"") steps refl)
          λ field_y. Returns-bind _ _ (Returns-ok_or _ field_y) λ y. tt

module _ ⦃plat : Platform⦄ where
  -- The crates' calls return.
  pub record CratesReturn : Type 0 where
    pub decodes : (t : Text) → Returns (plat.b64_decode t)
    pub private_keys : (b : Bytes) → Returns (plat.private_key_from_bytes b)
    pub encapped_keys : (b : Bytes) → Returns (plat.encapped_key_from_bytes b)
    pub opens :
        (sk enc info body aad : Bytes) → Returns (plat.single_shot_open sk enc info body aad)

  open_request-Returns :
      (store : KeyStore) (v : ℕ) (ct_b64 aad : Text)
      → CratesReturn
      → Returns (open_request store v ct_b64 aad)
  unfolding open_request KeyStore.decrypt
  open_request-Returns store v ct_b64 aad crates =
      Returns-bind _ _ (Returns-map_err _ _ (crates.decodes ct_b64)) λ ct.
        Returns-bind _ _
          (Returns-map_err _ _ (
            Returns-bind _ _ (lookup-Returns store v) λ key.
              Returns-map_err _ (Aead.decrypt key.private_key ct aad) (
                decrypt-Returns key.private_key ct aad crates.private_keys crates.encapped_keys
                  λ sk enc info body. crates.opens sk enc info body aad)))
          λ pt. Returns-bind_ok _ _ (Returns-map_err _ _ (from_utf8-Returns pt)) λ s accepted.
            Returns-map_err _ _ (
              parse_xy_json-Returns s (from_utf8-Steps pt s (map_err-ok _ (from_utf8 pt) accepted)))

  abbrev Answered : Frame → Fallible Frame → Type 0
  Answered frame r =
      (reply : Frame) × (r ≡ ok reply)
      × (reply.id ≡ frame.id)
      × (reply.op ≡ op_host_compute_response)

  compute_response-Answered :
      (frame : Frame) (r : Outcome (Text × Text) (ℤ × ℤ))
      → Returns r
      → Answered frame (compute_response frame r)
  compute_response-Answered frame (ok (x, y)) h = (_, refl, refl, refl)
  compute_response-Answered frame (err (c, m)) h = (_, refl, refl, refl)
  compute_response-Answered frame panic h = elim h [ ]

  ct_Answered :
      (store : KeyStore) (frame : Frame) (v : ℕ) (aad : Text) (ct : Option Text)
      → CratesReturn
      → Answered frame (elim ct [
        | none ↦ ok (missing_ct frame)
        | some ct_b64 ↦ compute_response frame (open_request store v ct_b64 aad)
      ])
  ct_Answered store frame v aad none crates = (missing_ct frame, refl, refl, refl)
  ct_Answered store frame v aad (some ct_b64) crates =
      compute_response-Answered frame (open_request store v ct_b64 aad)
        (open_request-Returns store v ct_b64 aad crates)

  -- Whatever frame the host sends as a compute request, and whatever the key store: the runtime
  -- computes one answer, with the request's id and the operation of a compute response, and does
  -- not panic: no version, ciphertext, associated data or plaintext takes a slice out of range or
  -- into a character. The calls of the base64 and hpke crates are assumed not to panic.
  pub compute_reply-total :
      (store : KeyStore) (frame : Frame)
      → CratesReturn
      → (reply : Frame) × (compute_reply store frame ≡ ok reply)
        × (reply.id ≡ frame.id)
        × (reply.op ≡ op_host_compute_response)
  unfolding compute_reply
  compute_reply-total store frame crates =
      ct_Answered store frame (unwrap_or 0 frame.key_version)
        (unwrap_or
          (aad_json frame.v (unwrap_or 0 frame.id) (text "compute") (unwrap_or 0 frame.key_version))
          frame.aad_json)
        frame.ct crates
