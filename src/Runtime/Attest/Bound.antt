-- ===== src/Runtime/Attest/Bound.antt =====
-- What an attestation of runtime/src/main.rs vouches for.
use tee_demo.Base.State.{◌>>=◌, lift, bind-ok}
use tee_demo.Base.{
  ℕ, ◌≡◌, sym, ap, ◌∙◌, not, some, List, [], ◌∷◌, ◌++◌, if◌then◌else◌, is_true, Fallible, ok, err,
  ok_or, ok_or-ok, ok-injective, unwrap_or,
}
use tee_demo.Base.Bytes.{Bytes, text}
use tee_demo.Protocol.Frame
use tee_demo.Protocol.Frame.{Frame, op_loader_get_quote, op_loader_get_quote_result}
use tee_demo.Protocol.Platform.{Platform}
use tee_demo.Protocol.Binding.{report_data_binding}
use tee_demo.KeyStore.{KeyStore, StoredKey, current}
use tee_demo.Runtime.Link.{Peer, Io, M, write_frame, next_seq, await_reply}
use tee_demo.Runtime.Link.Bind.{sent-write_frame}
use tee_demo.Runtime.Link.Quiet.{
  Quiet, Quiet-lift, Quiet-if, Quiet-bind, Quiet-next_seq, Quiet-await_reply, sent-Quiet,
}
use tee_demo.Runtime.LoaderCalls.{loader_init_quote, loader_get_quote}
use tee_demo.KeyStore.{keyring_json}
use tee_demo.Protocol.Frame.{keyring_name}
use tee_demo.Runtime.LoaderCalls.{loader_write_blob}
use tee_demo.Runtime.Attest.{do_attestation_and_cache, write_attestation_cache}
use tee_demo.Runtime.Attest.{attestation_frame, do_attestation}

module _ ⦃plat : Platform⦄ where
  -- The request for a quote of a report
  abbrev pub quote_request : ℕ → Bytes → Bytes → Frame
  quote_request req_seq att_key_id report = record (Frame.new op_loader_get_quote) {
    seq = some req_seq;
    att_key_id = some (plat.b64_encode att_key_id);
    report = some (plat.b64_encode report);
  }

module _ {ℓ} {P : Type ℓ} ⦃plat : Platform⦄ ⦃net : Peer P⦄ where
  -- `loader_get_quote` behind its request
  abbrev take_quote : ℕ → M P Bytes
  take_quote req_seq = do
    resp ← await_reply op_loader_get_quote_result req_seq
    if not (is_true resp.ok)
        then lift (err (unwrap_or (text "loader.get_quote failed") resp.error))
        else (do
          quote ← lift (ok_or (text "missing quote") resp.quote)
          lift (plat.b64_decode quote))

  Quiet-take_quote : (req_seq : ℕ) → Quiet (take_quote req_seq)
  Quiet-take_quote req_seq = search (Quiet-bind, Quiet-if, Quiet-lift, Quiet-await_reply)

  sent-loader_get_quote :
      (att_key_id report : Bytes) (io : Io P) {quote : Bytes} {io' : Io P}
      → loader_get_quote att_key_id report io ≡ (ok quote, io')
      → (req_seq : ℕ) × (io'.sent ≡ io.sent ++ quote_request req_seq att_key_id report ∷ [])
  unfolding loader_get_quote
  sent-loader_get_quote att_key_id report io e =
      let (s, mid, e1, e2) = bind-ok next_seq _ io e in
      let (u, mid', e3, e4) = bind-ok (write_frame (quote_request s att_key_id report)) _ mid e2 in
      (
        s,
        sent-Quiet (take_quote s) mid' (Quiet-take_quote s) e4
            ∙ sent-write_frame _ mid e3
            ∙ ap (λ t. t ++ quote_request s att_key_id report ∷ [])
                (sent-Quiet next_seq io Quiet-next_seq e1),
      )

  -- An attestation that returned, whatever the loader and the host sent in between: its response
  -- is for the store's current key, with the REPORTDATA that binds the key's version, the public
  -- key and the nonce; and the last frame that it sent asked for a quote of a report made by the
  -- enclave for exactly that REPORTDATA.
  pub do_attestation-binds :
      (nonce : Bytes) (store : KeyStore) (io : Io P) (out : Frame) (io' : Io P)
      → do_attestation nonce store io ≡ (ok out, io')
      → (key : StoredKey) × (quote : Bytes) × (attested_at : ℕ) × (current store ≡ some key)
        × (out ≡ attestation_frame key nonce quote attested_at)
        × (earlier : List Frame) × (target_info : Bytes) × (att_key_id : Bytes) × (req_seq : ℕ)
        × (io'.sent
            ≡ earlier
              ++ quote_request req_seq att_key_id (
                  plat.report_for_target target_info
                    (report_data_binding key.version key.public_key nonce))
                ∷ [])
  unfolding do_attestation
  do_attestation-binds nonce store io out io' e =
      let (key, m1, e1, r1) =
        bind-ok (lift (ok_or (text "empty KeyStore") (current store))) _ io e in
      let ((key_id, ti_bytes), m2, e2, r2) = bind-ok loader_init_quote _ m1 r1 in
      let (ti, m3, e3, r3) =
        bind-ok (lift (ok_or (text "invalid target_info") (plat.targetinfo_try_copy_from ti_bytes)))
          _ m2 r2 in
      let report =
        plat.report_for_target ti (report_data_binding key.version key.public_key nonce) in
      let (quote, m4, e4, r4) = bind-ok (loader_get_quote key_id report) _ m3 r3 in
      let (s, asked) = sent-loader_get_quote key_id report m3 e4 in
      (
        key,
        quote,
        plat.now_secs m4.readings,
        ok_or-ok (text "empty KeyStore") (current store)
            (ap (λ (r : Fallible StoredKey × Io P). r.0) e1),
        sym (ok-injective (ap (λ (r : Fallible Frame × Io P). r.0) r4)),
        m3.sent,
        ti,
        key_id,
        s,
        sym (ap (λ (r : Fallible Frame × Io P). r.1.sent) r4) ∙ asked,
      )

  -- An attestation that was cached is an attestation of the store's current key.
  pub cached-current :
      (nonce : Bytes) (store : KeyStore) (sequence : ℕ) (io : Io P) (out : Frame) (n : ℕ)
      (io' : Io P)
      → do_attestation_and_cache nonce store sequence io ≡ (ok (out, n), io')
      → (key : StoredKey) × (quote : Bytes) × (attested_at : ℕ) × (current store ≡ some key)
        × (out ≡ attestation_frame key nonce quote attested_at)
  unfolding do_attestation_and_cache
  cached-current nonce store sequence io out n io' e =
      let (f, m1, e1, r1) = bind-ok (do_attestation nonce store) _ io e in
      let (u, m2, e2, r2) = bind-ok (write_attestation_cache f _) _ m1 r1 in
      let (w, m3, e3, r3) = bind-ok (loader_write_blob keyring_name (keyring_json store)) _ m2 r2 in
      let b = do_attestation-binds nonce store io f m1 e1 in
      (
        b.0,
        b.1,
        b.2,
        b.3,
        sym (ap (λ p. p.0) (ok-injective (ap (λ (r : Fallible (Frame × ℕ) × Io P). r.0) r3))) ∙ b.4,
      )
