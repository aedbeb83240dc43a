-- ===== src/Runtime/Attest/Responds.antt =====
-- An attestation of runtime/src/main.rs with a loader that does its part.
use tee_demo.Base.{ℕ, ◌+◌, ◌%◌, ◌^◌, ◌≡◌, refl, true, some, [], ◌∷◌, ◌++◌, is_true, ok}
use tee_demo.Base.Bytes.{Bytes, Text}
use tee_demo.Protocol.Frame
use tee_demo.Protocol.Frame.{
  Frame, op_loader_init_quote, op_loader_init_quote_result, op_loader_get_quote_result,
}
use tee_demo.Protocol.Platform.{Platform}
use tee_demo.Protocol.Binding.{report_data_binding}
use tee_demo.KeyStore.{KeyStore, StoredKey, current}
use tee_demo.Runtime.Link.{Peer, Io, write_frame, next_seq, answers, await_reply}
use tee_demo.Runtime.LoaderCalls.{loader_init_quote, loader_get_quote}
use tee_demo.Runtime.Attest.{attestation_frame, do_attestation}
use tee_demo.Runtime.Attest.Bound.{quote_request}

abbrev pub init_request : ℕ → Frame
init_request req_seq = record (Frame.new op_loader_init_quote) { seq = some req_seq }

module _ {ℓ} {P : Type ℓ} where
  -- The peer answers one request of the loader protocol at once, with this granted reply.
  pub record Grants (net : Peer P) (req : Frame) (op : Text) (req_seq : ℕ) (p : P) (reply : Frame)
      (p' : P) : Type ℓ where
    pub receives : net.receive req p ≡ (ok (ok reply ∷ []), p')
    pub matches : answers op req_seq reply ≡ true
    pub granted : is_true reply.ok ≡ true

  -- A loader that hands out a key id and a target info, and makes quotes: `IsInit` and `IsQuote` tell
  -- which pairs of a key id and a target info are its, and which quotes of a report under a key id.
  pub record Quotes (IsInit : Bytes → Bytes → Type 0) (IsQuote : Bytes → Bytes → Bytes → Type 0)
      (plat : Platform) (net : Peer P) : Type ℓ where
    pub inits :
        (req_seq : ℕ) (p : P)
        → (reply : Frame) × (p' : P) × (id_text : Text) × (info_text : Text) × (id : Bytes)
          × (info : Bytes) × (target : Bytes) × Grants net
              (init_request req_seq)
              op_loader_init_quote_result
              req_seq
              p
              reply
              p'
          × (reply.att_key_id ≡ some id_text)
          × (reply.target_info ≡ some info_text)
          × (plat.b64_decode id_text ≡ ok id)
          × (plat.b64_decode info_text ≡ ok info)
          × (plat.targetinfo_try_copy_from info ≡ some target)
          × IsInit id info
    pub quotes :
        (req_seq : ℕ) (id report : Bytes) (p : P)
        → (reply : Frame) × (p' : P) × (quote_text : Text) × (quote : Bytes) × Grants net
            (quote_request ⦃plat = plat⦄ req_seq id report)
            op_loader_get_quote_result
            req_seq
            p
            reply
            p'
          × (reply.quote ≡ some quote_text)
          × (plat.b64_decode quote_text ≡ ok quote)
          × IsQuote id report quote

module _ {ℓ} {P : Type ℓ} ⦃plat : Platform⦄ ⦃net : Peer P⦄ {IsInit : Bytes → Bytes → Type 0}
    {IsQuote : Bytes → Bytes → Bytes → Type 0} (loader : Quotes IsInit IsQuote plat net) where
  loader_init_quote-responds :
      (io : Io P)
      → io.inbox ≡ []
      → (id : Bytes) × (info : Bytes) × (target : Bytes) × (io' : Io P) × (loader_init_quote io
          ≡ (ok (id, info), io'))
        × (plat.targetinfo_try_copy_from info ≡ some target)
        × IsInit id info
        × (io'.inbox ≡ [])
        × (io'.readings ≡ io.readings)
  unfolding loader_init_quote next_seq write_frame await_reply
  loader_init_quote-responds io quiet =
      let s = (io.seq + 1) % 2 ^ 64 in
      let (reply, p', id_text, info_text, id, info, target, g, a, t, da, dt, copies, init) =
        loader.inits s io.peer in
      let after : Io P = record io {
        peer = p';
        inbox = [];
        sent = io.sent ++ init_request s ∷ [];
        seq = s;
      } in
      (
        id,
        info,
        target,
        after,
        rw (g.receives, quiet, g.matches, g.granted, a, t, da, dt) refl,
        copies,
        init,
        refl,
        refl,
      )

  loader_get_quote-responds :
      (id report : Bytes) (io : Io P)
      → io.inbox ≡ []
      → (quote : Bytes) × (io' : Io P) × (loader_get_quote id report io ≡ (ok quote, io'))
        × IsQuote id report quote
        × (io'.readings ≡ io.readings)
  unfolding loader_get_quote next_seq write_frame await_reply
  loader_get_quote-responds id report io quiet =
      let s = (io.seq + 1) % 2 ^ 64 in
      let (reply, p', quote_text, quote, g, q, dq, made) = loader.quotes s id report io.peer in
      let after : Io P = record io {
        peer = p';
        inbox = [];
        sent = io.sent ++ quote_request s id report ∷ [];
        seq = s;
      } in
      (quote, after, rw (g.receives, quiet, g.matches, g.granted, q, dq) refl, made, refl)

  -- With a loader that does its part, an empty inbox and a store that has its current key, an
  -- attestation succeeds: it returns the response for that key and the nonce, with the time of the
  -- clock's next reading and a quote that the loader makes, under the key id that it handed out, of
  -- the report for the target that it handed out and the binding of that key and the nonce.
  pub do_attestation-responds :
      (nonce : Bytes) (store : KeyStore) (key : StoredKey) (io : Io P)
      → current store ≡ some key
      → io.inbox ≡ []
      → (quote : Bytes) × (id : Bytes) × (info : Bytes) × (target : Bytes) × (io' : Io P)
        × (do_attestation nonce store io
            ≡ (ok (attestation_frame key nonce quote (plat.now_secs io.readings)), io'))
        × IsInit id info
        × (plat.targetinfo_try_copy_from info ≡ some target)
        × IsQuote id
            (plat.report_for_target target (report_data_binding key.version key.public_key nonce))
            quote
  unfolding do_attestation
  do_attestation-responds nonce store key io cur quiet =
      let (id, info, target, m1, e1, copies, init, quiet1, r1) =
        loader_init_quote-responds io quiet in
      let report =
        plat.report_for_target target (report_data_binding key.version key.public_key nonce) in
      let (quote, m2, e2, made, r2) = loader_get_quote-responds id report m1 quiet1 in
      (
        quote,
        id,
        info,
        target,
        record m2 { readings = m2.readings + 1 },
        rw (cur, e1, copies, e2, r2, r1) refl,
        init,
        copies,
        made,
      )
