-- ===== src/Host/Client/Renews.antt =====
-- A rotation from the client through the daemon to the enclave, and back.
use tee_demo.Base.{
  ℕ, ◌+◌, ◌-◌, ◌^◌, ◌<◌, ◌≡◌, refl, sym, ap, ◌∙◌, true, some, List, [], ◌∷◌, ◌++◌, same_last,
  same_last_two, same, same_option_refl, is_true, Fallible, ok, ok-injective,
}
use tee_demo.Base.Bytes.{Bytes}
use tee_demo.Protocol.Frame
use tee_demo.Protocol.Frame.{
  Frame, op_host_attestation_response, op_host_rotate_response, op_host_rotate_result,
  op_runtime_rotate_request,
}
use tee_demo.Protocol.Platform.{Platform}
use tee_demo.KeyStore
use tee_demo.KeyStore.{KeyStore, StoredKey, current}
use tee_demo.KeyStore.Retention.{IsValid, rotate-IsValid}
use tee_demo.Runtime.Link.{Peer, Io}
use tee_demo.Runtime.Attest.{attestation_frame}
use tee_demo.Runtime.Server.{Session, handle_rotate_request}
use tee_demo.Runtime.Server.Rotation.{rotate_response, handle_rotate_request-announces}
use tee_demo.Host.Connection.{RuntimeConnection, fresh_id, request_rotate}
use tee_demo.Host.Clients.{Serving, quoted_result, handle_client}
use tee_demo.Host.Client.{Desk, Surroundings}
use tee_demo.Host.Client.Commands.{rotate_request, cmd_rotate}
use tee_demo.Host.Client.Rotates.{rotated_lines, cmd_rotate-accepts}

request_rotate-answered :
    (conn : RuntimeConnection) (a r : Frame) (rest : List (Fallible Frame))
    → conn.inbox ≡ ok a ∷ (ok r ∷ rest)
    → a.op ≡ op_host_attestation_response
    → r.op ≡ op_host_rotate_response
    → r.id ≡ some (fresh_id conn)
    → r.ok ≡ some true
    → (request_rotate (ok tt) conn).0 ≡ ok r
unfolding request_rotate same is_true
request_rotate-answered conn a r rest inbox ao ro id granted =
    rw (inbox, ao, ro, id, same_option_refl (some (fresh_id conn)), granted) refl

-- What the host sends to the runtime
abbrev pub renewal : RuntimeConnection → Frame
renewal conn = record (Frame.new op_runtime_rotate_request) { id = some (fresh_id conn) }

module _ ⦃plat : Platform⦄ where
  handle_client-rotated :
      (s : Serving) (a r : Frame) (rest : List (Fallible Frame))
      → s.runtime.inbox ≡ ok a ∷ (ok r ∷ rest)
      → a.op ≡ op_host_attestation_response
      → r.op ≡ op_host_rotate_response
      → r.id ≡ some (fresh_id s.runtime)
      → r.ok ≡ some true
      → (handle_client (ok tt) (ok tt) (ok rotate_request) s).1.written
        ≡ s.written ++ quoted_result op_host_rotate_result 1 r ∷ []
  unfolding handle_client same
  handle_client-rotated s a r rest inbox ao ro id granted =
      rw (request_rotate-answered s.runtime a r rest inbox ao ro id granted) refl

  -- The key that a rotation announces is the one that it attests.
  same_key :
      (draw : ℕ) (store store' : KeyStore) (new_key key : StoredKey)
      → IsValid store
      → store.current_version < 2 ^ 64 - 1
      → KeyStore.rotate draw store ≡ ok (store', new_key)
      → current store' ≡ some key
      → (key ≡ new_key) × (new_key.version ≡ store.current_version + 1)
  same_key draw store store' new_key key valid small rotated cur =
      let (t, k, e, t_valid, t_version, t_current, is_key, two) =
        rotate-IsValid draw store valid small in
      let same_pair : ◌≡◌ {A = KeyStore × StoredKey} (t, k) (store', new_key) =
        ok-injective (sym e ∙ rotated) in
      let same_store : t ≡ store' = ap (λ (p : KeyStore × StoredKey). p.0) same_pair in
      let is_new : k ≡ new_key = ap (λ (p : KeyStore × StoredKey). p.1) same_pair in
      let is_current : some k ≡ some key = sym t_current ∙ ap current same_store ∙ cur in
      (cc (is_current, is_new), ap (λ (q : StoredKey). q.version) (sym is_new ∙ is_key))

module _ {ℓ} {D : Type ℓ} ⦃plat : Platform⦄ ⦃around : Surroundings D⦄ where
  -- What the client prints, once the two frames of the runtime are known
  client-renewed :
      (s : Desk D) (serving served : Serving) (key : StoredKey) (nonce quote : Bytes) (at : ℕ)
      (answer : Frame) (rest : List (Fallible Frame)) (d : D)
      → ((b : Bytes) → plat.b64_decode (plat.b64_encode b) ≡ ok b)
      → serving.runtime.inbox
        ≡ ok (attestation_frame key nonce quote at)
          ∷ (ok (
                rotate_response
                  (renewal serving.runtime)
                  key
                  (attestation_frame key nonce quote at))
              ∷ rest)
      → handle_client (ok tt) (ok tt) (ok rotate_request) serving ≡ (ok tt, served)
      → served.written ≡ serving.written ++ answer ∷ []
      → around.client_roundtrip rotate_request s.daemon ≡ (ok answer, d)
      → (s' : Desk D) × (cmd_rotate s ≡ (ok tt, s'))
        × (s'.printed
            ≡ s.printed ++ rotated_lines key.version key.public_key nonce (plat.b64_encode quote))
  client-renewed s serving served key nonce quote at answer rest d b64 inbox handled wrote
        answered =
      let attest : Frame = attestation_frame key nonce quote at in
      let resp : Frame = rotate_response (renewal serving.runtime) key attest in
      let is_answer : answer ≡ quoted_result op_host_rotate_result 1 resp =
        same_last serving.written serving.written answer
          (quoted_result op_host_rotate_result 1 resp)
          (sym wrote
            ∙ ap (λ (p : Fallible (Unit {0}) × Serving). p.1.written) (sym handled)
            ∙ handle_client-rotated serving attest resp rest inbox refl refl refl refl) in
      cmd_rotate-accepts (quoted_result op_host_rotate_result 1 resp) key.version key.public_key
        nonce (plat.b64_encode quote) s d b64 (answered ∙ ap (λ (f : Frame). (ok f, d)) is_answer)
        refl refl refl refl refl refl

module _ {ℓ κ} {D : Type ℓ} {P : Type κ} ⦃plat : Platform⦄ ⦃around : Surroundings D⦄
    ⦃net : Peer P⦄ where
  -- A rotation through all three processes. If the runtime, on a valid store whose version is below
  -- the largest u64 by one at least, handles the rotation that the daemon forwards, the last two
  -- frames that it sends for it are the next two that the daemon reads, and the daemon's answer
  -- reaches the client, then the store has been rotated to a key of the next version, and `rotate`
  -- succeeds and prints that version, the new public key, a quote, a nonce and their REPORTDATA, and
  -- that the binding is right. For a base64 that decodes what it encoded.
  pub cmd_rotate-renews :
      (s : Desk D) (session session' : Session) (io io' : Io P) (earlier : List Frame)
      (a r answer : Frame) (serving served : Serving) (rest : List (Fallible Frame)) (d : D)
      → ((b : Bytes) → plat.b64_decode (plat.b64_encode b) ≡ ok b)
      → IsValid session.store
      → session.store.current_version < 2 ^ 64 - 1
      → handle_rotate_request (renewal serving.runtime) session io ≡ (ok session', io')
      → io'.sent ≡ earlier ++ a ∷ (r ∷ [])
      → serving.runtime.inbox ≡ ok a ∷ (ok r ∷ rest)
      → handle_client (ok tt) (ok tt) (ok rotate_request) serving ≡ (ok tt, served)
      → served.written ≡ serving.written ++ answer ∷ []
      → around.client_roundtrip rotate_request s.daemon ≡ (ok answer, d)
      → (key : StoredKey) × (nonce : Bytes) × (quote : Bytes) × (KeyStore.rotate io.draws
            session.store
          ≡ ok (session'.store, key))
        × (key.version ≡ session.store.current_version + 1)
        × (s' : Desk D) × (cmd_rotate s ≡ (ok tt, s'))
        × (s'.printed
            ≡ s.printed ++ rotated_lines key.version key.public_key nonce (plat.b64_encode quote))
  cmd_rotate-renews s session session' io io' earlier a r answer serving served rest d b64 valid
        small ran sent inbox handled wrote answered =
      let request = renewal serving.runtime in
      let (new_key, rotated, (key, nonce, quote, at, before, cur, announced)) =
        handle_rotate_request-announces request session io session' io' ran in
      let (is_new, is_next) =
        same_key io.draws session.store session'.store new_key key valid small rotated cur in
      let attest = attestation_frame key nonce quote at in
      let (is_a, is_r) =
        same_last_two earlier before a r attest (rotate_response request new_key attest)
          (sym sent ∙ announced) in
      let inbox' =
        inbox
        ∙ ap (λ (f : Frame). ok f ∷ (ok r ∷ rest)) is_a
        ∙ ap (λ (f : Frame). ok attest ∷ (ok f ∷ rest)) is_r
        ∙ ap
            (λ (k : StoredKey).
              ok (attestation_frame k nonce quote at)
              ∷ (ok (rotate_response request new_key (attestation_frame k nonce quote at)) ∷ rest))
            is_new in
      let (s', succeeded, printed) =
        client-renewed s serving served new_key nonce quote at answer rest d b64 inbox' handled
          wrote answered in
      (new_key, nonce, quote, rotated, is_next, s', succeeded, printed)
