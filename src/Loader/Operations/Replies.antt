-- ===== src/Loader/Operations/Replies.antt =====
-- Every request of the runtime gets its reply from the loader.
use mathlib.Core.Option
use mathlib.Core.Path.{subst}
use tee_demo.Base.{
  ℕ, ◌≡◌, refl, sym, ap, ◌∙◌, inl, inr, true, false, Option, none, some, List, [], ◌∷◌, ◌++◌, same,
  same_sound, Bool-cases, Fallible, ok, err, panic, map_err, Returns, Returns-bind, Returns-map_err,
}
use tee_demo.Base.Bytes.{Bytes, Text, text}
use tee_demo.Protocol.Frame.{
  Frame, op_loader_read_blob, op_loader_read_blob_result, op_loader_write_blob,
  op_loader_write_blob_result, op_loader_init_quote, op_loader_init_quote_result,
  op_loader_get_quote, op_loader_get_quote_result,
}
use tee_demo.Protocol.Platform.{Platform}
use tee_demo.Loader.Blobs.{
  Machine, blob_name, read_reply, write_reply, write_in, write_decoded, blob_op, handle_blob_op,
}
use tee_demo.Loader.Operations.{
  first_id, aesm_init_quote, aesm_get_quote, init_reply, quote_reply, with_field, handle_loader_op,
}

-- A reply was made, with the operation and the sequence number.
abbrev Replies : Text → Option ℕ → Fallible Frame → Type 0
Replies op seq r = (reply : Frame) × (r ≡ ok reply) × (reply.op ≡ op) × (reply.seq ≡ seq)

-- No call of the file system, of base64 or of the AESM client panics.
pub record CallsReturn {ℓ} {D : Type ℓ} (plat : Platform) (machine : Machine D) : Type ℓ where
  pub decodes : (t : Text) → Returns (plat.b64_decode t)
  pub reads : (name : Text) (d : D) → Returns (machine.read name d)
  pub writes : (name : Text) (b : Bytes) (d : D) → Returns (machine.write name b d).0
  pub creates : (d : D) → Returns (machine.create_dir_all d).0
  pub lists : (d : D) → Returns (machine.supported_att_key_ids d)
  pub inits : (id : Bytes) (d : D) → Returns (machine.init_quote_ex id d)
  pub quotes : (id report nonce : Bytes) (d : D) → Returns (machine.get_quote_ex id report nonce d)

requested :
    (op name : Text) {seq : Option ℕ} {r : Fallible Frame}
    → same op name ≡ true
    → Replies (name ++ text "_result") seq r
    → Replies (op ++ text "_result") seq r
requested op name e (reply, made, o, s) =
    (reply, made, o ∙ sym (ap (λ t. t ++ text "_result") (same_sound op name e)), s)

module _ ⦃plat : Platform⦄ where
  Replies-read_reply :
      (seq : Option ℕ) (r : Fallible Bytes)
      → Returns r
      → Replies op_loader_read_blob_result seq (read_reply seq r)
  Replies-read_reply seq (ok b) h = (_, refl, refl, refl)
  Replies-read_reply seq (err e) h = (_, refl, refl, refl)
  Replies-read_reply seq panic h = absurd h

  Replies-init_reply :
      (seq : Option ℕ) (r : Fallible (Bytes × Bytes))
      → Returns r
      → Replies op_loader_init_quote_result seq (init_reply seq r)
  Replies-init_reply seq (ok b) h = (_, refl, refl, refl)
  Replies-init_reply seq (err e) h = (_, refl, refl, refl)
  Replies-init_reply seq panic h = absurd h

  Replies-quote_reply :
      (seq : Option ℕ) (r : Fallible Bytes)
      → Returns r
      → Replies op_loader_get_quote_result seq (quote_reply seq r)
  Replies-quote_reply seq (ok b) h = (_, refl, refl, refl)
  Replies-quote_reply seq (err e) h = (_, refl, refl, refl)
  Replies-quote_reply seq panic h = absurd h

  Replies-with_field :
      (seq : Option ℕ) (missing : Text) (field : Option Text) (k : Bytes → Fallible Frame)
      → ((t : Text) → Returns (plat.b64_decode t))
      → ((b : Bytes) → Replies op_loader_get_quote_result seq (k b))
      → Replies op_loader_get_quote_result seq
          (with_field seq missing (Option.map plat.b64_decode field) k)
  Replies-with_field seq missing none k h hk = (_, refl, refl, refl)
  Replies-with_field seq missing (some t) k h hk = by_outcome (plat.b64_decode t) (h t)
    where
      by_outcome :
          (r : Fallible Bytes)
          → Returns r
          → Replies op_loader_get_quote_result seq (with_field seq missing (some r) k)
      by_outcome (ok b) hr = hk b
      by_outcome (err e) hr = (_, refl, refl, refl)
      by_outcome panic hr = absurd hr

module _ {ℓ} {D : Type ℓ} where
  Replies-write_reply :
      (seq : Option ℕ) (r : Fallible (Unit {0})) (d : D)
      → Returns r
      → Replies op_loader_write_blob_result seq (write_reply seq (r, d)).0
  Replies-write_reply seq (ok u) d h = (_, refl, refl, refl)
  Replies-write_reply seq (err e) d h = (_, refl, refl, refl)
  Replies-write_reply seq panic d h = absurd h

module _ {ℓ} {D : Type ℓ} ⦃plat : Platform⦄ ⦃machine : Machine D⦄
    (calls : CallsReturn plat machine) where
  Replies-write_in :
      (seq : Option ℕ) (name : Text) (b : Bytes) (r : Fallible (Unit {0})) (d : D)
      → Returns r
      → Replies op_loader_write_blob_result seq (write_in seq name b (r, d)).0
  Replies-write_in seq name b (ok u) d h =
      Replies-write_reply seq (machine.write name b d).0 (machine.write name b d).1
        (calls.writes name b d)
  Replies-write_in seq name b (err e) d h = (_, refl, refl, refl)
  Replies-write_in seq name b panic d h = absurd h

  Replies-write_decoded :
      (seq : Option ℕ) (name : Text) (field : Option (Fallible Bytes)) (d : D)
      → ((r : Fallible Bytes) → field ≡ some r → Returns r)
      → Replies op_loader_write_blob_result seq (write_decoded seq name field d).0
  Replies-write_decoded seq name none d h = (_, refl, refl, refl)
  Replies-write_decoded seq name (some (ok b)) d h =
      Replies-write_in seq name b (machine.create_dir_all d).0 (machine.create_dir_all d).1
        (calls.creates d)
  Replies-write_decoded seq name (some (err e)) d h = (_, refl, refl, refl)
  Replies-write_decoded seq name (some panic) d h = absurd (h panic refl)

  decoded-Returns :
      (field : Option Text) (r : Fallible Bytes)
      → Option.map plat.b64_decode field ≡ some r
      → Returns r
  decoded-Returns none r e = cc e
  decoded-Returns (some t) r e =
      subst Returns (ap (λ (o : Option (Fallible Bytes)). elim o [ some q ↦ q | none ↦ r ]) e)
        (calls.decodes t)

  Replies-read_blob :
      (frame : Frame) (name : Option Text) (d : D)
      → same frame.op op_loader_read_blob ≡ true
      → Replies op_loader_read_blob_result frame.seq (blob_op frame name d).0
  Replies-read_blob frame none d e = rw e (_, refl, refl, refl)
  Replies-read_blob frame (some name) d e =
      rw e (Replies-read_reply frame.seq (machine.read name d) (calls.reads name d))

  Replies-write_blob :
      (frame : Frame) (name : Option Text) (d : D)
      → same frame.op op_loader_read_blob ≡ false
      → same frame.op op_loader_write_blob ≡ true
      → Replies op_loader_write_blob_result frame.seq (blob_op frame name d).0
  Replies-write_blob frame none d e w = rw e (_, refl, refl, refl)
  Replies-write_blob frame (some name) d e w =
      rw (e, w)
        (Replies-write_decoded frame.seq name (Option.map plat.b64_decode frame.blob) d
          (decoded-Returns frame.blob))

  first_id-Returns : (ids : List Bytes) → Returns (first_id ids)
  first_id-Returns [] = tt
  first_id-Returns (id ∷ ids) = tt

  aesm_init_quote-Returns : (d : D) → Returns (aesm_init_quote d)
  unfolding aesm_init_quote
  aesm_init_quote-Returns d =
      Returns-bind (map_err _ (machine.supported_att_key_ids d)) _
        (Returns-map_err _ _ (calls.lists d))
        λ ids. Returns-bind (first_id ids) _ (first_id-Returns ids) λ id.
          Returns-bind (map_err _ (machine.init_quote_ex id d)) _
            (Returns-map_err _ _ (calls.inits id d)) λ t. tt

  Replies-get_quote :
      (frame : Frame) (d : D)
      → Replies op_loader_get_quote_result frame.seq (
          with_field frame.seq
            (text "missing report")
            (Option.map plat.b64_decode frame.report)
            λ report.
              with_field frame.seq
                (text "missing att_key_id")
                (Option.map plat.b64_decode frame.att_key_id)
                λ att_key_id. quote_reply frame.seq (aesm_get_quote att_key_id report d))
  unfolding aesm_get_quote
  Replies-get_quote frame d = Replies-with_field frame.seq _ frame.report _ calls.decodes λ report.
      Replies-with_field frame.seq _ frame.att_key_id _ calls.decodes λ id.
        Replies-quote_reply frame.seq (aesm_get_quote id report d)
          (Returns-map_err _ _ (calls.quotes id report _ d))

  -- Every frame that reaches `handle_loader_op`, whatever it asks for, gets a reply, a refusal if
  -- nothing else, whose operation is the request's with `_result` and whose sequence number is the
  -- request's: provided that no call of the file system, of base64 or of the AESM client panics.
  pub handle_loader_op-replies :
      (frame : Frame) (d : D)
      → (reply : Frame) × ((handle_loader_op frame d).0 ≡ ok reply)
        × (reply.op ≡ frame.op ++ text "_result")
        × (reply.seq ≡ frame.seq)
  unfolding handle_loader_op handle_blob_op aesm_get_quote
  handle_loader_op-replies frame d =
      let seq = frame.seq in
      elim (Bool-cases (same frame.op op_loader_read_blob)) [
        | inl r ↦
            requested frame.op op_loader_read_blob r
              (rw r (Replies-read_blob frame (blob_name frame.path) d r))
        | inr nr ↦ elim (Bool-cases (same frame.op op_loader_write_blob)) [
          | inl w ↦
              requested frame.op op_loader_write_blob w
                (rw (nr, w) (Replies-write_blob frame (blob_name frame.path) d nr w))
          | inr nw ↦ elim (Bool-cases (same frame.op op_loader_init_quote)) [
            | inl i ↦ requested frame.op op_loader_init_quote i (
                rw (nr, nw, i)
                  (Replies-init_reply seq (aesm_init_quote d) (aesm_init_quote-Returns d)))
            | inr ni ↦ elim (Bool-cases (same frame.op op_loader_get_quote)) [
              | inl g ↦
                  requested frame.op op_loader_get_quote g
                    (rw (nr, nw, ni, g) (Replies-get_quote frame d))
              | inr ng ↦ rw (nr, nw, ni, ng) (_, refl, refl, refl)
            ]
          ]
        ]
      ]
