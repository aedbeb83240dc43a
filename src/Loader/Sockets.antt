-- ===== src/Loader/Sockets.antt =====
-- The frames of loader/src/main.rs on a tokio socket, and the one stream that the enclave may open.
use tee_demo.Base.{
  ℕ, ◌≡◌, refl, inl, inr, Option, none, some, ◌++◌, ltb, same, if◌then◌else◌, Bool-cases, Fallible,
  ok, err, panic, ◌>>=◌, ◌>>◌, map_err,
}
use tee_demo.Base.Bytes.{Bytes, Text, text, from_le_bytes}
use tee_demo.Strings.Decimal.{show_nat}
use tee_demo.Protocol.Frame.{Frame}
use tee_demo.Protocol.Wire
use tee_demo.Protocol.Wire.{Json, Sink, read_exact, max_frame, encode_frame, decode_frame_body}

-- tokio's `read_exact`, which has its own error at the end of the stream
abbrev read_exact_async : ℕ → Bytes → Fallible (Bytes × Bytes)
read_exact_async n stream = map_err (λ e. text "early eof") (read_exact n stream)

module _ ⦃json : Json⦄ where
  unfoldable pub read_frame_async : Bytes → Fallible (Frame × Bytes)
  unfolding decode_frame_body
  read_frame_async stream = do
    (len_buf, rest) ← read_exact_async 4 stream
    let len = from_le_bytes len_buf
    if ltb max_frame len then err (text "frame too large: " ++ show_nat len) else (do
      (body, rest') ← read_exact_async len rest
      frame ← decode_frame_body body
      ok (frame, rest'))

  unfoldable pub write_frame_async : Sink → Bytes → Frame → Fallible Bytes
  unfolding encode_frame
  write_frame_async sink written frame = do
    bytes ← encode_frame frame
    sink.write_all bytes
    sink.flush
    ok (written ++ bytes)

-- `connect_stream`: what the pair of sockets and the connection to the host give
unfoldable pub connect_stream :
    Text → Fallible (Unit {0}) → Fallible (Unit {0}) → Fallible (Unit {0})
connect_stream addr pair host_leg =
    if same addr (text "worker-host")
    then pair >> host_leg
    else err (text "unknown destination: " ++ addr)

-- The value of a call that succeeded
abbrev pub success : {A : Type 0} → Fallible A → Option A
success (ok a) = some a
success (err e) = none
success panic = none

success-body :
    {A B : Type 0} (f g : Text → Text) (m : Fallible A) (k l : A → Fallible B)
    → ((a : A) → success (k a) ≡ success (l a))
    → success (map_err f m >>= k) ≡ success (map_err g m >>= l)
success-body f g (ok a) k l h = h a
success-body f g (err e) k l h = refl
success-body f g panic k l h = refl

-- The same, where only one of the two calls changes its error
success-plain :
    {A B : Type 0} (g : Text → Text) (m : Fallible A) (k l : A → Fallible B)
    → ((a : A) → success (k a) ≡ success (l a))
    → success (m >>= k) ≡ success (map_err g m >>= l)
success-plain g (ok a) k l h = h a
success-plain g (err e) k l h = refl
success-plain g panic k l h = refl

-- The two writers behind the encoding
success-writes :
    (sink : Sink) (written : Bytes) (encoded : Fallible Bytes)
    → success (encoded >>= λ bytes. sink.write_all bytes >> (sink.flush >> ok (written ++ bytes)))
      ≡ success (
          encoded >>= λ bytes.
          map_err (λ e. text "write frame: " ++ e) (sink.write_all bytes)
          >> (map_err (λ e. text "flush: " ++ e) sink.flush >> ok (written ++ bytes)))
success-writes sink written (ok bytes) =
    success-plain _ (sink.write_all bytes) _ _ λ u. success-plain _ sink.flush _ _ λ v. refl
success-writes sink written (err e) = refl
success-writes sink written panic = refl

module _ ⦃json : Json⦄ where
  -- The loader's own reader and writer are those of the protocol crate: on every byte stream the
  -- two readers give the same frame and leave the same bytes, or both give none; on every frame and
  -- whatever the sink's writes and flushes give, the two writers write the same bytes or both fail.
  pub read_frame_async-eq-read_frame :
      (sink : Sink) (stream written : Bytes) (frame : Frame)
      → (success (read_frame_async stream) ≡ success (Wire.read_frame stream))
        × (success (write_frame_async sink written frame)
            ≡ success (Wire.write_frame sink written frame))
  unfolding read_frame_async write_frame_async Wire.read_frame Wire.write_frame
  read_frame_async-eq-read_frame sink stream written frame = (
    success-body _ _ (read_exact 4 stream) _ _ λ (len_buf, rest).
        elim (Bool-cases (ltb max_frame (from_le_bytes len_buf))) [
          | inl big ↦ rw big refl
          | inr small ↦
              rw small (
                success-body _ _ (read_exact (from_le_bytes len_buf) rest) _ _
                  λ (body, rest'). refl)
        ],
    success-writes sink written (encode_frame frame),
  )
