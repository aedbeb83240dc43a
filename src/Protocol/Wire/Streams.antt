-- ===== src/Protocol/Wire/Streams.antt =====
-- Whole streams of frames, frames that are cut off, and frames past the reader's limit.
use tee_demo.Base.{
  ℕ, zero, suc, ◌+◌, ◌^◌, ◌≤◌, ◌<◌, ◌≡◌, refl, sym, ap, ◌∙◌, List, [], ◌∷◌, ◌++◌, arith, length,
  take, drop, length-append, take-append, length-drop, take-append_le, append_assoc, append-nil, ok,
  err, Fallible, ◌>>=◌,
}
use native.Mathlib.Decide.{dec_lt}
use tee_demo.Base.Bytes.{
  Bytes, Text, text, to_le_bytes, from_le_bytes, length-to_le_bytes, from_le_bytes-to_le_bytes,
}
use tee_demo.Strings.Decimal.{show_nat}
use tee_demo.Protocol.Frame.{Frame}
use tee_demo.Protocol.Wire.{Json, max_frame, encode_frame, read_frame, memory, write_frame}
use tee_demo.Protocol.Wire.RoundTrip.{
  Sends, packet, encode_frame-packet, read_frame-packet, read_frame-prefix, read_exact-short,
}

module _ ⦃json : Json⦄ where
  -- One `write_frame` after another, and `count` calls of `read_frame`
  unfoldable pub write_frames : Bytes → List Frame → Fallible Bytes
  write_frames written [] = ok written
  write_frames written (f ∷ fs) = do now ← write_frame memory written f; write_frames now fs

  unfoldable pub read_frames : ℕ → Bytes → Fallible (List Frame × Bytes)
  read_frames zero stream = ok ([], stream)
  read_frames (suc count) stream = do
    (f, rest) ← read_frame stream
    (fs, rest') ← read_frames count rest
    ok (f ∷ fs, rest')

  -- Each frame has a JSON text that reads back, and that the reader's limit allows.
  abbrev pub AllSend : List Frame → Type 0
  AllSend [] = Unit
  AllSend (f ∷ fs) = ((body : Bytes) × Sends f body × (length body ≤ max_frame)) × AllSend fs

  -- The bytes of the frames
  abbrev pub packets : (fs : List Frame) → AllSend fs → Bytes
  packets [] s = []
  packets (f ∷ fs) s = packet (s.0).0 ++ packets fs s.1

  write_frames-packets :
      (fs : List Frame) (s : AllSend fs) (written : Bytes)
      → write_frames written fs ≡ ok (written ++ packets fs s)
  unfolding write_frames write_frame
  write_frames-packets [] s written = ap ok (sym (append-nil written))
  write_frames-packets (f ∷ fs) ((body, sends, small), s) written =
      rw (encode_frame-packet f body sends (omega arith)) (
        write_frames-packets fs s (written ++ packet body)
        ∙ ap ok (append_assoc written (packet body) (packets fs s)))

  read_frames-packets :
      (fs : List Frame) (s : AllSend fs) (rest : Bytes)
      → read_frames (length fs) (packets fs s ++ rest) ≡ ok (fs, rest)
  unfolding read_frames
  read_frames-packets [] s rest = refl
  read_frames-packets (f ∷ fs) ((body, sends, small), s) rest =
      rw (append_assoc (packet body) (packets fs s) rest) (
        rw (read_frame-packet f body (packets fs s ++ rest) sends small)
          (rw (read_frames-packets fs s rest) refl))

  -- Frames that are written one after the other, whatever was written before, are read back in
  -- order by as many calls of the reader, which leave the bytes that follow: provided that each
  -- frame's JSON reads back as the frame and is no longer than 16 MiB.
  pub read_frames-write_frames :
      (fs : List Frame) (before rest : Bytes)
      → AllSend fs
      → (sent : Bytes) × (write_frames before fs ≡ ok (before ++ sent))
        × (read_frames (length fs) (sent ++ rest) ≡ ok (fs, rest))
  read_frames-write_frames fs before rest s =
      (packets fs s, write_frames-packets fs s before, read_frames-packets fs s rest)

  read_frame-prefix_only :
      (front : Bytes) (len : ℕ)
      → 4 ≤ length front
      → from_le_bytes (take 4 front) ≡ len
      → length front < 4 + len
      → (e : Text) × (read_frame front ≡ err e)
  unfolding read_frame
  read_frame-prefix_only front len h e short = elim (dec_lt max_frame len) [
    | yes p ↦ (text "frame len too large: " ++ show_nat len, ground arith)
    | no p ↦ (
      text "read body: " ++ text "failed to fill whole buffer",
      ground (arith, read_exact-short len (drop 4 front), length-drop 4 front),
    )
  ]

  encode_frame-sent :
      (frame : Frame) (body sent : Bytes)
      → json.to_vec frame ≡ ok body
      → encode_frame frame ≡ ok sent
      → (length body < 2 ^ 32) × (sent ≡ packet body)
  unfolding encode_frame
  encode_frame-sent frame body sent w e = ground (arith, w)

  take-packet : (body : Bytes) → take 4 (packet body) ≡ to_le_bytes 4 (length body)
  take-packet body =
      rw (length-to_le_bytes 4 (length body)) at (take-append (to_le_bytes 4 (length body)) body)

  length-packet : (body : Bytes) → length (packet body) ≡ 4 + length body
  length-packet body =
      omega (
        arith,
        length-append (to_le_bytes 4 (length body)) body,
        length-to_le_bytes 4 (length body),
      )

  cut_prefix :
      (body front back : Bytes) (b : ℕ)
      → length body < 2 ^ 32
      → packet body ≡ front ++ (b ∷ back)
      → 4 ≤ length front
      → (from_le_bytes (take 4 front) ≡ length body) × (length front < 4 + length body)
  cut_prefix body front back b fits cut long = (
    ap from_le_bytes
          (sym (take-append_le 4 front (b ∷ back) long) ∙ ap (take 4) (sym cut) ∙ take-packet body)
        ∙ from_le_bytes-to_le_bytes 4 (length body) fits,
    omega (arith, ap length cut, length-packet body, length-append front (b ∷ back)),
  )

  -- A stream that ends inside a frame is refused: on every proper prefix of a frame that the
  -- writer produced, the reader returns an error and no frame.
  pub read_frame-truncated :
      (frame : Frame) (body sent front back : Bytes) (b : ℕ)
      → json.to_vec frame ≡ ok body
      → encode_frame frame ≡ ok sent
      → sent ≡ front ++ (b ∷ back)
      → (e : Text) × (read_frame front ≡ err e)
  read_frame-truncated frame body sent front back b w enc cut = elim (dec_lt (length front) 4) [
    | yes p ↦ (
      text "read len: " ++ text "failed to fill whole buffer",
      unfold read_frame in rw (read_exact-short 4 front p) refl,
    )
    | no p ↦
        let (fits, whole) = encode_frame-sent frame body sent w enc in
        let (len, short) = cut_prefix body front back b fits (sym whole ∙ cut) (omega arith) in
        read_frame-prefix_only front (length body) (omega arith) len short
  ]

  -- What the writer accepts and the reader refuses: a frame whose JSON has more than 16 MiB and
  -- less than 4 GiB is written, and the reader answers it with an error that names the length.
  pub read_frame-too_large :
      (frame : Frame) (body rest : Bytes)
      → json.to_vec frame ≡ ok body
      → max_frame < length body
      → length body < 2 ^ 32
      → (sent : Bytes) × (encode_frame frame ≡ ok sent)
        × (read_frame (sent ++ rest) ≡ err (text "frame len too large: " ++ show_nat (length body)))
  read_frame-too_large frame body rest w big fits = (
    packet body,
    unfold encode_frame in rw w (ground arith),
    unfold read_frame in
        ground (arith, read_frame-prefix body rest, from_le_bytes-to_le_bytes 4 (length body) fits),
  )
