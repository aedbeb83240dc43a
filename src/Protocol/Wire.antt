-- ===== src/Protocol/Wire.antt =====
-- The wire format of protocol/src/lib.rs: `[u32 little-endian length][JSON]`. The JSON codec
-- (serde_json) is an interface. A byte stream is what is still to be read, or what was written.
pub mod RoundTrip
pub mod Streams
use tee_demo.Base.{
  ℕ, ◌+◌, ◌-◌, ◌*◌, ◌^◌, ◌≤◌, ◌<◌, ◌≡◌, refl, sym, ap, ◌∙◌, ◌≢◌, Bool, true, false, List, [], ◌∷◌,
  ◌++◌, arith, ltb, if◌then◌else◌, length, take, drop, length-append, take-append, drop-append, All,
  Fallible, Outcome, ok, err, panic, ◌>>=◌, ◌>>◌, map_err, Returns,
}
use tee_demo.Base.Bytes.{
  Bytes, Text, text, to_le_bytes, from_le_bytes, length-to_le_bytes, from_le_bytes-to_le_bytes,
}
use tee_demo.Strings.Decimal.{show_nat}
use tee_demo.Protocol.Frame.{Frame}

-- serde_json: `to_vec` and `from_slice`, their errors as text
pub record Json : Type 0 where
  pub to_vec : Frame → Fallible Bytes
  pub from_slice : Bytes → Fallible Frame

-- What a writer's `write_all` of some bytes and `flush` give
pub record Sink : Type 0 where
  pub write_all : Bytes → Fallible (Unit {0})
  pub flush : Fallible (Unit {0})

-- A sink that takes everything, as memory does
abbrev pub memory : Sink
memory = record { write_all = λ bytes. ok tt; flush = ok tt }

-- `Read::read_exact`: the bytes and what is left, or an error at the end of the stream
abbrev pub read_exact : ℕ → Bytes → Fallible (Bytes × Bytes)
read_exact n stream =
    if ltb (length stream) n
    then err (text "failed to fill whole buffer")
    else ok (take n stream, drop n stream)

abbrev pub max_frame : ℕ
max_frame = 16 * 1024 * 1024

module _ ⦃json : Json⦄ where
  unfoldable pub encode_frame : Frame → Fallible Bytes
  encode_frame frame = do
    body ← json.to_vec frame
    if ltb (2 ^ 32 - 1) (length body)
        then err (text "frame too large")
        else ok (to_le_bytes 4 (length body) ++ body)

  unfoldable pub decode_frame_body : Bytes → Fallible Frame
  decode_frame_body body = json.from_slice body

  -- The frame, and what is left of the stream
  unfoldable pub read_frame : Bytes → Fallible (Frame × Bytes)
  unfolding decode_frame_body
  read_frame stream = do
    (len_buf, rest) ← map_err (λ e. text "read len: " ++ e) (read_exact 4 stream)
    let len = from_le_bytes len_buf
    if ltb max_frame len then err (text "frame len too large: " ++ show_nat len) else (do
      (body, rest') ← map_err (λ e. text "read body: " ++ e) (read_exact len rest)
      frame ← decode_frame_body body
      ok (frame, rest'))

  -- What was written, with the frame behind it, on a sink
  unfoldable pub write_frame : Sink → Bytes → Frame → Fallible Bytes
  unfolding encode_frame
  write_frame sink written frame = do
    bytes ← encode_frame frame
    map_err (λ e. text "write frame: " ++ e) (sink.write_all bytes)
    map_err (λ e. text "flush: " ++ e) sink.flush
    ok (written ++ bytes)
