-- ===== src/Protocol/Wire/RoundTrip.antt =====
-- What a reader of protocol/src/lib.rs's `read_frame` sees of the bytes that `write_frame` wrote.
use tee_demo.Base.{
  ℕ, ◌^◌, ◌≤◌, ◌<◌, ◌≡◌, refl, ◌++◌, arith, length, length-append, take-append, drop-append,
  append_assoc, ok, err,
}
use tee_demo.Base.Bytes.{
  Bytes, text, to_le_bytes, from_le_bytes, length-to_le_bytes, from_le_bytes-to_le_bytes,
}
use tee_demo.Protocol.Frame.{Frame}
use tee_demo.Protocol.Wire.{Json, read_exact, max_frame, encode_frame, read_frame}

-- `read_exact` on a stream that starts with what is asked for, and on one that is too short
pub read_exact-append :
    (n : ℕ) (xs rest : Bytes) → length xs ≡ n → read_exact n (xs ++ rest) ≡ ok (xs, rest)
read_exact-append n xs rest e =
    rw (← e) (rw (length-append xs rest, take-append xs rest, drop-append xs rest) (ground arith))

pub read_exact-short :
    (n : ℕ) (xs : Bytes)
    → length xs < n
    → read_exact n xs ≡ err (text "failed to fill whole buffer")
read_exact-short n xs h = ground arith

-- serde_json writes the frame as `body` and reads it back.
pub record Sends ⦃json : Json⦄ (frame : Frame) (body : Bytes) : Type 0 where
  pub written : json.to_vec frame ≡ ok body
  pub parsed : json.from_slice body ≡ ok frame

module _ ⦃json : Json⦄ where
  abbrev pub packet : Bytes → Bytes
  packet body = to_le_bytes 4 (length body) ++ body

  pub encode_frame-packet :
      (frame : Frame) (body : Bytes)
      → Sends frame body
      → length body < 2 ^ 32
      → encode_frame frame ≡ ok (packet body)
  unfolding encode_frame
  encode_frame-packet frame body s h = rw s.written (ground arith)

  len_reads :
      (body : Bytes)
      → length body < 2 ^ 32
      → from_le_bytes (to_le_bytes 4 (length body)) ≡ length body
  len_reads body h = from_le_bytes-to_le_bytes 4 (length body) h

  -- The length prefix is read as the length of the body.
  pub read_frame-prefix :
      (body more : Bytes)
      → read_exact 4 (packet body ++ more) ≡ ok (to_le_bytes 4 (length body), body ++ more)
  read_frame-prefix body more = rw (append_assoc (to_le_bytes 4 (length body)) body more) (
      read_exact-append 4 (to_le_bytes 4 (length body)) (body ++ more)
        (length-to_le_bytes 4 (length body)))

  pub read_frame-packet :
      (frame : Frame) (body rest : Bytes)
      → Sends frame body
      → length body ≤ max_frame
      → read_frame (packet body ++ rest) ≡ ok (frame, rest)
  unfolding read_frame
  read_frame-packet frame body rest s h = ground (
    arith,
    read_frame-prefix body rest,
    len_reads body,
    read_exact-append (length body) body rest refl,
    s.parsed,
  )
