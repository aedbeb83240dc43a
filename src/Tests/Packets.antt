-- ===== src/Tests/Packets.antt =====
-- Frames on the wire and the numbers of a request, at concrete inputs.
use tee_demo.Base.{
  ◌^◌, ℕ, ◌≡◌, refl, ◌≢◌, [], ◌∷◌, ◌++◌, arith, length, replicate, length-replicate, some, ok, err,
}
use tee_demo.Base.Bytes.{Bytes, Text, text}
use tee_demo.Base.Int.{ℤ, pos, negsuc, ◌+ℤ◌, ◌*ℤ◌, IsI64}
use tee_demo.Strings.Decimal.{show_nat}
use tee_demo.Protocol.Frame
use tee_demo.Protocol.Frame.{Frame, op_loader_get_quote_result, op_host_ready}
use tee_demo.Protocol.Wire.{encode_frame, read_frame}
use tee_demo.Protocol.Wire.RoundTrip.{Sends}
use tee_demo.Protocol.Wire.Streams.{
  write_frames, read_frames, AllSend, read_frames-write_frames, read_frame-too_large,
}
use tee_demo.Runtime.Compute.{compute}
use tee_demo.Runtime.Compute.Exact.{polynomial, compute-exact, compute-overflow}
use tee_demo.Tests.Toy.{toy_json}

ping-Sends : (op : Text) → Sends (Frame.new op) op
ping-Sends op = record { written = refl; parsed = refl }

ready_twice : AllSend (Frame.new op_host_ready ∷ Frame.new op_host_ready ∷ [])
ready_twice = (
  (op_host_ready, ping-Sends op_host_ready, omega arith),
  ((op_host_ready, ping-Sends op_host_ready, omega arith), tt),
)

read_frames-write_frames_example :
    (sent : Bytes) × (write_frames (9 ∷ []) (Frame.new op_host_ready ∷ Frame.new op_host_ready ∷ [])
      ≡ ok (9 ∷ sent))
    × (read_frames 2 (sent ++ 8 ∷ [])
        ≡ ok (Frame.new op_host_ready ∷ Frame.new op_host_ready ∷ [], 8 ∷ []))
read_frames-write_frames_example =
    read_frames-write_frames (Frame.new op_host_ready ∷ Frame.new op_host_ready ∷ []) (9 ∷ [])
      (8 ∷ []) ready_twice

long_text : (n : ℕ) → (body : Bytes) × (length body ≡ n)
long_text n = (replicate n 65, length-replicate n 65)

abbrev long_body : Bytes
long_body = (long_text 16777217).0

read_frame-too_large_example :
    (sent : Bytes) × (encode_frame (Frame.new long_body) ≡ ok sent)
    × (read_frame (sent ++ []) ≡ err (text "frame len too large: " ++ show_nat (length long_body)))
read_frame-too_large_example =
    read_frame-too_large (Frame.new long_body) long_body [] refl
      (omega (arith, (long_text 16777217).1)) (omega (arith, (long_text 16777217).1))

compute-exact_example : compute (pos 3) (negsuc 1) ≡ polynomial (pos 3) (negsuc 1)
unfolding ◌+ℤ◌ ◌*ℤ◌
compute-exact_example = compute-exact (pos 3) (negsuc 1) (omega arith)

compute-overflow_example :
    IsI64 (compute (pos 3000000) (pos 0))
    × (k : ℤ) × (k ≢ pos 0)
    × (compute (pos 3000000) (pos 0) +ℤ k *ℤ pos (2 ^ 64) ≡ polynomial (pos 3000000) (pos 0))
unfolding ◌+ℤ◌ ◌*ℤ◌
compute-overflow_example = compute-overflow (pos 3000000) (pos 0) (λ h. omega arith)

abbrev quoted : Frame
quoted = record (Frame.new op_loader_get_quote_result) { seq = some 7 }
