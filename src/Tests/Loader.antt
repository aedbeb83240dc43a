-- ===== src/Tests/Loader.antt =====
-- The loader's operations and its multiplexer, on a machine with one file.
use tee_demo.Base.{
  arith, ◌≡◌, ◌≢◌, refl, inl, inr, false, Option, none, some, List, [], ◌∷◌, ◌++◌, same, same_refl,
  same_sound, if◌then◌else◌, Bool-cases, Fallible, ok, err, Returns,
}
use tee_demo.Base.Bytes.{Bytes, Text, text}
use tee_demo.Protocol.Frame
use tee_demo.Protocol.Frame.{
  Frame, op_loader_read_blob, op_loader_read_blob_result, op_loader_write_blob,
  op_loader_write_blob_result, op_loader_init_quote, op_loader_get_quote, op_host_ready,
  op_runtime_compute_request,
}
use tee_demo.Loader.Blobs.{Machine}
use tee_demo.Loader.Operations.{handle_loader_op}
use tee_demo.Loader.Operations.Replies.{CallsReturn, handle_loader_op-replies}
use tee_demo.Loader.Operations.Files.{Files}
use tee_demo.Protocol.Wire.RoundTrip.{Sends}
use tee_demo.Protocol.Wire.Streams.{AllSend, packets}
use tee_demo.Loader.Multiplexer.{Turn, enclave_turn, host_turn, Mux, run_multiplexer}
use tee_demo.Loader.Multiplexer.Routing.{for_host, IsInbound}
use tee_demo.Loader.Multiplexer.Delivery.{merged, run_multiplexer-delivers}
use tee_demo.Tests.Toy.{toy, toy_json}

-- The files, as a function of their names; missing ones are `none`.
abbrev pub Disk : Type 0
Disk = Text → Option Bytes

abbrev pub found : Option Bytes → Fallible Bytes
found none = err (text "No such file or directory (os error 2)")
found (some b) = ok b

instance abbrev pub toy_machine : Machine Disk
toy_machine = record {
  read = λ name d. found (d name);
  write = λ name b d. (ok tt, λ n. if same n name then some b else d n);
  create_dir_all = λ d. (ok tt, d);
  supported_att_key_ids = λ d. ok (text "id" ∷ []);
  init_quote_ex = λ id d. ok (text "info");
  get_quote_ex = λ id report nonce d. ok (id ++ report);
}

abbrev pub empty : Disk
empty name = none

other_name : (n name : Text) → n ≢ name → same n name ≡ false
other_name n name h = elim (Bool-cases (same n name)) [
  | inl e ↦ absurd (h (same_sound n name e))
  | inr e ↦ e
]

found-Returns : (o : Option Bytes) → Returns (found o)
found-Returns none = tt
found-Returns (some b) = tt

pub toy-Files : Files toy_machine
toy-Files = record {
  creates_only = λ n d file. refl;
  writes_only = λ name n b d entry file h. rw (other_name n name h) refl;
  directory_kept = λ n b d file. rw (other_name n (text ".") file.1) refl;
  reads_written = λ name b d file e. rw (same_refl name) refl;
}

pub toy-CallsReturn : CallsReturn toy toy_machine
toy-CallsReturn = record {
  decodes = λ t. tt;
  reads = λ name d. found-Returns (d name);
  writes = λ name b d. tt;
  creates = λ d. tt;
  lists = λ d. tt;
  inits = λ id d. tt;
  quotes = λ id report nonce d. tt;
}

abbrev write_request : Frame
write_request = record (Frame.new op_loader_write_blob) {
  seq = some 4;
  path = some (text "a.bin");
  blob = some (text "xyz");
}

abbrev read_request : Frame
read_request = record (Frame.new op_loader_read_blob) { seq = some 5; path = some (text "a.bin") }

handle_loader_op-replies_example :
    (reply : Frame) × ((handle_loader_op write_request empty).0 ≡ ok reply)
    × (reply.op ≡ op_loader_write_blob_result)
    × (reply.seq ≡ some 4)
handle_loader_op-replies_example = handle_loader_op-replies toy-CallsReturn write_request empty

abbrev start : Mux Disk
start = record { machine = empty; to_enclave = []; to_host = [] }

-- A request to the loader, and a frame for the host
abbrev from_runtime : List Frame
from_runtime = Frame.new op_loader_init_quote ∷ Frame.new op_host_ready ∷ []

abbrev from_host : List Frame
from_host = Frame.new op_runtime_compute_request ∷ []

abbrev turns : List Turn
turns = enclave_turn 0 (ok tt) ∷ host_turn 0 (ok tt) ∷ enclave_turn 0 (ok tt) ∷ []

plain-Sends : (op : Text) → Sends (Frame.new op) op
plain-Sends op = record { written = refl; parsed = refl }

abbrev runtime_sends : AllSend from_runtime
runtime_sends = (
  (op_loader_init_quote, plain-Sends op_loader_init_quote, omega arith),
  ((op_host_ready, plain-Sends op_host_ready, omega arith), tt),
)

abbrev host_sends : AllSend from_host
host_sends = ((op_runtime_compute_request, plain-Sends op_runtime_compute_request, omega arith), tt)

-- Both streams end in a frame that is cut off.
run_multiplexer-delivers_example :
    (after : Mux Disk) × (inbound : List Frame) × (run_multiplexer turns
        (packets from_runtime runtime_sends ++ 9 ∷ [])
        (packets from_host host_sends ++ 7 ∷ 0 ∷ [])
        start
      ≡ (ok tt, after))
    × (after.to_host ≡ for_host (merged turns from_runtime from_host))
    × (after.to_enclave ≡ inbound)
    × IsInbound (merged turns from_runtime from_host) inbound
run_multiplexer-delivers_example =
    run_multiplexer-delivers turns from_runtime from_host runtime_sends host_sends (9 ∷ [])
      (7 ∷ 0 ∷ []) start toy-CallsReturn (refl, refl, (refl, refl, (refl, refl, tt)))
