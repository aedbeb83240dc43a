-- ===== src/Tests/Launch.antt =====
-- The loader's start on a small disk, and its reader of frames.
use tee_demo.Base.{◌≡◌, refl, true, some, [], ◌∷◌, ◌++◌, same, replicate, ok, err, slice}
use tee_demo.Base.Bytes.{Text, text}
use tee_demo.Strings.Search.{to_lowercase}
use tee_demo.Strings.Hex.{hex_encode}
use tee_demo.Protocol.Frame
use tee_demo.Protocol.Frame.{Frame, op_host_ready}
use tee_demo.Protocol.Wire
use tee_demo.Protocol.Wire.{Sink}
use tee_demo.Loader.Sockets.{
  success, read_frame_async, write_frame_async, read_frame_async-eq-read_frame,
}
use tee_demo.Loader.Start.{Args, Launch, Disk, main}
use tee_demo.Loader.Start.Checked.{Checked, main-Checked}
use tee_demo.Tests.Toy.{toy_json}

-- A stream that the other side closed
abbrev closed : Sink
closed = record { write_all = λ bytes. err (text "Broken pipe"); flush = ok tt }

read_frame_async-eq-read_frame_example :
    (success (read_frame_async (2 ∷ 0 ∷ 0 ∷ 0 ∷ text "op"))
      ≡ success (Wire.read_frame (2 ∷ 0 ∷ 0 ∷ 0 ∷ text "op")))
    × (success (write_frame_async closed (1 ∷ []) (Frame.new op_host_ready))
        ≡ success (Wire.write_frame closed (1 ∷ []) (Frame.new op_host_ready)))
read_frame_async-eq-read_frame_example =
    read_frame_async-eq-read_frame closed (2 ∷ 0 ∷ 0 ∷ 0 ∷ text "op") (1 ∷ [])
      (Frame.new op_host_ready)

-- Each file is there, and holds 1000 zeros.
instance abbrev toy_disk : Disk
toy_disk = record {
  exists = λ path. true;
  with_extension = λ path extension. path ++ text "." ++ extension;
  content = λ path. some (replicate 1000 0);
  create_dir_all = λ path. true;
  isgx_device = true;
  signature_loads = λ path. true;
}

abbrev args : Args
args = record {
  host_socket = text "host.sock";
  sgxs = text "app";
  production = true;
  sig = some (text "app.sig");
  expected_mrenclave = some (replicate 64 b'0');
  data_dir = text "dir";
}

abbrev launch : Launch
launch = record {
  sgxs = text "app";
  signature = some (text "app.sig");
  service = record { host_socket = text "host.sock"; data_dir = text "dir" };
}

launch-ok : main args ≡ ok launch
unfolding main slice same hex_encode to_lowercase
launch-ok = refl

main-Checked_example :
    (path : Text) × (launch.signature ≡ some path)
    × (toy_disk.exists path ≡ true)
    × (toy_disk.exists launch.sgxs ≡ true)
    × Checked (some path) args.expected_mrenclave
main-Checked_example = main-Checked args launch refl launch-ok
