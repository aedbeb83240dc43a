-- ===== src/Tests/Process.antt =====
-- A daemon that is started and stopped, and a computation that is not sealed.
use tee_demo.Base.{◌≡◌, refl, true, [], ◌∷◌, ok, err}
use tee_demo.Base.Bytes.{text}
use tee_demo.Base.Int.{pos, negsuc}
use tee_demo.Protocol.Frame
use tee_demo.Protocol.Frame.{Frame, op_host_ready}
use tee_demo.Runtime.Server.{missing_ct, compute_reply}
use tee_demo.Host.Connection.{RuntimeConnection, from_frame}
use tee_demo.Host.Connection.Plain.{plain_request, request_compute, request_compute-refused}
use tee_demo.Host.Process.{Kernel}
use tee_demo.Tests.Toy.{toy}
use tee_demo.Tests.Server.{store}

abbrev connection : RuntimeConnection
connection = record {
  inbox = [];
  sent = [];
  next_id = 7;
  latest_bundle = from_frame (Frame.new op_host_ready);
}

request_compute-refused_example :
    (request_compute (ok tt) (pos 3) (negsuc 1) (record connection {
      inbox = ok (missing_ct (plain_request connection (pos 3) (negsuc 1))) ∷ [];
    })).0
    ≡ err (text "compute failed: missing ct")
unfolding compute_reply
request_compute-refused_example =
    request_compute-refused (pos 3) (negsuc 1) store
      (record connection {
        inbox = ok (missing_ct (plain_request connection (pos 3) (negsuc 1))) ∷ [];
      })
      (missing_ct (plain_request connection (pos 3) (negsuc 1))) [] refl refl

instance abbrev pub kernel : Kernel
kernel = record {
  own_pid = 42;
  write = λ path. ok tt;
  removable = λ path. true;
  bind = λ path. ok tt;
  kill = λ pid. ok tt;
}
