-- ===== src/Loader/Blobs.antt =====
-- `safe_blob_name` and `handle_blob_op` of loader/src/main.rs. The file system is an interface,
-- which reads and writes the files of the data directory by name.
use tee_demo.Base.{
  ℕ, Bool, true, false, ◌&&◌, ◌||◌, Option, none, some, List, [], ◌∷◌, ◌==◌, leb, same,
  if◌then◌else◌, Fallible, ok, err, panic,
}
use mathlib.Core.Option
use tee_demo.Base.Bytes.{Bytes, Text, text}
use tee_demo.Strings.Search.{contains}
use tee_demo.Protocol.Frame
use tee_demo.Protocol.Frame.{
  Frame, op_loader_read_blob, op_loader_read_blob_result, op_loader_write_blob,
  op_loader_write_blob_result,
}
use tee_demo.Protocol.Platform.{Platform}

-- What the loader uses of std::fs in its data directory, and of the aesm_client crate, on a state
pub record Machine {ℓ} (D : Type ℓ) : Type ℓ where
  pub read : Text → D → Fallible Bytes
  pub write : Text → Bytes → D → Fallible (Unit {0}) × D
  pub create_dir_all : D → Fallible (Unit {0}) × D
  pub supported_att_key_ids : D → Fallible (List Bytes)
  -- The target info of a quoting enclave
  pub init_quote_ex : Bytes → D → Fallible Bytes
  -- key id, report, nonce
  pub get_quote_ex : Bytes → Bytes → Bytes → D → Fallible Bytes

abbrev pub is_name_char : ℕ → Bool
is_name_char c =
    (leb b'a' c && leb c b'z')
    || ((leb b'A' c && leb c b'Z')
        || ((leb b'0' c && leb c b'9') || (c == b'.' || (c == b'_' || c == b'-'))))

-- `chars().all(…)`
abbrev pub all_chars : (ℕ → Bool) → Text → Bool
all_chars test [] = true
all_chars test (c ∷ s) = test c && all_chars test s

unfoldable pub safe_blob_name : Text → Option Text
safe_blob_name name =
    if same name []
      || (contains name (text "/") || (contains name (text "\\") || contains name (text "..")))
    then none
    else if all_chars is_name_char name
    then some name
    else none

-- A reply with `ok = false`
abbrev pub refusal : Text → Option ℕ → Text → Frame
refusal op seq error = record (Frame.new op) { seq = seq; ok = some false; error = some error }

-- A reply with `ok = true`
abbrev pub granted : Text → Option ℕ → Frame
granted op seq = record (Frame.new op) { seq = seq; ok = some true }

-- `frame.path.as_deref().and_then(safe_blob_name)`
abbrev pub blob_name : Option Text → Option Text
blob_name none = none
blob_name (some path) = safe_blob_name path

abbrev pub read_reply : ⦃plat : Platform⦄ → Option ℕ → Fallible Bytes → Fallible Frame
read_reply ⦃plat⦄ seq (ok bytes) =
    ok (record (granted op_loader_read_blob_result seq) { blob = some (plat.b64_encode bytes) })
read_reply seq (err e) = ok (refusal op_loader_read_blob_result seq (text "not found"))
read_reply seq panic = panic

module _ {ℓ} {D : Type ℓ} where
  abbrev pub write_reply : Option ℕ → Fallible (Unit {0}) × D → Fallible Frame × D
  write_reply seq (ok u, d) = (ok (granted op_loader_write_blob_result seq), d)
  write_reply seq (err e, d) = (ok (refusal op_loader_write_blob_result seq e), d)
  write_reply seq (panic, d) = (panic, d)

module _ {ℓ} {D : Type ℓ} ⦃plat : Platform⦄ ⦃machine : Machine D⦄ where
  abbrev pub write_in : Option ℕ → Text → Bytes → Fallible (Unit {0}) × D → Fallible Frame × D
  write_in seq name bytes (ok u, d) = write_reply seq (machine.write name bytes d)
  write_in seq name bytes (err e, d) = (ok (refusal op_loader_write_blob_result seq e), d)
  write_in seq name bytes (panic, d) = (panic, d)

  abbrev pub write_decoded : Option ℕ → Text → Option (Fallible Bytes) → D → Fallible Frame × D
  write_decoded seq name (some (ok bytes)) d = write_in seq name bytes (machine.create_dir_all d)
  write_decoded seq name (some (err e)) d = (ok (refusal op_loader_write_blob_result seq e), d)
  write_decoded seq name (some panic) d = (panic, d)
  write_decoded seq name none d =
      (ok (refusal op_loader_write_blob_result seq (text "missing blob")), d)

  -- The operation on a name that is safe; `unreachable!()` is a panic.
  abbrev pub blob_op : Frame → Option Text → D → Fallible Frame × D
  blob_op frame none d =
      let result_op =
        if same frame.op op_loader_read_blob
        then op_loader_read_blob_result
        else op_loader_write_blob_result in
      (ok (refusal result_op frame.seq (text "invalid blob path")), d)
  blob_op frame (some name) d =
      if same frame.op op_loader_read_blob
      then (read_reply frame.seq (machine.read name d), d)
      else if same frame.op op_loader_write_blob
      then write_decoded frame.seq name (Option.map plat.b64_decode frame.blob) d
      else (panic, d)

  unfoldable pub handle_blob_op : Frame → D → Fallible Frame × D
  handle_blob_op frame d = blob_op frame (blob_name frame.path) d
