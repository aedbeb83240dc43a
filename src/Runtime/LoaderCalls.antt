-- ===== src/Runtime/LoaderCalls.antt =====
-- The four calls of the loader in runtime/src/main.rs.
use tee_demo.Base.State.{◌>>=◌, ◌>>◌, pure, lift}
use tee_demo.Base.{not, Option, none, some, if◌then◌else◌, is_true, err, ok_or, unwrap_or}
use tee_demo.Base.Bytes.{Bytes, Text, text}
use tee_demo.Protocol.Frame
use tee_demo.Protocol.Frame.{
  Frame, op_loader_init_quote, op_loader_init_quote_result, op_loader_get_quote,
  op_loader_get_quote_result, op_loader_read_blob, op_loader_read_blob_result, op_loader_write_blob,
  op_loader_write_blob_result,
}
use tee_demo.Protocol.Platform.{Platform}
use tee_demo.Runtime.Link.{Peer, M, write_frame, next_seq, await_reply}

module _ {ℓ} {P : Type ℓ} ⦃plat : Platform⦄ ⦃net : Peer P⦄ where
  unfoldable pub loader_init_quote : M P (Bytes × Bytes)
  loader_init_quote = do
    req_seq ← next_seq
    write_frame (record (Frame.new op_loader_init_quote) { seq = some req_seq })
    resp ← await_reply op_loader_init_quote_result req_seq
    if not (is_true resp.ok)
        then lift (err (unwrap_or (text "loader.init_quote failed") resp.error))
        else (do
          att_key_id ← lift (ok_or (text "missing att_key_id") resp.att_key_id)
          target_info ← lift (ok_or (text "missing target_info") resp.target_info)
          key_id ← lift (plat.b64_decode att_key_id)
          info ← lift (plat.b64_decode target_info)
          pure (key_id, info))

  unfoldable pub loader_get_quote : Bytes → Bytes → M P Bytes
  loader_get_quote att_key_id report = do
    req_seq ← next_seq
    write_frame (record (Frame.new op_loader_get_quote) {
      seq = some req_seq;
      att_key_id = some (plat.b64_encode att_key_id);
      report = some (plat.b64_encode report);
    })
    resp ← await_reply op_loader_get_quote_result req_seq
    if not (is_true resp.ok)
        then lift (err (unwrap_or (text "loader.get_quote failed") resp.error))
        else (do
          quote ← lift (ok_or (text "missing quote") resp.quote)
          lift (plat.b64_decode quote))

  unfoldable pub loader_read_blob : Text → M P (Option Bytes)
  loader_read_blob path = do
    req_seq ← next_seq
    write_frame (record (Frame.new op_loader_read_blob) { seq = some req_seq; path = some path })
    resp ← await_reply op_loader_read_blob_result req_seq
    if not (is_true resp.ok) then pure none else elim resp.blob [
      | some b ↦ (do bytes ← lift (plat.b64_decode b); pure (some bytes))
      | none ↦ pure none
    ]

  unfoldable pub loader_write_blob : Text → Bytes → M P (Unit {0})
  loader_write_blob path bytes = do
    req_seq ← next_seq
    write_frame (record (Frame.new op_loader_write_blob) {
      seq = some req_seq;
      path = some path;
      blob = some (plat.b64_encode bytes);
    })
    resp ← await_reply op_loader_write_blob_result req_seq
    if not (is_true resp.ok)
        then lift (err (unwrap_or (text "loader.write_blob failed") resp.error))
        else pure tt
