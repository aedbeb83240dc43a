-- ===== src/Loader/Operations.antt =====
-- `handle_loader_op` of loader/src/main.rs, with the calls of the AESM service.
pub mod Replies
pub mod Files
pub mod Blobs
use mathlib.Core.Option
use tee_demo.Base.{
  ℕ, Bool, true, false, ◌||◌, Option, none, some, List, [], ◌∷◌, ◌++◌, same, replicate,
  if◌then◌else◌, Outcome, Fallible, ok, err, panic, ◌>>=◌, map_err,
}
use tee_demo.Base.Bytes.{Bytes, Text, text}
use tee_demo.Protocol.Frame
use tee_demo.Protocol.Frame.{
  Frame, op_loader_read_blob, op_loader_write_blob, op_loader_init_quote,
  op_loader_init_quote_result, op_loader_get_quote, op_loader_get_quote_result,
}
use tee_demo.Protocol.Platform.{Platform}
use tee_demo.Loader.Blobs.{Machine, refusal, granted, handle_blob_op}

-- `ids.into_iter().next().ok_or_else(…)`
abbrev first_id : List Bytes → Fallible Bytes
first_id [] = err (text "no att_key_id from aesmd")
first_id (id ∷ ids) = ok id

module _ {ℓ} {D : Type ℓ} ⦃machine : Machine D⦄ where
  -- An error prints as its outermost context.
  unfoldable pub aesm_init_quote : D → Fallible (Bytes × Bytes)
  aesm_init_quote d = do
    ids ← map_err (λ e. text "get_supported_att_key_ids") (machine.supported_att_key_ids d)
    att_key_id ← first_id ids
    target_info ← map_err (λ e. text "init_quote_ex") (machine.init_quote_ex att_key_id d)
    ok (att_key_id, target_info)

  unfoldable pub aesm_get_quote : Bytes → Bytes → D → Fallible Bytes
  aesm_get_quote att_key_id report d =
      map_err (λ e. text "get_quote_ex") (machine.get_quote_ex att_key_id report (replicate 16 0) d)

module _ ⦃plat : Platform⦄ where
  abbrev pub init_reply : Option ℕ → Fallible (Bytes × Bytes) → Fallible Frame
  init_reply seq (ok (att_key_id, target_info)) =
      ok (record (granted op_loader_init_quote_result seq) {
        att_key_id = some (plat.b64_encode att_key_id);
        target_info = some (plat.b64_encode target_info);
      })
  init_reply seq (err e) = ok (refusal op_loader_init_quote_result seq e)
  init_reply seq panic = panic

  abbrev pub quote_reply : Option ℕ → Fallible Bytes → Fallible Frame
  quote_reply seq (ok quote) =
      ok (record (granted op_loader_get_quote_result seq) { quote = some (plat.b64_encode quote) })
  quote_reply seq (err e) = ok (refusal op_loader_get_quote_result seq e)
  quote_reply seq panic = panic

  -- A field that is missing or is no base64 is refused; else the reply goes on with its bytes.
  abbrev pub with_field :
      Option ℕ → Text → Option (Fallible Bytes) → (Bytes → Fallible Frame) → Fallible Frame
  with_field seq missing (some (ok b)) k = k b
  with_field seq missing (some (err e)) k = ok (refusal op_loader_get_quote_result seq e)
  with_field seq missing (some panic) k = panic
  with_field seq missing none k = ok (refusal op_loader_get_quote_result seq missing)

module _ {ℓ} {D : Type ℓ} ⦃plat : Platform⦄ ⦃machine : Machine D⦄ where
  -- The reply, and the machine after it; only a panic gives no reply.
  unfoldable pub handle_loader_op : Frame → D → Fallible Frame × D
  unfolding handle_blob_op aesm_init_quote aesm_get_quote
  handle_loader_op frame d =
      if same frame.op op_loader_read_blob || same frame.op op_loader_write_blob
      then handle_blob_op frame d
      else if same frame.op op_loader_init_quote
      then (init_reply frame.seq (aesm_init_quote d), d)
      else if same frame.op op_loader_get_quote
      then (
        with_field frame.seq (text "missing report") (Option.map plat.b64_decode frame.report)
            λ report.
              with_field frame.seq (text "missing att_key_id")
                (Option.map plat.b64_decode frame.att_key_id)
                λ att_key_id. quote_reply frame.seq (aesm_get_quote att_key_id report d),
        d,
      )
      else (
        ok (
            refusal (frame.op ++ text "_result") frame.seq
              (text "unsupported loader op: " ++ frame.op)),
        d,
      )
