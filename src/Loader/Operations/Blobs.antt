-- ===== src/Loader/Operations/Blobs.antt =====
-- A blob that was written is what is read.

use tee_demo.Base.{◌≡◌, ◌≢◌, refl, ap, ◌∙◌, ◌⊎◌, inl, inr, true, ◌||◌, some, same, ok, err}
use tee_demo.Base.Bytes.{Bytes, Text, text}
use tee_demo.Protocol.Frame.{
  Frame, op_loader_read_blob, op_loader_read_blob_result, op_loader_write_blob,
  op_loader_write_blob_result,
}
use tee_demo.Protocol.Platform.{Platform}
use tee_demo.Loader.Blobs.{
  Machine, refusal, safe_blob_name, blob_name, granted, blob_op, handle_blob_op,
}
use tee_demo.Loader.Operations.{handle_loader_op}
use tee_demo.Loader.Names.{safe_blob_name-IsInside}
use tee_demo.Loader.Operations.Files.{Files}

blob_request :
    (frame : Frame)
    → (frame.op ≡ op_loader_read_blob) ⊎ (frame.op ≡ op_loader_write_blob)
    → (same frame.op op_loader_read_blob || same frame.op op_loader_write_blob) ≡ true
unfolding same
blob_request frame (inl e) = rw e refl
blob_request frame (inr e) = rw e refl

module _ {ℓ} {D : Type ℓ} ⦃plat : Platform⦄ ⦃machine : Machine D⦄ (files : Files machine) where
  handle_loader_op-blob_op :
      (frame : Frame) (d : D)
      → (frame.op ≡ op_loader_read_blob) ⊎ (frame.op ≡ op_loader_write_blob)
      → handle_loader_op frame d ≡ blob_op frame (blob_name frame.path) d
  unfolding handle_loader_op handle_blob_op
  handle_loader_op-blob_op frame d h = rw (blob_request frame h) refl

  read-blob_op :
      (frame : Frame) (n : Text) (b : Bytes) (d : D)
      → frame.op ≡ op_loader_read_blob
      → machine.read n d ≡ ok b
      → blob_op frame (some n) d ≡ (
        ok (record (granted op_loader_read_blob_result frame.seq) {
          blob = some (plat.b64_encode b);
        }),
        d,
      )
  unfolding same
  read-blob_op frame n b d o found = rw (o, found) refl

  -- A write to a name that is accepted is granted on a disk that takes it, and can be read back.
  pub handle_loader_op-grants_write :
      (frame : Frame) (name t : Text) (b : Bytes) (d : D)
      → frame.op ≡ op_loader_write_blob
      → frame.path ≡ some name
      → safe_blob_name name ≡ some name
      → name ≢ text "."
      → frame.blob ≡ some t
      → plat.b64_decode t ≡ ok b
      → (machine.create_dir_all d).0 ≡ ok tt
      → ((e : D) → (machine.write name b e).0 ≡ ok tt)
      → (d' : D) × (handle_loader_op frame d
          ≡ (ok (granted op_loader_write_blob_result frame.seq), d'))
        × (machine.read name d' ≡ ok b)
  unfolding same
  handle_loader_op-grants_write frame name t b d o fp safe entry fb dec creates writes =
      let d1 = (machine.create_dir_all d).1 in
      (
        (machine.write name b d1).1,
        handle_loader_op-blob_op frame d (inr o)
            ∙ rw (fp, safe, o, fb, dec, creates, writes d1) refl,
        files.reads_written name b d1 (safe_blob_name-IsInside name name safe, entry) (writes d1),
      )

  pub handle_loader_op-reads :
      (r : Frame) (name : Text) (b : Bytes) (d : D)
      → r.op ≡ op_loader_read_blob
      → r.path ≡ some name
      → safe_blob_name name ≡ some name
      → machine.read name d ≡ ok b
      → handle_loader_op r d ≡ (
        ok (record (granted op_loader_read_blob_result r.seq) { blob = some (plat.b64_encode b) }),
        d,
      )
  handle_loader_op-reads r name b d o p safe found =
      handle_loader_op-blob_op r d (inl o)
      ∙ ap (λ m. blob_op r m d) (ap blob_name p ∙ safe)
      ∙ read-blob_op r name b d o found

  -- A file that cannot be read is refused.
  pub handle_loader_op-not_found :
      (r : Frame) (name e : Text) (d : D)
      → r.op ≡ op_loader_read_blob
      → r.path ≡ some name
      → safe_blob_name name ≡ some name
      → machine.read name d ≡ err e
      → handle_loader_op r d ≡ (ok (refusal op_loader_read_blob_result r.seq (text "not found")), d)
  unfolding same
  handle_loader_op-not_found r name e d o p safe missing =
      handle_loader_op-blob_op r d (inl o) ∙ rw (p, safe, o, missing) refl
