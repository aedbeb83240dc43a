-- ===== src/Loader/Operations/Files.antt =====
-- Which files the loader's operations touch.
use mathlib.Core.Option
use tee_demo.Base.{
  ◌≡◌, ◌≢◌, refl, sym, ap, ◌∙◌, ◌⊎◌, inl, inr, ◌||◌, Option, none, some, true, false, same,
  same_refl, same_sound, Bool, Bool-cases, ℕ, Fallible, ok, err, panic,
}
use tee_demo.Base.Bytes.{Bytes, Text, text}
use tee_demo.Protocol.Frame.{
  Frame, op_loader_read_blob, op_loader_read_blob_result, op_loader_write_blob,
  op_loader_init_quote, op_loader_get_quote,
}
use tee_demo.Protocol.Platform.{Platform}
use tee_demo.Loader.Blobs.{
  Machine, refusal, blob_name, read_reply, write_reply, write_in, write_decoded, blob_op,
  handle_blob_op,
}
use tee_demo.Loader.Names.{IsInside, IsFileName, safe_blob_name-same, safe_blob_name-IsInside}
use tee_demo.Loader.Operations.{handle_loader_op}

-- A data directory without links and subdirectories, on a file system that tells all names apart: a
-- write to a file name changes the file of that name only, and is read back if it succeeded; a write
-- to the directory itself changes no file.
pub record Files {ℓ} {D : Type ℓ} (machine : Machine D) : Type ℓ where
  pub creates_only :
      (n : Text) (d : D)
      → IsFileName n
      → machine.read n (machine.create_dir_all d).1 ≡ machine.read n d
  pub writes_only :
      (name n : Text) (b : Bytes) (d : D)
      → IsFileName name
      → IsFileName n
      → n ≢ name
      → machine.read n (machine.write name b d).1 ≡ machine.read n d
  pub directory_kept :
      (n : Text) (b : Bytes) (d : D)
      → IsFileName n
      → machine.read n (machine.write (text ".") b d).1 ≡ machine.read n d
  pub reads_written :
      (name : Text) (b : Bytes) (d : D)
      → IsFileName name
      → (machine.write name b d).0 ≡ ok tt
      → machine.read name (machine.write name b d).1 ≡ ok b

-- Texts that the test tells apart
not_same : (a b : Text) → same a b ≡ false → a ≢ b
not_same a b h e = cc (ap (same a) (sym e), same_refl a, h)

first_false : (a b : Bool) → (a || b) ≡ false → a ≡ false
first_false true b h = cc h
first_false false b h = refl

blob_name-named :
    (path : Option Text) (name : Text)
    → blob_name path ≡ some name
    → (path ≡ some name) × IsInside name
blob_name-named none name e = cc e
blob_name-named (some path) name e =
    (ap some (safe_blob_name-same path name e), safe_blob_name-IsInside path name e)

-- A write to a name that is inside keeps the other files.
kept_by {ℓ} :
    {D : Type ℓ} {machine : Machine D} (files : Files machine) (name n : Text) (b : Bytes) (d : D)
    → IsInside name
    → IsFileName n
    → n ≢ name
    → machine.read n (machine.write name b d).1 ≡ machine.read n d
kept_by {machine} files name n b d inside file other = elim (Bool-cases (same name (text "."))) [
  | inl dot ↦
      let is : name ≡ text "." = same_sound name (text ".") dot in
      rw is (files.directory_kept n b d file)
  | inr entry ↦ files.writes_only name n b d (inside, not_same name (text ".") entry) file other
]

module _ {ℓ} {D : Type ℓ} ⦃plat : Platform⦄ ⦃machine : Machine D⦄ where
  -- What an operation did to the machine: nothing, or it made the data directory, or it then wrote
  -- one blob to the name in its frame, which is inside.
  abbrev pub Touches : Frame → D → D → Type ℓ
  Touches frame d after =
      (after ≡ d)
      ⊎ ((after ≡ (machine.create_dir_all d).1)
          ⊎ ((name : Text) × (b : Bytes) × (frame.op ≡ op_loader_write_blob)
              × (frame.path ≡ some name)
              × IsInside name
              × (after ≡ (machine.write name b (machine.create_dir_all d).1).1)))

  -- What an operation read: nothing, as it is no read or is refused, or the name in its frame, which
  -- is inside.
  abbrev pub Looks : Frame → D → Fallible Frame → Type 0
  Looks frame d reply =
      (frame.op ≢ op_loader_read_blob)
      ⊎ ((reply ≡ ok (refusal op_loader_read_blob_result frame.seq (text "invalid blob path")))
          ⊎ ((name : Text) × (frame.path ≡ some name)
              × IsInside name
              × (reply ≡ read_reply frame.seq (machine.read name d))))

  -- The write behind its guards
  abbrev Wrote : Text → D → D → Type ℓ
  Wrote name d after =
      (after ≡ d)
      ⊎ ((after ≡ (machine.create_dir_all d).1)
          ⊎ ((b : Bytes) × (after ≡ (machine.write name b (machine.create_dir_all d).1).1)))

  after-write_reply :
      (seq : Option ℕ) (r : Fallible (Unit {0})) (d : D) → (write_reply seq (r, d)).1 ≡ d
  after-write_reply seq (ok u) d = refl
  after-write_reply seq (err e) d = refl
  after-write_reply seq panic d = refl

  write_in-Wrote :
      (frame : Frame) (name : Text) (b : Bytes) (d : D) (r : Fallible (Unit {0}))
      → Wrote name d (write_in frame.seq name b (r, (machine.create_dir_all d).1)).1
  write_in-Wrote frame name b d (ok u) =
      let made = (machine.create_dir_all d).1 in
      inr (
        inr (
          b,
          after-write_reply frame.seq (machine.write name b made).0 (machine.write name b made).1,
        ))
  write_in-Wrote frame name b d (err e) = inr (inl refl)
  write_in-Wrote frame name b d panic = inr (inl refl)

  write_decoded-Wrote :
      (frame : Frame) (name : Text) (field : Option (Fallible Bytes)) (d : D)
      → Wrote name d (write_decoded frame.seq name field d).1
  write_decoded-Wrote frame name none d = inl refl
  write_decoded-Wrote frame name (some (ok b)) d =
      write_in-Wrote frame name b d (machine.create_dir_all d).0
  write_decoded-Wrote frame name (some (err e)) d = inl refl
  write_decoded-Wrote frame name (some panic) d = inl refl

  Wrote-Touches :
      (frame : Frame) (name : Text) (d after : D)
      → frame.op ≡ op_loader_write_blob
      → (frame.path ≡ some name) × IsInside name
      → Wrote name d after
      → Touches frame d after
  Wrote-Touches frame name d after o n (inl e) = inl e
  Wrote-Touches frame name d after o n (inr (inl e)) = inr (inl e)
  Wrote-Touches frame name d after o n (inr (inr (b, e))) = inr (inr (name, b, o, n.0, n.1, e))

  blob_op-confined :
      (frame : Frame) (name : Option Text) (d : D)
      → blob_name frame.path ≡ name
      → Touches frame d (blob_op frame name d).1 × Looks frame d (blob_op frame name d).0
  blob_op-confined frame none d e = elim (Bool-cases (same frame.op op_loader_read_blob)) [
    | inl r ↦ (inl refl, rw r (inr (inl refl)))
    | inr nr ↦ (inl refl, inl (not_same frame.op op_loader_read_blob nr))
  ]
  blob_op-confined frame (some name) d e =
      let named = blob_name-named frame.path name e in
      elim (Bool-cases (same frame.op op_loader_read_blob)) [
        | inl r ↦ rw r (inl refl, inr (inr (name, named.0, named.1, refl)))
        | inr nr ↦ elim (Bool-cases (same frame.op op_loader_write_blob)) [
          | inl w ↦
              rw (nr, w)
                (
                  Wrote-Touches frame name d _ (same_sound frame.op op_loader_write_blob w) named
                      (write_decoded-Wrote frame name (Option.map plat.b64_decode frame.blob) d),
                  inl (not_same frame.op op_loader_read_blob nr),
                )
          | inr nw ↦ rw (nr, nw) (inl refl, inl (not_same frame.op op_loader_read_blob nr))
        ]
      ]

  pub handle_loader_op-confined :
      (frame : Frame) (d : D)
      → Touches frame d (handle_loader_op frame d).1 × Looks frame d (handle_loader_op frame d).0
  unfolding handle_loader_op handle_blob_op
  handle_loader_op-confined frame d =
      elim (Bool-cases (same frame.op op_loader_read_blob || same frame.op op_loader_write_blob)) [
        | inl b ↦ rw b (blob_op-confined frame (blob_name frame.path) d refl)
        | inr nb ↦
            let no_read : frame.op ≢ op_loader_read_blob =
              not_same frame.op op_loader_read_blob (first_false _ _ nb) in
            elim (Bool-cases (same frame.op op_loader_init_quote)) [
              | inl i ↦ rw (nb, i) (inl refl, inl no_read)
              | inr ni ↦ elim (Bool-cases (same frame.op op_loader_get_quote)) [
                | inl g ↦ rw (nb, ni, g) (inl refl, inl no_read)
                | inr ng ↦ rw (nb, ni, ng) (inl refl, inl no_read)
              ]
            ]
      ]

  -- A file that the frame does not name keeps its content.
  pub handle_loader_op-spares :
      (files : Files machine) (frame : Frame) (d : D) (n : Text)
      → IsFileName n
      → frame.path ≢ some n
      → machine.read n (handle_loader_op frame d).1 ≡ machine.read n d
  handle_loader_op-spares files frame d n file other = elim (handle_loader_op-confined frame d).0 [
    | inl e ↦ ap (machine.read n) e
    | inr (inl e) ↦ ap (machine.read n) e ∙ files.creates_only n d file
    | inr (inr (name, b, o, p, inside, e)) ↦
        ap (machine.read n) e
        ∙ kept_by files name n b (machine.create_dir_all d).1 inside file
            (λ s. other (p ∙ ap some (sym s)))
        ∙ files.creates_only n d file
  ]
