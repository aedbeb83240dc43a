-- ===== src/Tests/Toy.antt =====
-- A platform, a JSON codec and a loader that are small enough to run.
use tee_demo.Base.{
  ℕ, ◌+◌, refl, Bool, true, some, [], ◌∷◌, ◌++◌, arith, if◌then◌else◌, same, same_refl, drop,
  replicate, length, take, ◌==◌, ok, err, panic,
}
use tee_demo.Base.Bytes.{Text, text, to_le_bytes, from_le_bytes}
use tee_demo.Protocol.Frame
use tee_demo.Protocol.Frame.{
  Frame, op_loader_init_quote, op_loader_init_quote_result, op_loader_get_quote,
  op_loader_get_quote_result, op_loader_read_blob, op_loader_read_blob_result, op_loader_write_blob,
  op_loader_write_blob_result,
}
use tee_demo.Protocol.Platform.{Platform, IsKeyPair}
use tee_demo.Protocol.Wire.{Json}
use tee_demo.Runtime.Link.{Peer}

-- A key opens what was sealed to it; a hash is its message as a number of 32 bytes.
instance abbrev pub toy : Platform
toy = record {
  b64_encode = λ b. b;
  b64_decode = ok;
  sha256 = λ b. to_le_bytes 32 (from_le_bytes b);
  gen_keypair = λ d. (to_le_bytes 4 d, to_le_bytes 4 d);
  public_key_from_bytes = ok;
  private_key_from_bytes = ok;
  encapped_key_from_bytes = ok;
  single_shot_seal = λ draw pk info pt aad. ok (pk, pt);
  single_shot_open = λ sk enc info ct aad. if same sk enc then ok ct else err (text "OpenError");
  aes_key_from_slice = λ key. if length key == 16 then ok key else err (text "InvalidLength");
  nonce_from_slice = λ nonce. if length nonce == 12 then ok nonce else panic;
  aes_encrypt = λ key nonce m. ok (replicate 16 0 ++ m);
  aes_decrypt = λ key nonce ct. ok (drop 16 ct);
  self_isvsvn = 1;
  self_cpusvn = replicate 16 7;
  egetkey = λ req. ok (take 16 req.keyid);
  targetinfo_try_copy_from = some;
  report_for_target = λ target_info report_data. target_info ++ report_data;
  getrandom = λ draw n. ok (replicate n draw);
  now_secs = λ reading. 6000 + reading;
}

-- A JSON text is the operation of its frame.
instance abbrev pub toy_json : Json
toy_json = record { to_vec = λ frame. ok frame.op; from_slice = λ body. ok (Frame.new body) }

abbrev answer : Frame → Text → Frame
answer f op = record (Frame.new op) {
  seq = f.seq;
  ok = some true;
  att_key_id = some (text "id");
  target_info = some (text "info");
  quote = some (text "quote");
}

-- A loader that grants every request and has no blob; the state is not used.
instance abbrev pub toy_peer : Peer Bool
toy_peer = record {
  receive = λ f p.
      if same f.op op_loader_init_quote
      then (ok (ok (answer f op_loader_init_quote_result) ∷ []), p)
      else if same f.op op_loader_get_quote
      then (ok (ok (answer f op_loader_get_quote_result) ∷ []), p)
      else if same f.op op_loader_read_blob
      then (ok (ok (answer f op_loader_read_blob_result) ∷ []), p)
      else if same f.op op_loader_write_blob
      then (ok (ok (answer f op_loader_write_blob_result) ∷ []), p)
      else (ok [], p);
}

pub toy-IsKeyPair : (draw : ℕ) → IsKeyPair toy (toy.gen_keypair draw).0 (toy.gen_keypair draw).1
unfolding to_le_bytes
toy-IsKeyPair draw info d pt aad = record {
  public_key = to_le_bytes 4 draw;
  private_key = to_le_bytes 4 draw;
  enc = to_le_bytes 4 draw;
  parsed_enc = to_le_bytes 4 draw;
  sealed_text = pt;
  public_parses = refl;
  private_parses = refl;
  seals = refl;
  enc_short = omega arith;
  enc_parses = refl;
  opens = rw (same_refl (to_le_bytes 4 draw)) refl;
}
