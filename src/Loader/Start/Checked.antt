-- ===== src/Loader/Start/Checked.antt =====
-- What an enclave that was launched has passed.
use tee_demo.Base.{
  ℕ, ◌≤◌, ◌≡◌, refl, sym, ap, ◌∙◌, Bool, true, false, not, Option, none, some, arith, ltb,
  same_sound, length, take, drop, unwrap_or, ok, slice-in_range, >>=-ok, ok-injective,
}
use tee_demo.Base.Bytes.{Bytes, Text, text}
use tee_demo.Strings.Search.{to_lowercase}
use tee_demo.Strings.Hex.{hex_encode}
use tee_demo.Loader.Start.{
  Args, Launch, StartError, Disk, guard, opened, mrenclave_of, verify_mrenclave, check_signature,
  load_signature, run, signing, main, no_runtime, no_signature, too_short, no_data_dir, no_device,
}

guard-ok : (b : Bool) (e : StartError) {u : Unit {0}} → guard b e ≡ ok u → b ≡ true
guard-ok true e h = refl
guard-ok false e h = cc h

opened-ok : (o : Option Bytes) {b : Bytes} → opened o ≡ ok b → o ≡ some b
opened-ok none h = cc h
opened-ok (some x) h = ap some (ok-injective h)

not_shorter : (a b : ℕ) → not (ltb a b) ≡ true → b ≤ a
not_shorter a b h = ground arith

module _ ⦃disk : Disk⦄ where
  -- The file holds a SIGSTRUCT whose bytes 960 to 992 are, in hex, the expected text in lower case.
  abbrev pub Signs : Text → Text → Type 0
  Signs sig_path expected =
      (buf : Bytes) × (disk.content sig_path ≡ some buf)
      × (992 ≤ length buf)
      × (hex_encode (take 32 (drop 960 buf)) ≡ to_lowercase expected)

  verify_mrenclave-Signs :
      (sig_path expected : Text) {u : Unit {0}}
      → verify_mrenclave sig_path expected ≡ ok u
      → Signs sig_path expected
  unfolding verify_mrenclave
  verify_mrenclave-Signs sig_path expected e =
      let (buf, o, e1) = >>=-ok (opened (disk.content sig_path)) _ e in
      let (u1, g, e2) = >>=-ok (guard (not (ltb (length buf) 992)) too_short) _ e1 in
      let long : 992 ≤ length buf = not_shorter (length buf) 992 (guard-ok _ _ g) in
      let (mr, s, e3) = >>=-ok (mrenclave_of buf) _ e2 in
      let field : take 32 (drop 960 buf) ≡ mr =
        ok-injective (sym (slice-in_range 960 992 buf (omega arith) long) ∙ s) in
      (
        buf,
        opened-ok _ o,
        long,
        ap hex_encode field ∙ same_sound (hex_encode mr) (to_lowercase expected) (guard-ok _ _ e3),
      )

  -- What a launch with this signature and this expected MRENCLAVE has passed
  abbrev pub Checked : Option Text → Option Text → Type 0
  Checked (some sig_path) (some expected) = Signs sig_path expected
  Checked (some sig_path) none = Unit
  Checked none expected = Unit

  check_signature-Checked :
      (sig expected : Option Text) {u : Unit {0}}
      → check_signature sig expected ≡ ok u
      → Checked sig expected
  check_signature-Checked (some sig_path) (some expected) e =
      verify_mrenclave-Signs sig_path expected e
  check_signature-Checked (some sig_path) none e = tt
  check_signature-Checked none expected e = tt

  signing-production :
      (args : Args) (sig expected : Option Text)
      → args.production ≡ true
      → signing args ≡ ok (sig, expected)
      → (path : Text) × (sig ≡ some path)
        × (disk.exists path ≡ true)
        × (expected ≡ args.expected_mrenclave)
  signing-production args sig expected p e =
      let e' = rw p at e in
      let path = unwrap_or (disk.with_extension args.sgxs (text "sig")) args.sig in
      let (u, g, h) = >>=-ok (guard (disk.exists path) no_signature) _ e' in
      let same_pair = ok-injective h in
      (
        path,
        sym (ap (λ (q : Option Text × Option Text). q.0) same_pair),
        guard-ok _ _ g,
        sym (ap (λ (q : Option Text × Option Text). q.1) same_pair),
      )

  -- An enclave that the loader launches in production mode has a signature file, which exists and
  -- which the launch uses; and if an MRENCLAVE is expected, then that file's SIGSTRUCT holds it:
  -- bytes 960 to 992, in hex, are the expected text in lower case.
  pub main-Checked :
      (args : Args) (launch : Launch)
      → args.production ≡ true
      → main args ≡ ok launch
      → (path : Text) × (launch.signature ≡ some path)
        × (disk.exists path ≡ true)
        × (disk.exists launch.sgxs ≡ true)
        × Checked (some path) args.expected_mrenclave
  unfolding main run
  main-Checked args launch production e =
      let (u1, g1, e1) = >>=-ok (guard (disk.exists args.sgxs) no_runtime) _ e in
      let ((sig, expected), s, e2) = >>=-ok (signing args) _ e1 in
      let (path, is_sig, found, is_expected) = signing-production args sig expected production s in
      let (u2, c, e3) = >>=-ok (check_signature sig expected) _ e2 in
      let (u3, g2, e4) = >>=-ok (guard (disk.create_dir_all args.data_dir) no_data_dir) _ e3 in
      let (u4, g3, e5) = >>=-ok (guard disk.isgx_device no_device) _ e4 in
      let (u5, l, e6) = >>=-ok (load_signature sig) _ e5 in
      let is_launch = ok-injective e6 in
      (
        path,
        sym (ap (λ (l : Launch). l.signature) is_launch) ∙ is_sig,
        found,
        ap disk.exists (sym (ap (λ (l : Launch). l.sgxs) is_launch)) ∙ guard-ok _ _ g1,
        check_signature-Checked (some path) args.expected_mrenclave (
            ap (λ x. check_signature x args.expected_mrenclave) (sym is_sig)
            ∙ ap (check_signature sig) (sym is_expected)
            ∙ c),
      )
