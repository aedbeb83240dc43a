-- ===== src/Runtime/Connected/Spares.antt =====
-- Actions of runtime/src/main.rs that leave a part of the peer alone, such as a file of the loader.
use tee_demo.Base.State.{continue, ◌>>=◌, lift, pure}
use tee_demo.Base.{
  ℕ, ◌≡◌, ◌≢◌, refl, ap, ◌∙◌, Bool, true, false, Option, none, some, List, if◌then◌else◌, Fallible,
  ok, err, panic,
}
use tee_demo.Base.Bytes.{Bytes, Text}
use tee_demo.Protocol.Frame.{Frame, keyring_name, attestation_name}
use tee_demo.Protocol.Platform.{Platform}
use tee_demo.KeyStore.{KeyStore}
use tee_demo.Runtime.Link.{
  Peer, Io, M, deliver, write_frame, read_frame, next_seq, await_reply, or_now, now_secs,
}
use tee_demo.Runtime.LoaderCalls.{loader_init_quote, loader_get_quote, loader_write_blob}
use tee_demo.Runtime.Attest.{write_attestation_cache, do_attestation, do_attestation_and_cache}
use tee_demo.Runtime.Attest.Bound.{cached-current}

some-injective : {a b : Text} → ◌≡◌ {A = Option Text} (some a) (some b) → a ≡ b
some-injective e = cc e

-- Whether `m` returns or fails, what `look` sees of the peer is as it was.
pub record Spares {ℓ} {P : Type ℓ} {V : Type 0} (look : P → V) {A : Type 0} (m : M P A)
    : Type ℓ where
  pub at : (io : Io P) → look (m io).1.peer ≡ look io.peer

-- The peer does so for each frame that does not name the file `n`.
pub record SparesFile {ℓ} {P : Type ℓ} (n : Text) {V : Type 0} (look : P → V) (net : Peer P)
    : Type ℓ where
  pub receives : (f : Frame) (p : P) → f.path ≢ some n → look (net.receive f p).1 ≡ look p

module _ {ℓ} {P : Type ℓ} {V : Type 0} (look : P → V) {A : Type 0} where
  pub Spares-lift : (r : Fallible A) → Spares look (lift r)
  Spares-lift r = record { at = λ io. refl }

  pub Spares-pure : (a : A) → Spares look (pure a)
  Spares-pure a = record { at = λ io. refl }

  pub Spares-if :
      (b : Bool) (m n : M P A) → Spares look m → Spares look n → Spares look (if b then m else n)
  Spares-if true m n hm hn = hm
  Spares-if false m n hm hn = hn

module _ {ℓ} {P : Type ℓ} {V : Type 0} (look : P → V) {A B : Type 0} where
  pub look-continue :
      (r : Fallible A) (io : Io P) (f : A → M P B)
      → ((a : A) → Spares look (f a))
      → look (continue (r, io) f).1.peer ≡ look io.peer
  look-continue (ok a) io f h = (h a).at io
  look-continue (err e) io f h = refl
  look-continue panic io f h = refl

  pub Spares-bind :
      (m : M P A) (f : A → M P B)
      → Spares look m
      → ((a : A) → Spares look (f a))
      → Spares look (m >>= f)
  Spares-bind m f hm hf = record { at = λ io. look-continue (m io).0 (m io).1 f hf ∙ hm.at io }

  look-continue_from :
      (r : Fallible A) (io : Io P) (f : A → M P B)
      → ((a : A) → r ≡ ok a → Spares look (f a))
      → look (continue (r, io) f).1.peer ≡ look io.peer
  look-continue_from (ok a) io f h = (h a refl).at io
  look-continue_from (err e) io f h = refl
  look-continue_from panic io f h = refl

  -- What follows may use what the first action returned.
  pub Spares-after :
      (m : M P A) (f : A → M P B)
      → Spares look m
      → ((io : Io P) (a : A) (io' : Io P) → m io ≡ (ok a, io') → Spares look (f a))
      → Spares look (m >>= f)
  Spares-after m f hm hf = record {
    at = λ io.
        look-continue_from (m io).0 (m io).1 f (λ a e. hf io a (m io).1 (λ i. (e i, (m io).1)))
        ∙ hm.at io;
  }

module _ {ℓ} {P : Type ℓ} {V : Type 0} (look : P → V) where
  pub Spares-next_seq : Spares {P = P} look next_seq
  unfolding next_seq
  Spares-next_seq = record { at = λ io. refl }

  pub Spares-read_frame : Spares {P = P} look read_frame
  unfolding read_frame
  Spares-read_frame = record { at = λ io. refl }

  pub Spares-await_reply : (op : Text) (seq : ℕ) → Spares {P = P} look (await_reply op seq)
  unfolding await_reply
  Spares-await_reply op seq = record { at = λ io. refl }

  pub Spares-now_secs : ⦃plat : Platform⦄ → Spares {P = P} look now_secs
  Spares-now_secs = record { at = λ io. refl }

  pub Spares-or_now : ⦃plat : Platform⦄ (o : Option ℕ) → Spares {P = P} look (or_now o)
  Spares-or_now none = record { at = λ io. refl }
  Spares-or_now (some t) = record { at = λ io. refl }

pub ruleset spares_rules = (
  Spares-bind, Spares-if, Spares-lift, Spares-pure, Spares-next_seq, Spares-await_reply,
  Spares-or_now,
)

module _ {ℓ} {P : Type ℓ} {V : Type 0} (look : P → V) where
  peer-deliver :
      (f : Frame) (io : Io P) (r : Fallible (List (Fallible Frame))) (p : P)
      → look (deliver f io (r, p)).1.peer ≡ look p
  peer-deliver f io (ok replies) p = refl
  peer-deliver f io (err e) p = refl
  peer-deliver f io panic p = refl

module _ {ℓ} {P : Type ℓ} {V : Type 0} {look : P → V} {n : Text} ⦃plat : Platform⦄ ⦃net : Peer P⦄
    (spares : SparesFile n look net) where
  pub Spares-write_frame : (f : Frame) → f.path ≢ some n → Spares look (write_frame f)
  unfolding write_frame
  Spares-write_frame f h = record {
    at = λ io.
        peer-deliver look f io (net.receive f io.peer).0 (net.receive f io.peer).1
        ∙ spares.receives f io.peer h;
  }

  -- A frame without a path
  pub Spares-pathless : (f : Frame) → f.path ≡ none → Spares look (write_frame f)
  Spares-pathless f e = Spares-write_frame f λ e'. cc (e, e')

  Spares-loader_init_quote : Spares look loader_init_quote
  unfolding loader_init_quote
  Spares-loader_init_quote = search (spares_rules, Spares-pathless) depth 12

  Spares-loader_get_quote : (id report : Bytes) → Spares look (loader_get_quote id report)
  unfolding loader_get_quote
  Spares-loader_get_quote id report = search (spares_rules, Spares-pathless) depth 12

  pub Spares-loader_write_blob :
      (path : Text) (bytes : Bytes) → path ≢ n → Spares look (loader_write_blob path bytes)
  unfolding loader_write_blob
  Spares-loader_write_blob path bytes h =
      search (spares_rules, Spares-write_frame, λ (e : some path ≡ some n). h (some-injective e))

  Spares-do_attestation :
      (nonce : Bytes) (store : KeyStore) → Spares look (do_attestation nonce store)
  unfolding do_attestation
  Spares-do_attestation nonce store =
      search (spares_rules, Spares-loader_init_quote, Spares-loader_get_quote, Spares-now_secs)

module _ {ℓ} {P : Type ℓ} {V : Type 0} {look : P → V} {n : Text} ⦃plat : Platform⦄ ⦃net : Peer P⦄
    (spares : SparesFile n look net) (keyring : keyring_name ≢ n)
    (attestation : attestation_name ≢ n) where
  Spares-write_attestation_cache :
      (resp : Frame) (sequence : ℕ) → Spares look (write_attestation_cache resp sequence)
  unfolding write_attestation_cache
  Spares-write_attestation_cache resp sequence =
      search (spares_rules, Spares-loader_write_blob spares)

  pub Spares-do_attestation_and_cache :
      (nonce : Bytes) (store : KeyStore) (sequence : ℕ)
      → Spares look (do_attestation_and_cache nonce store sequence)
  unfolding do_attestation_and_cache
  Spares-do_attestation_and_cache nonce store sequence = search (
    spares_rules,
    Spares-do_attestation spares,
    Spares-write_attestation_cache,
    Spares-loader_write_blob spares,
  )

  -- The frame that was attested has no path.
  cached_pathless :
      (nonce : Bytes) (store : KeyStore) (k : ℕ) (io : Io P) (out : Frame × ℕ) (io' : Io P)
      → do_attestation_and_cache nonce store k io ≡ (ok out, io')
      → out.0.path ≡ none
  cached_pathless nonce store k io out io' e =
      let (key, quote, at, cur, same_out) = cached-current nonce store k io out.0 out.1 io' e in
      ap (λ (f : Frame). f.path) same_out

  -- An attestation, and an action on its frame
  pub Spares-attested :
      {A : Type 0} (nonce : Bytes) (store : KeyStore) (k : ℕ) (f : Frame × ℕ → M P A)
      → ((out : Frame × ℕ) → out.0.path ≡ none → Spares look (f out))
      → Spares look (do_attestation_and_cache nonce store k >>= f)
  Spares-attested nonce store k f h =
      Spares-after look (do_attestation_and_cache nonce store k) f
        (Spares-do_attestation_and_cache nonce store k)
        λ io out io' e. h out (cached_pathless nonce store k io out io' e)
