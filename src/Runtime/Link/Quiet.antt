-- ===== src/Runtime/Link/Quiet.antt =====
-- Actions that send nothing, one rule for each way to build an action.
use tee_demo.Base.State.{continue, ◌>>=◌, lift, pure}
use tee_demo.Base.{
  ℕ, ◌≡◌, refl, sym, ap, ◌∙◌, Bool, true, false, Option, none, some, if◌then◌else◌, Fallible, ok,
  err, panic,
}
use tee_demo.Base.Bytes.{Text}
use tee_demo.Protocol.Platform.{Platform}
use tee_demo.Runtime.Link.{Io, M, next_seq, await_reply, or_now}

-- Whether `m` returns or fails, it has sent nothing.
pub record Quiet {ℓ} {P : Type ℓ} {A : Type 0} (m : M P A) : Type ℓ where
  pub at : (io : Io P) → (m io).1.sent ≡ io.sent

module _ {ℓ} {P : Type ℓ} {A : Type 0} where
  pub Quiet-lift : (r : Fallible A) → Quiet {P = P} (lift r)
  Quiet-lift r = record { at = λ io. refl }

  pub Quiet-pure : (a : A) → Quiet {P = P} (pure a)
  Quiet-pure a = record { at = λ io. refl }

  pub Quiet-if : (b : Bool) (m n : M P A) → Quiet m → Quiet n → Quiet (if b then m else n)
  Quiet-if true m n hm hn = hm
  Quiet-if false m n hm hn = hn

module _ {ℓ} {P : Type ℓ} {A B : Type 0} where
  sent-continue :
      (r : Fallible A) (io : Io P) (f : A → M P B)
      → ((a : A) → Quiet (f a))
      → (continue (r, io) f).1.sent ≡ io.sent
  sent-continue (ok a) io f h = (h a).at io
  sent-continue (err e) io f h = refl
  sent-continue panic io f h = refl

  pub Quiet-bind : (m : M P A) (f : A → M P B) → Quiet m → ((a : A) → Quiet (f a)) → Quiet (m >>= f)
  Quiet-bind m f hm hf = record { at = λ io. sent-continue (m io).0 (m io).1 f hf ∙ hm.at io }

module _ {ℓ} {P : Type ℓ} where
  pub Quiet-next_seq : Quiet {P = P} next_seq
  unfolding next_seq
  Quiet-next_seq = record { at = λ io. refl }

  pub Quiet-await_reply : (op : Text) (seq : ℕ) → Quiet {P = P} (await_reply op seq)
  unfolding await_reply
  Quiet-await_reply op seq = record { at = λ io. refl }

  pub Quiet-or_now : ⦃plat : Platform⦄ (o : Option ℕ) → Quiet {P = P} (or_now o)
  Quiet-or_now none = record { at = λ io. refl }
  Quiet-or_now (some t) = record { at = λ io. refl }

-- A quiet action that returned left what was sent.
pub sent-Quiet {ℓ} :
    {P : Type ℓ} {A : Type 0} (m : M P A) (io : Io P) {a : A} {io' : Io P}
    → Quiet m
    → m io ≡ (ok a, io')
    → io'.sent ≡ io.sent
sent-Quiet {P = P} {A = A} m io q e = sym (ap (λ (r : Fallible A × Io P). r.1.sent) e) ∙ q.at io
