-- ===== src/Base/State.antt =====
-- Calls that change a state and can fail. The state comes back after an error too: what was done
-- stays done.
use mathlib.Core.Path.{◌≡◌, refl, ap}
use tee_demo.Base.Result.{Fallible, ok, err, panic}

abbrev pub State {ℓ} : Type ℓ → Type 0 → Type ℓ
State S A = S → Fallible A × S

module _ {ℓ} {S : Type ℓ} {A B : Type 0} where
  abbrev pub continue : Fallible A × S → (A → State S B) → Fallible B × S
  continue (ok a, s) f = f a s
  continue (err e, s) f = (err e, s)
  continue (panic, s) f = (panic, s)

  infixl 5 ◌>>=◌ ◌>>◌
  abbrev pub ◌>>=◌ : State S A → (A → State S B) → State S B
  ◌>>=◌ m f s = continue (m s) f

  abbrev pub ◌>>◌ : State S A → State S B → State S B
  m >> k = m >>= λ _. k

  continue-ok :
      (r : Fallible A) (s : S) (f : A → State S B) {b : B} {s' : S}
      → continue (r, s) f ≡ (ok b, s')
      → (a : A) × (r ≡ ok a) × (f a s ≡ (ok b, s'))
  continue-ok (ok a) s f e = (a, refl, e)
  continue-ok (err x) s f e = cc (ap (λ (q : Fallible B × S). q.0) e)
  continue-ok panic s f e = cc (ap (λ (q : Fallible B × S). q.0) e)

  -- If a block returned, its first action did, and the rest did from there.
  pub bind-ok :
      (m : State S A) (f : A → State S B) (s : S) {b : B} {s' : S}
      → (m >>= f) s ≡ (ok b, s')
      → (a : A) × (mid : S) × (m s ≡ (ok a, mid)) × (f a mid ≡ (ok b, s'))
  bind-ok m f s e =
      let (a, r, rest) = continue-ok (m s).0 (m s).1 f e in
      (a, (m s).1, (λ i. (r i, (m s).1)), rest)

module _ {ℓ} {S : Type ℓ} {A : Type 0} where
  abbrev pub pure : A → State S A
  pure a s = (ok a, s)

  abbrev pub lift : Fallible A → State S A
  lift r s = (r, s)
