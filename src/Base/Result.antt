-- ===== src/Base/Result.antt =====
-- What a Rust call of type `Result<T, E>` can do: return `Ok`, return `Err`, or panic. The operator `?`
-- is the bind of a `do` block; it and `map_err` let a panic through.
use mathlib.Core.Path.{◌≡◌, refl, ap}
use mathlib.Core.Option.{Option, none, some}
use mathlib.Core.List.{List, ◌++◌}
use mathlib.Core.Bool.{Bool, true, false, ◌&&◌}
use Prim.Native.Nat.{ℕ, ◌+◌, ◌-◌, ◌≤◌}
use native.Mathlib.Omega.{arith}
use native.Mathlib.Decide.{dec_lt}
use tee_demo.Base.Tests.{ltb, leb, if◌then◌else◌, ltb-eq_true, ltb-eq_false}
use tee_demo.Base.Lists.{length, take, drop, take-append, drop-append, length-append}
use tee_demo.Base.Bytes.{Text}

pub data Outcome {ℓ κ} (E : Type ℓ) (A : Type κ) : Type (ℓ ⊔ κ) where
  ok : A → Outcome E A
  err : E → Outcome E A
  panic : Outcome E A

-- `Result<T, String>`
abbrev pub Fallible {ℓ} : Type ℓ → Type ℓ
Fallible A = Outcome Text A

infixl 5 ◌>>=◌ ◌>>◌
abbrev pub ◌>>=◌ {ℓ κ μ} :
    {E : Type ℓ} {A : Type κ} {B : Type μ} → Outcome E A → (A → Outcome E B) → Outcome E B
ok a >>= f = f a
err e >>= f = err e
panic >>= f = panic

abbrev pub ◌>>◌ {ℓ κ} : {E : Type ℓ} {B : Type κ} → Outcome E (Unit {0}) → Outcome E B → Outcome E B
m >> k = m >>= λ _. k

abbrev pub map_err {ℓ κ μ} :
    {E : Type ℓ} {F : Type κ} {A : Type μ} → (E → F) → Outcome E A → Outcome F A
map_err f (ok a) = ok a
map_err f (err e) = err (f e)
map_err f panic = panic

-- `ok_or(e)`
abbrev pub ok_or {ℓ κ} : {E : Type ℓ} {A : Type κ} → E → Option A → Outcome E A
ok_or e none = err e
ok_or e (some a) = ok a

-- `unwrap()` of an `Option`
abbrev pub unwrap {ℓ κ} : {E : Type ℓ} {A : Type κ} → Option A → Outcome E A
unwrap none = panic
unwrap (some a) = ok a

-- `unwrap_or(d)` of an `Option`
abbrev pub unwrap_or {ℓ} : {A : Type ℓ} → A → Option A → A
unwrap_or d none = d
unwrap_or d (some a) = a

pub ok-injective : {E A : Type 0} {a b : A} → ◌≡◌ {A = Outcome E A} (ok a) (ok b) → a ≡ b
ok-injective e = cc e

-- `&bytes[from..to]`
unfoldable pub slice : {E : Type 0} → ℕ → ℕ → List ℕ → Outcome E (List ℕ)
slice from to bytes =
    if leb from to && leb to (length bytes) then ok (take (to - from) (drop from bytes)) else panic

pub slice-in_range :
    {E : Type 0} (from to : ℕ) (bytes : List ℕ)
    → from ≤ to
    → to ≤ length bytes
    → slice {E = E} from to bytes ≡ ok (take (to - from) (drop from bytes))
unfolding slice
slice-in_range from to bytes a b = ground arith

pub slice-append :
    {E : Type 0} (from to : ℕ) (xs ys zs : List ℕ)
    → length xs ≡ from
    → from + length ys ≡ to
    → slice {E = E} from to (xs ++ (ys ++ zs)) ≡ ok ys
unfolding slice
slice-append from to xs ys zs a b =
    let width : to - from ≡ length ys = omega arith in
    rw (width, ← a, drop-append xs (ys ++ zs), take-append ys zs)
      (ground (arith, length-append xs (ys ++ zs), length-append ys zs))

-- A slice at the place where `ys` stands
pub slice-at :
    {E : Type 0} (bytes xs ys zs : List ℕ) (from to : ℕ)
    → bytes ≡ xs ++ (ys ++ zs)
    → length xs ≡ from
    → from + length ys ≡ to
    → slice {E = E} from to bytes ≡ ok ys
slice-at bytes xs ys zs from to e a b = rw e (slice-append from to xs ys zs a b)

-- The call returns: it does not panic.
abbrev pub Returns {ℓ κ} : {E : Type ℓ} {A : Type κ} → Outcome E A → Type 0
Returns (ok a) = Unit
Returns (err e) = Unit
Returns panic = ⊥

pub Returns-bind {ℓ κ μ} :
    {E : Type ℓ} {A : Type κ} {B : Type μ} (m : Outcome E A) (f : A → Outcome E B)
    → Returns m
    → ((a : A) → Returns (f a))
    → Returns (m >>= f)
Returns-bind (ok a) f h k = k a
Returns-bind (err e) f h k = tt
Returns-bind panic f h k = h

-- The same, for a continuation that returns on the call's results
pub Returns-bind_ok {ℓ κ} :
    {E : Type ℓ} {A : Type ℓ} {B : Type κ} (m : Outcome E A) (f : A → Outcome E B)
    → Returns m
    → ((a : A) → m ≡ ok a → Returns (f a))
    → Returns (m >>= f)
Returns-bind_ok (ok a) f h k = k a refl
Returns-bind_ok (err e) f h k = tt
Returns-bind_ok panic f h k = h

pub Returns-map_err {ℓ κ μ} :
    {E : Type ℓ} {F : Type κ} {A : Type μ} (f : E → F) (m : Outcome E A)
    → Returns m
    → Returns (map_err f m)
Returns-map_err f (ok a) h = tt
Returns-map_err f (err e) h = tt
Returns-map_err f panic h = h

pub Returns-ok_or {ℓ κ} : {E : Type ℓ} {A : Type κ} (e : E) (o : Option A) → Returns (ok_or e o)
Returns-ok_or e none = tt
Returns-ok_or e (some a) = tt

-- The branch behind a length test returns if it does where the test fails.
pub Returns-unless_short :
    {E A : Type 0} (a b : ℕ) (e : E) (m : Outcome E A)
    → (b ≤ a → Returns m)
    → Returns (if ltb a b then err e else m)
Returns-unless_short a b e m h = elim (dec_lt a b) [
  | yes p ↦ rw (ltb-eq_true a b p) tt
  | no p ↦ rw (ltb-eq_false a b p) (h (omega arith))
]

-- A slice in range, and what follows it
pub Returns-slice :
    {E A : Type 0} (from to : ℕ) (bytes : List ℕ) (f : List ℕ → Outcome E A)
    → from ≤ to
    → to ≤ length bytes
    → Returns (f (take (to - from) (drop from bytes)))
    → Returns (slice from to bytes >>= f)
Returns-slice {E} from to bytes f a b h = rw (slice-in_range {E = E} from to bytes a b) h

-- Taking apart a chain that returned `Ok`
pub >>=-ok {ℓ κ} :
    {E A : Type ℓ} {B : Type κ} (m : Outcome E A) (f : A → Outcome E B) {b : B}
    → (m >>= f) ≡ ok b
    → (a : A) × (m ≡ ok a) × (f a ≡ ok b)
>>=-ok (ok a) f e = (a, refl, e)
>>=-ok (err x) f e = cc e
>>=-ok panic f e = cc e

pub map_err-ok :
    {E F A : Type 0} (f : E → F) (m : Outcome E A) {a : A} → map_err f m ≡ ok a → m ≡ ok a
map_err-ok f (ok a) e = ap ok (ok-injective e)
map_err-ok f (err x) e = cc e
map_err-ok f panic e = cc e

pub ok_or-ok : {E A : Type 0} (e : E) (o : Option A) {a : A} → ok_or e o ≡ ok a → o ≡ some a
ok_or-ok e none h = cc
ok_or-ok e (some b) h = cc

-- `if !b { return Err(e); }`
abbrev pub require : Bool → Text → Fallible (Unit {0})
require true e = ok tt
require false e = err e

pub require-ok : (b : Bool) (e : Text) {u : Unit {0}} → require b e ≡ ok u → b ≡ true
require-ok true e h = refl
require-ok false e h = cc h
