-- ===== src/Base/Tests.antt =====
-- Boolean tests on native numbers and byte sequences, and the conditional.
use Prim.Native.Nat.{ℕ, ◌<◌, compare, Ordering}
use mathlib.Core.Path.{◌≡◌, refl}
use mathlib.Core.Logic.{◌⊎◌, inl, inr}
use mathlib.Core.Bool.{Bool, true, false, ◌&&◌}
use mathlib.Core.Option.{Option, none, some}
use mathlib.Core.List.{List, [], ◌∷◌}
use native.Mathlib.Omega.{arith}

abbrev pub ltb : ℕ → ℕ → Bool
ltb a b = elim (compare a b) [ Ordering.lt ↦ true | _ ↦ false ]

abbrev pub leb : ℕ → ℕ → Bool
leb a b = elim (compare a b) [ Ordering.gt ↦ false | _ ↦ true ]

infix 50 ◌==◌
abbrev pub ◌==◌ : ℕ → ℕ → Bool
a == b = elim (compare a b) [ Ordering.eq ↦ true | _ ↦ false ]

infix 1 if◌then◌else◌
abbrev pub if◌then◌else◌ {ℓ} : {A : Type ℓ} → Bool → A → A → A
if true then x else y = x
if false then x else y = y

pub Bool-cases : (b : Bool) → (b ≡ true) ⊎ (b ≡ false)
Bool-cases true = inl refl
Bool-cases false = inr refl

pub Option-cases {ℓ} : {A : Type ℓ} (o : Option A) → (o ≡ none) ⊎ ((a : A) × (o ≡ some a))
Option-cases none = inl refl
Option-cases (some a) = inr (a, refl)

pub ==_refl : (a : ℕ) → (a == a) ≡ true
==_refl a = ground arith

-- `==` of two byte sequences, also of two texts
unfoldable pub same : List ℕ → List ℕ → Bool
same [] [] = true
same (a ∷ as_) (b ∷ bs) = a == b && same as_ bs
same _ _ = false

pub same_refl : (a : List ℕ) → same a a ≡ true
unfolding same
same_refl [] = refl
same_refl (a ∷ r) = ground (arith, same_refl r)

pub same_sound : (a b : List ℕ) → same a b ≡ true → a ≡ b
unfolding same
same_sound [] [] h = refl
same_sound [] (b ∷ bs) h = cc
same_sound (a ∷ r) [] h = cc
same_sound (a ∷ r) (b ∷ bs) h = ground (arith, same_sound r bs)

-- `==` of two `Option<u64>`
unfoldable pub same_option : Option ℕ → Option ℕ → Bool
same_option none none = true
same_option (some a) (some b) = a == b
same_option _ _ = false

pub same_option_refl : (a : Option ℕ) → same_option a a ≡ true
unfolding same_option
same_option_refl none = refl
same_option_refl (some a) = ==_refl a

pub same_option_sound : (a b : Option ℕ) → same_option a b ≡ true → a ≡ b
unfolding same_option
same_option_sound none none h = refl
same_option_sound none (some b) h = cc
same_option_sound (some a) none h = cc
same_option_sound (some a) (some b) h = ground arith

-- `o == Some(true)` of an `Option<bool>`
unfoldable pub is_true : Option Bool → Bool
is_true (some true) = true
is_true _ = false

pub ltb-eq_false : (a b : ℕ) → ¬ (a < b) → ltb a b ≡ false
ltb-eq_false a b h = ground arith

pub ltb-eq_true : (a b : ℕ) → a < b → ltb a b ≡ true
ltb-eq_true a b h = ground arith
