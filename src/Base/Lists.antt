-- ===== src/Base/Lists.antt =====
-- Lists measured and cut by native numbers, under the library's names.
use Prim.Native.Nat.{ℕ, zero, suc, ◌+◌, ◌-◌, ◌≤◌}
use mathlib.Core.Path.{◌≡◌, refl, sym, ap, ◌∙◌, subst}
use mathlib.Core.List.{List, [], ◌∷◌, ◌++◌, append-nil, append_assoc, append_cancel_right}
use mathlib.Core.Bool.{Bool}
use mathlib.Core.Option.{Option, none, some}
use native.Mathlib.Omega.{arith}
use tee_demo.Base.Tests.{if◌then◌else◌}

module _ {ℓ} {A : Type ℓ} where
  abbrev pub length : List A → ℕ
  length [] = 0
  length (x ∷ xs) = suc (length xs)

  abbrev pub take : ℕ → List A → List A
  take zero xs = []
  take (suc n) [] = []
  take (suc n) (x ∷ xs) = x ∷ take n xs

  abbrev pub drop : ℕ → List A → List A
  drop zero xs = xs
  drop (suc n) [] = []
  drop (suc n) (x ∷ xs) = drop n xs

  abbrev pub replicate : ℕ → A → List A
  replicate zero a = []
  replicate (suc n) a = a ∷ replicate n a

  -- `iter().find(test)`
  unfoldable pub find : (A → Bool) → List A → Option A
  find test [] = none
  find test (x ∷ xs) = if test x then some x else find test xs

  -- `last()`
  unfoldable pub last : List A → Option A
  last [] = none
  last (x ∷ []) = some x
  last (x ∷ y ∷ xs) = last (y ∷ xs)

  pub length-append : (xs ys : List A) → length (xs ++ ys) ≡ length xs + length ys
  length-append [] ys = omega arith
  length-append (x ∷ xs) ys = omega (arith, length-append xs ys)

  pub length-replicate : (n : ℕ) (a : A) → length (replicate n a) ≡ n
  length-replicate zero a = refl
  length-replicate (suc n) a = ap suc (length-replicate n a)

  pub length-take : (n : ℕ) (xs : List A) → n ≤ length xs → length (take n xs) ≡ n
  length-take zero xs h = refl
  length-take (suc n) [] h = elim h [ ]
  length-take (suc n) (x ∷ xs) h = ap suc (length-take n xs (omega arith))

  pub length-drop : (n : ℕ) (xs : List A) → length (drop n xs) ≡ length xs - n
  length-drop zero xs = omega arith
  length-drop (suc n) [] = omega arith
  length-drop (suc n) (x ∷ xs) = omega (arith, length-drop n xs)

  pub take-append : (xs ys : List A) → take (length xs) (xs ++ ys) ≡ xs
  take-append [] ys = refl
  take-append (x ∷ xs) ys = ap (λ t. x ∷ t) (take-append xs ys)

  pub drop-append : (xs ys : List A) → drop (length xs) (xs ++ ys) ≡ ys
  drop-append [] ys = refl
  drop-append (x ∷ xs) ys = drop-append xs ys

  pub take-length : (xs : List A) → take (length xs) xs ≡ xs
  take-length [] = refl
  take-length (x ∷ xs) = ap (λ t. x ∷ t) (take-length xs)

  pub take-append_le : (n : ℕ) (xs ys : List A) → n ≤ length xs → take n (xs ++ ys) ≡ take n xs
  take-append_le zero xs ys h = refl
  take-append_le (suc n) [] ys h = elim h [ ]
  take-append_le (suc n) (x ∷ xs) ys h = ap (λ t. x ∷ t) (take-append_le n xs ys (omega arith))

  drop-nil : (n : ℕ) → drop n [] ≡ []
  drop-nil zero = refl
  drop-nil (suc n) = refl

  pub drop-drop : (m n : ℕ) (xs : List A) → drop n (drop m xs) ≡ drop (m + n) xs
  drop-drop zero n xs = ap (λ t. drop t xs) (omega arith)
  drop-drop (suc m) n [] = drop-nil n ∙ sym (drop-nil (suc m + n))
  drop-drop (suc m) n (x ∷ xs) =
      let index : suc (m + n) ≡ suc m + n = omega arith in
      drop-drop m n xs ∙ ap (λ (t : ℕ). drop t (x ∷ xs)) index

  -- `concat` of texts and byte sequences, as `format!` and `extend_from_slice` build them
  abbrev pub concat : List (List A) → List A
  concat [] = []
  concat (x ∷ []) = x
  concat (x ∷ y ∷ r) = x ++ concat (y ∷ r)

  pub append-cancel :
      (xs ys as_ bs : List A)
      → length xs ≡ length ys
      → xs ++ as_ ≡ ys ++ bs
      → (xs ≡ ys) × (as_ ≡ bs)
  append-cancel [] [] as_ bs h e = (refl, e)
  append-cancel [] (y ∷ ys) as_ bs h e = absurd (omega arith)
  append-cancel (x ∷ xs) [] as_ bs h e = absurd (omega arith)
  append-cancel (x ∷ xs) (y ∷ ys) as_ bs h e = ground (arith, append-cancel xs ys as_ bs)

-- Every element has the property.
abbrev pub All {ℓ κ} : {A : Type ℓ} → (A → Type κ) → List A → Type κ
All P [] = Unit
All P (x ∷ xs) = P x × All P xs

pub All-append {ℓ κ} :
    {A : Type ℓ} (P : A → Type κ) (xs ys : List A) → All P xs → All P ys → All P (xs ++ ys)
All-append P [] ys hx hy = hy
All-append P (x ∷ xs) ys hx hy = (hx.0, All-append P xs ys hx.1 hy)

pub All-map {ℓ κ μ} :
    {A : Type ℓ} {P : A → Type κ} {Q : A → Type μ} (f : (a : A) → P a → Q a) (xs : List A)
    → All P xs
    → All Q xs
All-map f [] h = tt
All-map f (x ∷ xs) h = (f x h.0, All-map f xs h.1)

-- What follows a prefix of the given length
pub drop-prefix {ℓ} : {A : Type ℓ} (n : ℕ) (xs ys : List A) → length xs ≡ n → drop n (xs ++ ys) ≡ ys
drop-prefix n xs ys e = subst (λ m. drop m (xs ++ ys) ≡ ys) e (drop-append xs ys)

-- Appending one element after the other
module _ {ℓ} {A : Type ℓ} where
  abbrev pub append_each : List A → List A → List A
  append_each xs [] = xs
  append_each xs (y ∷ ys) = append_each (xs ++ y ∷ []) ys

  pub append_each-eq-append : (xs ys : List A) → append_each xs ys ≡ xs ++ ys
  append_each-eq-append xs [] = sym (append-nil xs)
  append_each-eq-append xs (y ∷ ys) =
      append_each-eq-append (xs ++ y ∷ []) ys ∙ append_assoc xs (y ∷ []) ys

module _ {ℓ} {A : Type ℓ} where
  pub last-append : (xs : List A) (x : A) → last (xs ++ x ∷ []) ≡ some x
  unfolding last
  last-append [] x = refl
  last-append (y ∷ []) x = refl
  last-append (y ∷ z ∷ xs) x = last-append (z ∷ xs) x

  -- Two lists that are equal end alike.
  pub same_last : (xs ys : List A) (x y : A) → xs ++ x ∷ [] ≡ ys ++ y ∷ [] → x ≡ y
  same_last xs ys x y e = cc (last-append xs x, ap last e, last-append ys y)

  pub same_last_two :
      (xs ys : List A) (a x b y : A) → xs ++ a ∷ (x ∷ []) ≡ ys ++ b ∷ (y ∷ []) → (a ≡ b) × (x ≡ y)
  same_last_two xs ys a x b y e =
      let e' : (xs ++ a ∷ []) ++ x ∷ [] ≡ (ys ++ b ∷ []) ++ y ∷ [] =
        append_assoc xs (a ∷ []) (x ∷ []) ∙ e ∙ sym (append_assoc ys (b ∷ []) (y ∷ [])) in
      let same_x : x ≡ y = same_last (xs ++ a ∷ []) (ys ++ b ∷ []) x y e' in
      (
        same_last xs ys a b (
            append_cancel_right (xs ++ a ∷ []) (ys ++ b ∷ []) (x ∷ [])
              (e' ∙ ap (λ z. (ys ++ b ∷ []) ++ z ∷ []) (sym same_x))),
        same_x,
      )
