-- ===== src/Strings/Slices.antt =====
-- `&s[i..]` and `&s[..i]` of a `str`, which panic out of range and inside a character.
use tee_demo.Base.{
  ℕ, zero, suc, ◌+◌, ◌≤◌, ◌<◌, ◌≡◌, refl, ◌⊎◌, inl, inr, Bool, true, false, ◌&&◌, ◌||◌, Option,
  none, some, [], ◌∷◌, ◌++◌, arith, leb, ◌==◌, if◌then◌else◌, length, take, drop, Bool-cases,
  Outcome, ok, panic,
}
use mathlib.Core.Option
use tee_demo.Base.Bytes.{Text}
use tee_demo.Strings.Hex.{at_boundary}
use tee_demo.Strings.Search.{starts_with, find_text, find_char}

-- `s.is_char_boundary(i)`
abbrev is_char_boundary : ℕ → Text → Bool
is_char_boundary i s = i == 0 || (leb i (length s) && at_boundary (drop i s))

-- `&s[i..]`
unfoldable pub slice_from : {E : Type 0} → ℕ → Text → Outcome E Text
slice_from i s = if is_char_boundary i s then ok (drop i s) else panic

-- `&s[..i]`
unfoldable pub slice_to : {E : Type 0} → ℕ → Text → Outcome E Text
slice_to i s = if is_char_boundary i s then ok (take i s) else panic

pub slice_from-boundary :
    {E : Type 0} (i : ℕ) (s : Text)
    → i ≤ length s
    → at_boundary (drop i s) ≡ true
    → slice_from {E = E} i s ≡ ok (drop i s)
unfolding slice_from
slice_from-boundary i s h b = ground (arith, b)

pub slice_to-boundary :
    {E : Type 0} (i : ℕ) (s : Text)
    → i ≤ length s
    → (i ≡ 0) ⊎ (at_boundary (drop i s) ≡ true)
    → slice_to {E = E} i s ≡ ok (take i s)
unfolding slice_to
slice_to-boundary i s h (inl z) = rw z refl
slice_to-boundary i s h (inr b) = ground (arith, b)

-- Behind each ASCII character a character starts, or the text ends.
abbrev pub Steps : Text → Type 0
Steps [] = Unit
Steps (a ∷ s) = (a < 128 → at_boundary s ≡ true) × Steps s

pub Steps-drop : (n : ℕ) (s : Text) → Steps s → Steps (drop n s)
Steps-drop zero s h = h
Steps-drop (suc n) [] h = tt
Steps-drop (suc n) (a ∷ s) h = Steps-drop n s h.1

-- Behind a prefix whose last character is ASCII there is a boundary.
starts_with-boundary :
    (front s : Text) (c : ℕ)
    → c < 128
    → Steps s
    → starts_with s (front ++ c ∷ []) ≡ true
    → (length (front ++ c ∷ []) ≤ length s)
      × (at_boundary (drop (length (front ++ c ∷ [])) s) ≡ true)
unfolding starts_with
starts_with-boundary [] [] c h steps e = cc e
starts_with-boundary [] (a ∷ s) c h steps e =
    let same_char : a ≡ c = ground (arith, e) in
    (omega arith, steps.0 (omega (arith, same_char, h)))
starts_with-boundary (p ∷ front) [] c h steps e = cc e
starts_with-boundary (p ∷ front) (a ∷ s) c h steps e =
    let more : starts_with s (front ++ c ∷ []) ≡ true = ground (arith, e) in
    let (range, boundary) = starts_with-boundary front s c h steps.1 more in
    (omega (arith, range), boundary)

-- The index of a find behind the first character
next_index :
    (o : Option ℕ) (i : ℕ)
    → Option.map (λ j. j + 1) o ≡ some i
    → (j : ℕ) × (o ≡ some j) × (i ≡ j + 1)
next_index none i e = cc e
next_index (some j) i e = (j, refl, cc e)

-- Behind the needle that `find` found, if its last character is ASCII
pub find_text-boundary :
    (front s : Text) (c i : ℕ)
    → c < 128
    → Steps s
    → find_text s (front ++ c ∷ []) ≡ some i
    → (i + length (front ++ c ∷ []) ≤ length s)
      × (at_boundary (drop (i + length (front ++ c ∷ [])) s) ≡ true)
unfolding find_text
find_text-boundary front [] c i h steps e = elim (Bool-cases (starts_with [] (front ++ c ∷ []))) [
  | inl found ↦
      let at_zero : i ≡ 0 = ground (arith, e, found) in
      let index : i + length (front ++ c ∷ []) ≡ length (front ++ c ∷ []) =
        omega (arith, at_zero) in
      rw index (starts_with-boundary front [] c h steps found)
  | inr other ↦ ground (arith, e, other)
]
find_text-boundary front (a ∷ s) c i h steps e =
    elim (Bool-cases (starts_with (a ∷ s) (front ++ c ∷ []))) [
      | inl found ↦
          let at_zero : i ≡ 0 = ground (arith, e, found) in
          let index : i + length (front ++ c ∷ []) ≡ length (front ++ c ∷ []) =
            omega (arith, at_zero) in
          rw index (starts_with-boundary front (a ∷ s) c h steps found)
      | inr other ↦
          let (j, inner, next) = next_index (find_text s (front ++ c ∷ [])) i (rw other at e) in
          let (range, boundary) = find_text-boundary front s c j h steps.1 inner in
          let index : i + length (front ++ c ∷ []) ≡ suc (j + length (front ++ c ∷ [])) =
            omega (arith, next) in
          rw index (omega (arith, range), boundary)
    ]

-- Where `find` stopped, if the test holds for all but ASCII characters
pub find_char-boundary :
    (test : ℕ → Bool) (s : Text) (i : ℕ)
    → ((c : ℕ) → test c ≡ false → c < 128)
    → Steps s
    → find_char test s ≡ some i
    → (i ≤ length s) × ((i ≡ 0) ⊎ (at_boundary (drop i s) ≡ true))
unfolding find_char
find_char-boundary test [] i ascii steps e = cc e
find_char-boundary test (c ∷ s) i ascii steps e = elim (Bool-cases (test c)) [
  | inl found ↦
      let at_zero : i ≡ 0 = ground (arith, e, found) in (omega (arith, at_zero), inl at_zero)
  | inr other ↦
      let (j, inner, next) = next_index (find_char test s) i (rw other at e) in
      let (range, boundary) = find_char-boundary test s j ascii steps.1 inner in
      let index : i ≡ suc j = omega (arith, next) in
      rw index (
        omega (arith, range),
        inr (elim boundary [ inl z ↦ rw z (steps.0 (ascii c other)) | inr b ↦ b ]),
      )
]
