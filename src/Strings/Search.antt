-- ===== src/Strings/Search.antt =====
-- Searching a text: `find`, `starts_with`, `ends_with`, `contains`, `trim_start`, `to_lowercase`.
use tee_demo.Base.{
  ℕ, zero, suc, ◌+◌, ◌-◌, ◌≤◌, ◌<◌, ◌≡◌, refl, ap, ◌≢◌, Bool, true, false, ◌&&◌, ◌||◌, Option, none,
  some, [], ◌∷◌, ◌++◌, arith, leb, ◌==◌, if◌then◌else◌, same, length, drop, drop-drop, inl, inr,
  Bool-cases, ◌∙◌, All, map,
}
use tee_demo.Base.Bytes.{Text}
use mathlib.Core.Option

-- `s.starts_with(prefix)`
unfoldable pub starts_with : Text → Text → Bool
starts_with s [] = true
starts_with [] (p ∷ ps) = false
starts_with (c ∷ s) (p ∷ ps) = c == p && starts_with s ps

-- `s.ends_with(suffix)`
unfoldable pub ends_with : Text → Text → Bool
ends_with s p = leb (length p) (length s) && same (drop (length s - length p) s) p

-- `s.find(needle)`: the index of the first occurrence
unfoldable pub find_text : Text → Text → Option ℕ
unfolding starts_with
find_text [] needle = if starts_with [] needle then some 0 else none
find_text (c ∷ s) needle =
    if starts_with (c ∷ s) needle then some 0 else Option.map (λ i. i + 1) (find_text s needle)

-- `s.contains(needle)`
unfoldable pub contains : Text → Text → Bool
unfolding find_text
contains s needle = elim (find_text s needle) [ none ↦ false | some i ↦ true ]

-- `s.find(|c| test(c))`, for a test that tells ASCII characters only
unfoldable pub find_char : (ℕ → Bool) → Text → Option ℕ
find_char test [] = none
find_char test (c ∷ s) = if test c then some 0 else Option.map (λ i. i + 1) (find_char test s)

abbrev pub two_bytes : ℕ → ℕ → Bool
two_bytes a b = a == 0xc2 && (b == 0x85 || b == 0xa0)

abbrev pub three_bytes : ℕ → ℕ → ℕ → Bool
three_bytes a b c =
    (a == 0xe1 && b == 0x9a && c == 0x80)
    || ((a == 0xe2
          && b == 0x80
          && ((leb 0x80 c && leb c 0x8a) || c == 0xa8 || c == 0xa9 || c == 0xaf))
        || ((a == 0xe2 && b == 0x81 && c == 0x9f) || (a == 0xe3 && b == 0x80 && c == 0x80)))

abbrev pub one_byte : ℕ → Bool
one_byte a = a == 32 || (leb 9 a && leb a 13)

-- The length of the white space character (Unicode's White_Space) that a text starts with, or 0.
space_len : Text → ℕ
space_len [] = 0
space_len (a ∷ []) = if one_byte a then 1 else 0
space_len (a ∷ b ∷ []) = if one_byte a then 1 else if two_bytes a b then 2 else 0
space_len (a ∷ b ∷ c ∷ s) =
    if one_byte a then 1 else if two_bytes a b then 2 else if three_bytes a b c then 3 else 0

skip_spaces : ℕ → Text → Text
unfolding space_len
skip_spaces zero s = s
skip_spaces (suc fuel) s =
    let rest = skip_spaces fuel (drop (space_len s) s) in if space_len s == 0 then s else rest

-- `s.trim_start()`: each round drops a byte at least
unfoldable pub trim_start : Text → Text
unfolding skip_spaces
trim_start s = skip_spaces (length s) s

-- `to_lowercase` of an ASCII text
unfoldable pub to_lowercase : Text → Text
to_lowercase = map (λ c. if leb b'A' c && leb c b'Z' then c + 32 else c)

skip_spaces-tail : (fuel : ℕ) (s : Text) → (n : ℕ) × (skip_spaces fuel s ≡ drop n s)
unfolding skip_spaces
skip_spaces-tail zero s = (0, refl)
skip_spaces-tail (suc fuel) s = elim (Bool-cases (space_len s == 0)) [
  | inl done ↦ (0, rw done refl)
  | inr more ↦
      let (n, e) = skip_spaces-tail fuel (drop (space_len s) s) in
      (space_len s + n, rw more (e ∙ drop-drop (space_len s) n s))
]

space_len-eq_zero : (c : ℕ) (s : Text) → 33 ≤ c → c < 128 → space_len (c ∷ s) ≡ 0
unfolding space_len
space_len-eq_zero c [] lo hi = ground arith
space_len-eq_zero c (a ∷ []) lo hi = ground arith
space_len-eq_zero c (a ∷ b ∷ s) lo hi = ground arith

-- A text that starts with a visible ASCII character is not trimmed.
pub trim_start-eq_self : (c : ℕ) (s : Text) → 33 ≤ c → c < 128 → trim_start (c ∷ s) ≡ c ∷ s
unfolding trim_start skip_spaces
trim_start-eq_self c s lo hi = rw (space_len-eq_zero c s lo hi) refl

-- Trimming leaves a tail of the text.
pub trim_start-tail : (s : Text) → (n : ℕ) × (trim_start s ≡ drop n s)
unfolding trim_start
trim_start-tail s = skip_spaces-tail (length s) s

-- A text without the needle's first character is skipped.
pub find_text-append :
    (n : ℕ) (needle xs ys : Text) (i : ℕ)
    → All (λ c. c ≢ n) xs
    → find_text ys (n ∷ needle) ≡ some i
    → find_text (xs ++ ys) (n ∷ needle) ≡ some (length xs + i)
unfolding find_text starts_with
find_text-append n needle [] ys i h e = rw e (ap some (omega arith))
find_text-append n needle (x ∷ xs) ys i h e =
    ground (arith, h.0, find_text-append n needle xs ys i h.1 e)

-- A text that passes no test is skipped.
pub find_char-append :
    (test : ℕ → Bool) (xs ys : Text) (c : ℕ)
    → All (λ x. test x ≡ false) xs
    → test c ≡ true
    → find_char test (xs ++ c ∷ ys) ≡ some (length xs)
unfolding find_char
find_char-append test [] ys c h e = rw e
find_char-append test (x ∷ xs) ys c h e =
    rw (h.0, find_char-append test xs ys c h.1 e) (ap some (omega arith))
