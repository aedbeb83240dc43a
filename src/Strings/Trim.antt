-- ===== src/Strings/Trim.antt =====
-- `str::trim`.
use tee_demo.Base.{
  ◌++◌, All, ℕ, zero, suc, ◌≤◌, ◌<◌, ◌≡◌, refl, sym, ap, ◌∙◌, [], ◌∷◌, arith, ◌==◌, if◌then◌else◌,
  length, drop,
}
use mathlib.Core.List.{reverse, reverse-append, reverse-reverse}
use tee_demo.Base.Bytes.{Text}
use tee_demo.Strings.Search.{one_byte, two_bytes, three_bytes, trim_start, trim_start-eq_self}

-- The length of the white space character that the reversed text starts with, or 0. In UTF-8 its
-- bytes stand for no other character, wherever they stand.
end_space_len : Text → ℕ
end_space_len [] = 0
end_space_len (a ∷ []) = if one_byte a then 1 else 0
end_space_len (a ∷ b ∷ []) = if one_byte a then 1 else if two_bytes b a then 2 else 0
end_space_len (a ∷ b ∷ c ∷ s) =
    if one_byte a then 1 else if two_bytes b a then 2 else if three_bytes c b a then 3 else 0

skip_end : ℕ → Text → Text
unfolding end_space_len
skip_end zero s = s
skip_end (suc fuel) s =
    let rest = skip_end fuel (drop (end_space_len s) s) in if end_space_len s == 0 then s else rest

-- Each round drops a byte at least.
unfoldable pub trim_end : Text → Text
unfolding skip_end
trim_end s = reverse (skip_end (length s) (reverse s))

unfoldable pub trim : Text → Text
unfolding trim_end
trim s = trim_end (trim_start s)

end_space_len-eq_zero : (c : ℕ) (s : Text) → 33 ≤ c → c < 128 → end_space_len (c ∷ s) ≡ 0
unfolding end_space_len
end_space_len-eq_zero c [] lo hi = ground arith
end_space_len-eq_zero c (a ∷ []) lo hi = ground arith
end_space_len-eq_zero c (a ∷ b ∷ s) lo hi = ground arith

skip_end-eq_self : (fuel c : ℕ) (s : Text) → 33 ≤ c → c < 128 → skip_end fuel (c ∷ s) ≡ c ∷ s
unfolding skip_end
skip_end-eq_self zero c s lo hi = refl
skip_end-eq_self (suc fuel) c s lo hi = rw (end_space_len-eq_zero c s lo hi) refl

-- A text that ends in a visible ASCII character is not trimmed at its end.
pub trim_end-eq_self :
    (s : Text) (c : ℕ) (r : Text) → reverse s ≡ c ∷ r → 33 ≤ c → c < 128 → trim_end s ≡ s
unfolding trim_end
trim_end-eq_self s c r e lo hi =
    ap (λ t. reverse (skip_end (length s) t)) e
    ∙ ap reverse (skip_end-eq_self (length s) c r lo hi ∙ sym e)
    ∙ reverse-reverse s

-- A visible ASCII character
abbrev pub IsVisible : ℕ → Type 0
IsVisible c = (33 ≤ c) × (c < 128)

-- A text of visible characters has one at its end.
last_char :
    (c : ℕ) (s : Text)
    → All IsVisible (c ∷ s)
    → (d : ℕ) × (r : Text) × (reverse (c ∷ s) ≡ d ∷ r) × IsVisible d
last_char c [] h = (c, [], refl, h.0)
last_char c (e ∷ s) h =
    let (d, r, eq, hd) = last_char e s h.1 in
    (d, r ++ c ∷ [], reverse-append (c ∷ []) (e ∷ s) ∙ ap (λ t. t ++ c ∷ []) eq, hd)

pub trim-eq_self : (s : Text) → All IsVisible s → trim s ≡ s
unfolding trim
trim-eq_self [] h = unfold trim_end trim_start in refl
trim-eq_self (c ∷ s) h =
    let (d, r, e, hd) = last_char c s h in
    ap trim_end (trim_start-eq_self c s h.0.0 h.0.1) ∙ trim_end-eq_self (c ∷ s) d r e hd.0 hd.1
