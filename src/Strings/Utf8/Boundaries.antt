-- ===== src/Strings/Utf8/Boundaries.antt =====
-- Where the characters of a text start that `from_utf8` accepts.
use tee_demo.Base.{
  ℕ, zero, suc, ◌+◌, ◌≤◌, ◌<◌, ◌≡◌, refl, inl, inr, true, ◌&&◌, [], ◌∷◌, arith, length, length-drop,
  drop, Bool-cases, ltb, leb, ok, err, panic, ok-injective, Fallible,
}
use tee_demo.Base.Bytes.{Bytes, Text}
use tee_demo.Strings.Hex.{at_boundary}
use tee_demo.Strings.Slices.{Steps}
use tee_demo.Strings.Utf8.{
  Lead, scalar, invalid, incomplete, lead_two, lead_three, lead_four, lead, utf8_error, check_from,
  from_utf8,
}

-- A character starts here or the text ends, and so it does behind each ASCII character.
abbrev Whole : Bytes → Type 0
Whole s = (at_boundary s ≡ true) × Steps s

Whole-ascii : (a : ℕ) (r : Bytes) → a < 128 → Whole r → Whole (a ∷ r)
Whole-ascii a r h w = (ground arith, (λ k. w.0, w.1))

-- A byte of no ASCII character asks for nothing.
Steps-wide : (a : ℕ) (r : Bytes) → 128 ≤ a → Steps r → Steps (a ∷ r)
Steps-wide a r h s = (λ k. absurd (omega arith), s)

Whole-two :
    (r : Bytes) (n : ℕ) (a : ℕ)
    → 192 ≤ a
    → lead_two r ≡ scalar n
    → Whole (drop n (a ∷ r))
    → Whole (a ∷ r)
unfolding lead_two
Whole-two [] n a h e w = cc e
Whole-two (b ∷ r) n a h e w =
    let facts : (n ≡ 2) × (128 ≤ b) = ground (arith, e) in
    let rest : Whole r = rw facts.0 at w in
    (ground arith, Steps-wide a (b ∷ r) (omega arith) (Steps-wide b r facts.1 rest.1))

Whole-three :
    (r : Bytes) (n : ℕ) (a : ℕ)
    → 192 ≤ a
    → lead_three a r ≡ scalar n
    → Whole (drop n (a ∷ r))
    → Whole (a ∷ r)
unfolding lead_three
Whole-three [] n a h e w = cc e
Whole-three (b ∷ []) n a h e w = ground (arith, e)
Whole-three (b ∷ c ∷ r) n a h e w =
    let facts : (n ≡ 3) × (128 ≤ b) × (128 ≤ c) = ground (arith, e) in
    let rest : Whole r = rw facts.0 at w in
    (
      ground arith,
      Steps-wide a (b ∷ c ∷ r) (omega arith)
          (Steps-wide b (c ∷ r) facts.1 (Steps-wide c r facts.2 rest.1)),
    )

Whole-four :
    (r : Bytes) (n : ℕ) (a : ℕ)
    → 192 ≤ a
    → lead_four a r ≡ scalar n
    → Whole (drop n (a ∷ r))
    → Whole (a ∷ r)
unfolding lead_four
Whole-four [] n a h e w = cc e
Whole-four (b ∷ []) n a h e w = ground (arith, e)
Whole-four (b ∷ c ∷ []) n a h e w = ground (arith, e)
Whole-four (b ∷ c ∷ d ∷ r) n a h e w =
    let facts : (n ≡ 4) × (128 ≤ b) × (128 ≤ c) × (128 ≤ d) = ground (arith, e) in
    let rest : Whole r = rw facts.0 at w in
    (
      ground arith,
      Steps-wide a (b ∷ c ∷ d ∷ r) (omega arith) (
          Steps-wide b (c ∷ d ∷ r) facts.1
            (Steps-wide c (d ∷ r) facts.2 (Steps-wide d r facts.3 rest.1))),
    )

Whole-lead :
    (a : ℕ) (r : Bytes) (n : ℕ) → lead a r ≡ scalar n → Whole (drop n (a ∷ r)) → Whole (a ∷ r)
unfolding lead
Whole-lead a r n e w = elim (Bool-cases (ltb a 0x80)) [
  | inl ascii ↦
      let one : n ≡ 1 = cc (rw ascii at e) in
      let small : a < 128 = ground (arith, ascii) in Whole-ascii a r small (rw one at w)
  | inr wide ↦ elim (Bool-cases (leb 0xc2 a && leb a 0xdf)) [
    | inl two ↦ Whole-two r n a (ground (arith, two)) (rw (wide, two) at e) w
    | inr more ↦ elim (Bool-cases (leb 0xe0 a && leb a 0xef)) [
      | inl three ↦ Whole-three r n a (ground (arith, three)) (rw (wide, more, three) at e) w
      | inr last ↦ elim (Bool-cases (leb 0xf0 a && leb a 0xf4)) [
        | inl four ↦ Whole-four r n a (ground (arith, four)) (rw (wide, more, last, four) at e) w
        | inr none_fits ↦ cc (rw (wide, more, last, none_fits) at e)
      ]
    ]
  ]
]

-- A check that went on found a character.
scalar_of :
    (fuel at : ℕ) (bytes : Bytes) (l : Lead) (u : Unit {0})
    → elim l [
      | scalar n ↦ check_from fuel (at + n) (drop n bytes)
      | invalid n ↦ err (utf8_error (invalid n) at)
      | incomplete ↦ err (utf8_error incomplete at)
    ]
      ≡ ok u
    → (n : ℕ) × (l ≡ scalar n) × (check_from fuel (at + n) (drop n bytes) ≡ ok u)
scalar_of fuel at bytes (scalar n) u e = (n, refl, e)
scalar_of fuel at bytes (invalid n) u e = cc e
scalar_of fuel at bytes incomplete u e = cc e

-- A character has a byte at least, so that the fuel lasts: the fuel counts the bytes.
two_long : (r : Bytes) (n : ℕ) → lead_two r ≡ scalar n → 1 ≤ n
unfolding lead_two
two_long [] n e = cc e
two_long (b ∷ r) n e = ground (arith, e)

three_long : (a : ℕ) (r : Bytes) (n : ℕ) → lead_three a r ≡ scalar n → 1 ≤ n
unfolding lead_three
three_long a [] n e = cc e
three_long a (b ∷ []) n e = ground (arith, e)
three_long a (b ∷ c ∷ r) n e = let is : n ≡ 3 = ground (arith, e) in omega (arith, is)

four_long : (a : ℕ) (r : Bytes) (n : ℕ) → lead_four a r ≡ scalar n → 1 ≤ n
unfolding lead_four
four_long a [] n e = cc e
four_long a (b ∷ []) n e = ground (arith, e)
four_long a (b ∷ c ∷ []) n e = ground (arith, e)
four_long a (b ∷ c ∷ d ∷ r) n e = let is : n ≡ 4 = ground (arith, e) in omega (arith, is)

lead_long : (a : ℕ) (r : Bytes) (n : ℕ) → lead a r ≡ scalar n → 1 ≤ n
unfolding lead
lead_long a r n e = elim (Bool-cases (ltb a 0x80)) [
  | inl ascii ↦ let one : n ≡ 1 = cc (rw ascii at e) in omega (arith, one)
  | inr wide ↦ elim (Bool-cases (leb 0xc2 a && leb a 0xdf)) [
    | inl two ↦ two_long r n (rw (wide, two) at e)
    | inr more ↦ elim (Bool-cases (leb 0xe0 a && leb a 0xef)) [
      | inl three ↦ three_long a r n (rw (wide, more, three) at e)
      | inr last ↦ elim (Bool-cases (leb 0xf0 a && leb a 0xf4)) [
        | inl four ↦ four_long a r n (rw (wide, more, last, four) at e)
        | inr none_fits ↦ cc (rw (wide, more, last, none_fits) at e)
      ]
    ]
  ]
]

check_from-Whole :
    (fuel at : ℕ) (bytes : Bytes) (u : Unit {0})
    → length bytes ≤ fuel
    → check_from fuel at bytes ≡ ok u
    → Whole bytes
unfolding check_from
check_from-Whole zero at [] u h e = (refl, tt)
check_from-Whole zero at (a ∷ r) u h e = absurd (omega arith)
check_from-Whole (suc fuel) at [] u h e = (refl, tt)
check_from-Whole (suc fuel) at (a ∷ r) u h e =
    let (n, first, later) = scalar_of fuel at (a ∷ r) (lead a r) u e in
    let shorter : length (drop n (a ∷ r)) ≤ fuel =
      omega (arith, h, length-drop n (a ∷ r), lead_long a r n first) in
    Whole-lead a r n first (check_from-Whole fuel (at + n) (drop n (a ∷ r)) u shorter later)

checked :
    (bytes s : Bytes) (m : Fallible (Unit {0}))
    → ◌≡◌ {A = Fallible Text} (elim m [ ok u ↦ ok bytes | err e ↦ err e | panic ↦ panic ]) (ok s)
    → (u : Unit {0}) × (m ≡ ok u) × (bytes ≡ s)
checked bytes s (ok u) e = (u, refl, ok-injective e)
checked bytes s (err x) e = cc e
checked bytes s panic e = cc e

pub from_utf8-Steps : (bytes s : Bytes) → from_utf8 bytes ≡ ok s → Steps s
unfolding from_utf8
from_utf8-Steps bytes s e =
    let (u, passed, same_bytes) = checked bytes s (check_from (length bytes) 0 bytes) e in
    rw same_bytes at (check_from-Whole (length bytes) 0 bytes u (omega arith) passed).1
