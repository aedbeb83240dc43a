-- ===== src/Strings/Utf8.antt =====
-- `core::str::from_utf8`, with the text of its error.
pub mod Boundaries
use tee_demo.Base.{
  ℕ, zero, suc, ◌+◌, ◌<◌, ◌≡◌, refl, Bool, ◌&&◌, ◌||◌, [], ◌∷◌, ◌++◌, arith, ltb, leb, ◌==◌,
  if◌then◌else◌, length, drop, All, Fallible, Returns, ok, err, panic,
}
use tee_demo.Base.Bytes.{Bytes, Text, text}
use tee_demo.Strings.Decimal.{show_nat}

-- The first character of a byte sequence: its length, the length of an invalid one, or the
-- sequence ends inside it.
pub data Lead : Type 0 where
  scalar : ℕ → Lead
  invalid : ℕ → Lead
  incomplete : Lead

abbrev is_continuation : ℕ → Bool
is_continuation b = leb 0x80 b && leb b 0xbf

abbrev second_of_three : ℕ → ℕ → Bool
second_of_three a b =
    (a == 0xe0 && leb 0xa0 b && leb b 0xbf)
    || ((leb 0xe1 a && leb a 0xec && is_continuation b)
        || ((a == 0xed && leb 0x80 b && leb b 0x9f)
            || (leb 0xee a && leb a 0xef && is_continuation b)))

abbrev second_of_four : ℕ → ℕ → Bool
second_of_four a b =
    (a == 0xf0 && leb 0x90 b && leb b 0xbf)
    || ((leb 0xf1 a && leb a 0xf3 && is_continuation b) || (a == 0xf4 && leb 0x80 b && leb b 0x8f))

lead_two : Bytes → Lead
lead_two [] = incomplete
lead_two (b ∷ r) = if is_continuation b then scalar 2 else invalid 1

lead_three : ℕ → Bytes → Lead
lead_three a [] = incomplete
lead_three a (b ∷ []) = if second_of_three a b then incomplete else invalid 1
lead_three a (b ∷ c ∷ r) =
    if second_of_three a b then (if is_continuation c then scalar 3 else invalid 2) else invalid 1

lead_four : ℕ → Bytes → Lead
lead_four a [] = incomplete
lead_four a (b ∷ []) = if second_of_four a b then incomplete else invalid 1
lead_four a (b ∷ c ∷ []) =
    if second_of_four a b then (if is_continuation c then incomplete else invalid 2) else invalid 1
lead_four a (b ∷ c ∷ d ∷ r) =
    if second_of_four a b
    then (if is_continuation c
        then (if is_continuation d then scalar 4 else invalid 3)
        else invalid 2)
    else invalid 1

lead : ℕ → Bytes → Lead
unfolding lead_two lead_three lead_four
lead a r =
    if ltb a 0x80
    then scalar 1
    else if leb 0xc2 a && leb a 0xdf
    then lead_two r
    else if leb 0xe0 a && leb a 0xef
    then lead_three a r
    else if leb 0xf0 a && leb a 0xf4
    then lead_four a r
    else invalid 1

utf8_error : Lead → ℕ → Text
utf8_error (scalar n) at = []
utf8_error (invalid n) at =
    text "invalid utf-8 sequence of " ++ (show_nat n ++ (text " bytes from index " ++ show_nat at))
utf8_error incomplete at = text "incomplete utf-8 byte sequence from index " ++ show_nat at

-- Each round takes a character, so `length bytes` rounds are enough.
check_from : ℕ → ℕ → Bytes → Fallible (Unit {0})
unfolding utf8_error lead
check_from zero at bytes = ok tt
check_from (suc fuel) at [] = ok tt
check_from (suc fuel) at (a ∷ r) = elim (lead a r) [
  | scalar n ↦ check_from fuel (at + n) (drop n (a ∷ r))
  | invalid n ↦ err (utf8_error (invalid n) at)
  | incomplete ↦ err (utf8_error incomplete at)
]

unfoldable pub from_utf8 : Bytes → Fallible Text
unfolding check_from
from_utf8 bytes = elim (check_from (length bytes) 0 bytes) [
  | ok u ↦ ok bytes
  | err e ↦ err e
  | panic ↦ panic
]

check_from-ascii :
    (bytes : Bytes) (at : ℕ) → All (λ b. b < 128) bytes → check_from (length bytes) at bytes ≡ ok tt
unfolding check_from lead
check_from-ascii [] at h = refl
check_from-ascii (a ∷ r) at h = ground (arith, check_from-ascii r (at + 1))

-- An ASCII byte sequence is a text.
pub from_utf8-ascii : (bytes : Bytes) → All (λ b. b < 128) bytes → from_utf8 bytes ≡ ok bytes
unfolding from_utf8
from_utf8-ascii bytes h = rw (check_from-ascii bytes 0 h, from_utf8)

from_utf8_cut :
    from_utf8 (b'a' ∷ 0xe2 ∷ 0x82 ∷ []) ≡ err (text "incomplete utf-8 byte sequence from index 1")
unfolding from_utf8 show_nat
from_utf8_cut = refl

lead_Returns :
    (fuel at : ℕ) (bytes : Bytes) (l : Lead)
    → ((n : ℕ) → Returns (check_from fuel (at + n) (drop n bytes)))
    → Returns (elim l [
      | scalar n ↦ check_from fuel (at + n) (drop n bytes)
      | invalid n ↦ err (utf8_error (invalid n) at)
      | incomplete ↦ err (utf8_error incomplete at)
    ])
lead_Returns fuel at bytes (scalar n) h = h n
lead_Returns fuel at bytes (invalid n) h = tt
lead_Returns fuel at bytes incomplete h = tt

checked_Returns :
    (bytes : Bytes) (m : Fallible (Unit {0}))
    → Returns m
    → Returns {E = Text} {A = Text} (elim m [ ok u ↦ ok bytes | err e ↦ err e | panic ↦ panic ])
checked_Returns bytes (ok u) h = tt
checked_Returns bytes (err e) h = tt
checked_Returns bytes panic h = h

check_from-Returns : (fuel at : ℕ) (bytes : Bytes) → Returns (check_from fuel at bytes)
unfolding check_from
check_from-Returns zero at bytes = tt
check_from-Returns (suc fuel) at [] = tt
check_from-Returns (suc fuel) at (a ∷ r) =
    lead_Returns fuel at (a ∷ r) (lead a r) λ n. check_from-Returns fuel (at + n) (drop n (a ∷ r))

pub from_utf8-Returns : (bytes : Bytes) → Returns (from_utf8 bytes)
unfolding from_utf8
from_utf8-Returns bytes =
    checked_Returns bytes (check_from (length bytes) 0 bytes)
      (check_from-Returns (length bytes) 0 bytes)
