-- ===== src/Strings/Hex.antt =====
-- Hexadecimal text: `{:02x}` of bytes, `u8::from_str_radix(_, 16)`, and the slices of a `str`.
use tee_demo.Base.{
  ℕ, ◌+◌, ◌-◌, ◌*◌, ◌/◌, ◌%◌, ◌≤◌, ◌<◌, ◌≡◌, refl, ap, Bool, true, false, ◌&&◌, ◌||◌, Option, none,
  some, [], ◌∷◌, arith, ltb, leb, ◌==◌, if◌then◌else◌, length, All,
}
use tee_demo.Base.Bytes.{Bytes, Text, IsByte}

abbrev pub hex_digit : ℕ → ℕ
hex_digit d = if ltb d 10 then 48 + d else 87 + d

-- `bytes.iter().map(|b| format!("{b:02x}")).collect()`
unfoldable pub hex_encode : Bytes → Text
hex_encode [] = []
hex_encode (b ∷ bs) = hex_digit (b / 16) ∷ hex_digit (b % 16) ∷ hex_encode bs

-- `char::to_digit(16)`
abbrev pub to_digit : ℕ → Option ℕ
to_digit c =
    if leb b'0' c && leb c b'9'
    then some (c - 48)
    else if leb b'a' c && leb c b'f'
    then some (c - 87)
    else if leb b'A' c && leb c b'F'
    then some (c - 55)
    else none

abbrev pub two_digits : Option ℕ → Option ℕ → Option ℕ
two_digits (some h) (some l) = some (h * 16 + l)
two_digits _ _ = none

-- `u8::from_str_radix` of a text of two bytes: a plus sign may stand before the digits.
unfoldable pub from_str_radix : ℕ → ℕ → Option ℕ
from_str_radix a b = if a == b'+' then to_digit b else two_digits (to_digit a) (to_digit b)

-- `is_char_boundary` in front of a text: no continuation byte follows.
abbrev pub at_boundary : Text → Bool
at_boundary [] = true
at_boundary (c ∷ s) = ltb c 0x80 || leb 0xc0 c

pub digit_read : (d : ℕ) → d < 16 → to_digit (hex_digit d) ≡ some d
digit_read d h = ground arith

digit_range : (d : ℕ) → d < 16 → (48 ≤ hex_digit d) × (hex_digit d < 103)
digit_range d h = ground arith

-- A visible ASCII character that is no plus sign
abbrev pub IsHexChar : ℕ → Type 0
IsHexChar c = (48 ≤ c) × (c < 103)

pub hex_encode-All : (bs : Bytes) → All IsByte bs → All IsHexChar (hex_encode bs)
unfolding hex_encode
hex_encode-All [] h = tt
hex_encode-All (b ∷ bs) h = (
  digit_range (b / 16) (omega (arith, h.0)),
  (digit_range (b % 16) (omega arith), hex_encode-All bs h.1),
)

pub length-hex_encode : (bs : Bytes) → length (hex_encode bs) ≡ 2 * length bs
unfolding hex_encode
length-hex_encode [] = refl
length-hex_encode (b ∷ bs) = omega (arith, length-hex_encode bs)

-- Two digits of a byte read as the byte.
pub from_str_radix-hex :
    (b : ℕ) → IsByte b → from_str_radix (hex_digit (b / 16)) (hex_digit (b % 16)) ≡ some b
unfolding from_str_radix
from_str_radix-hex b h =
    let sign : (hex_digit (b / 16) == b'+') ≡ false =
      ground (arith, digit_range (b / 16) (omega arith)) in
    rw (sign, digit_read (b / 16) (omega arith), digit_read (b % 16) (omega arith))
      (ap some (omega arith))

pub at_boundary-hex : (bs : Bytes) → All IsByte bs → at_boundary (hex_encode bs) ≡ true
unfolding hex_encode
at_boundary-hex [] h = refl
at_boundary-hex (b ∷ bs) h = ground (arith, digit_range (b / 16) (omega (arith, h.0)))
