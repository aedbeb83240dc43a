-- ===== src/Base/Bytes.antt =====
-- Bytes, texts as their UTF-8 bytes, and the little-endian words of the wire formats.
use Prim.Native.Nat.{ℕ, zero, suc, ◌+◌, ◌*◌, ◌/◌, ◌%◌, ◌^◌, ◌<◌}
use Prim.Native.Char.{code}
use Prim.Native.String.{String}
use mathlib.Core.Path.{◌≡◌, refl, ap}
use mathlib.Core.List.{List, [], ◌∷◌}
use native.Mathlib.Omega.{arith}
use native.Mathlib.Nat.{pow-suc}
use tee_demo.Base.Lists.{length, All}

-- `&[u8]` and `Vec<u8>`
abbrev pub Bytes : Type 0
Bytes = List ℕ

-- `&str` and `String`: their bytes
abbrev pub Text : Type 0
Text = List ℕ

-- A literal; every literal here is ASCII, where a character is a byte.
abbrev pub text : String → Text
text String.[] = []
text (String.◌∷◌ c s) = code c ∷ text s

abbrev pub IsByte : ℕ → Type 0
IsByte b = b < 256

-- `to_le_bytes` of an unsigned word of `width` bytes
unfoldable pub to_le_bytes : ℕ → ℕ → Bytes
to_le_bytes zero v = []
to_le_bytes (suc width) v = (v % 256) ∷ to_le_bytes width (v / 256)

-- `from_le_bytes`
unfoldable pub from_le_bytes : Bytes → ℕ
from_le_bytes [] = 0
from_le_bytes (b ∷ bs) = b + 256 * from_le_bytes bs

-- `as u16`, `as u8`
abbrev pub as_u16 : ℕ → ℕ
as_u16 n = n % 2 ^ 16

abbrev pub as_u8 : ℕ → ℕ
as_u8 n = n % 2 ^ 8

pub length-to_le_bytes : (width v : ℕ) → length (to_le_bytes width v) ≡ width
unfolding to_le_bytes
length-to_le_bytes zero v = refl
length-to_le_bytes (suc width) v = ap suc (length-to_le_bytes width (v / 256))

-- What a word was written as reads back as the word.
pub from_le_bytes-to_le_bytes :
    (width v : ℕ) → v < 256 ^ width → from_le_bytes (to_le_bytes width v) ≡ v
unfolding to_le_bytes from_le_bytes
from_le_bytes-to_le_bytes zero v h = omega arith
from_le_bytes-to_le_bytes (suc width) v h =
    let bound : v < 256 ^ width * 256 = rw pow-suc at h in
    omega (arith, from_le_bytes-to_le_bytes width (v / 256) (omega arith))

pub to_le_bytes-All : (width v : ℕ) → All IsByte (to_le_bytes width v)
unfolding to_le_bytes
to_le_bytes-All zero v = tt
to_le_bytes-All (suc width) v = (omega arith, to_le_bytes-All width (v / 256))
