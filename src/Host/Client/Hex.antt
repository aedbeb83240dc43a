-- ===== src/Host/Client/Hex.antt =====
-- `hex_decode` of host/src/main.rs.
use tee_demo.Base.{
  ℕ, ◌%◌, ◌≤◌, ◌<◌, ◌≡◌, refl, true, not, Option, none, some, [], ◌∷◌, arith, ◌==◌, if◌then◌else◌,
  length, All, All-map, Fallible, ok, err, panic, ◌>>=◌,
}
use tee_demo.Base.Bytes.{Bytes, Text, text, IsByte}
use tee_demo.Strings.Search.{trim_start-eq_self}
use tee_demo.Strings.Trim.{trim, trim_end, IsVisible, trim-eq_self}
use tee_demo.Strings.Hex.{
  hex_encode, from_str_radix, at_boundary, IsHexChar, hex_encode-All, length-hex_encode,
  from_str_radix-hex, at_boundary-hex,
}

abbrev byte_read : Option ℕ → Fallible ℕ
byte_read none = err (text "bad hex: invalid digit found in string")
byte_read (some b) = ok b

-- The closure on the index of each pair. The slice panics where it ends inside a character; it
-- starts where the one before it ended.
unfoldable pub hex_pairs : Text → Fallible Bytes
hex_pairs [] = ok []
hex_pairs (a ∷ []) = panic
hex_pairs (a ∷ b ∷ rest) =
    let more = hex_pairs rest in
    if not (at_boundary rest)
    then panic
    else (do byte ← byte_read (from_str_radix a b); bytes ← more; ok (byte ∷ bytes))

unfoldable pub hex_decode : Text → Fallible Bytes
unfolding hex_pairs
hex_decode s =
    let t = trim s in
    if not (length t % 2 == 0) then err (text "hex length must be even") else hex_pairs t

hex_pairs-hex_encode : (bs : Bytes) → All IsByte bs → hex_pairs (hex_encode bs) ≡ ok bs
unfolding hex_pairs hex_encode
hex_pairs-hex_encode [] h = refl
hex_pairs-hex_encode (b ∷ bs) h =
    rw (at_boundary-hex bs h.1, from_str_radix-hex b h.0, hex_pairs-hex_encode bs h.1) refl

hex_IsVisible : (c : ℕ) → IsHexChar c → IsVisible c
hex_IsVisible c h = omega (arith, h)

-- Bytes that are written in hex, two digits for each, decode to themselves.
pub hex_decode-hex_encode : (bs : Bytes) → All IsByte bs → hex_decode (hex_encode bs) ≡ ok bs
unfolding hex_decode
hex_decode-hex_encode bs h =
    let even : (length (hex_encode bs) % 2 == 0) ≡ true = ground (arith, length-hex_encode bs) in
    rw
      (
        trim-eq_self (hex_encode bs) (All-map hex_IsVisible (hex_encode bs) (hex_encode-All bs h)),
        even,
      )
      (hex_pairs-hex_encode bs h)

-- A visible ASCII character and then a euro sign, four bytes, make `hex_decode` panic instead of
-- return an error: the first slice ends inside the euro sign.
pub hex_decode_panics :
    (c : ℕ) → 33 ≤ c → c < 128 → hex_decode (c ∷ 0xe2 ∷ 0x82 ∷ 0xac ∷ []) ≡ panic
unfolding hex_decode hex_pairs trim
hex_decode_panics c lo hi =
    rw (trim_start-eq_self c (0xe2 ∷ 0x82 ∷ 0xac ∷ []) lo hi) (unfold trim_end in refl)
