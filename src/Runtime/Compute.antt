-- ===== src/Runtime/Compute.antt =====
-- `compute`, `parse_xy_json` and the decryption of a request, of runtime/src/main.rs. The
-- arithmetic is that of a release build: it wraps.
pub mod Exact
pub mod Plaintext
pub mod Slicing
use tee_demo.Base.{
  ℕ, ◌+◌, Bool, not, ◌&&◌, Option, none, some, List, [], ◌∷◌, ◌++◌, ◌==◌, if◌then◌else◌, length,
  concat, Outcome, Fallible, ok, err, ◌>>=◌, map_err, ok_or, unwrap_or,
}
use tee_demo.Base.Bytes.{Bytes, Text, text}
use tee_demo.Base.Int.{ℤ, pos, ◌+ℤ◌, ◌*ℤ◌, wrap_i64}
use tee_demo.Strings.Decimal.{is_digit, parse_i64}
use tee_demo.Strings.Search.{find_text, find_char, trim_start}
use tee_demo.Strings.Slices.{slice_from, slice_to}
use tee_demo.Strings.Utf8.{from_utf8}
use tee_demo.Protocol.Frame.{err_bad_input}
use tee_demo.Protocol.Platform.{Platform}
use tee_demo.KeyStore.{KeyStore, code, message}
use tee_demo.KeyStore

-- `i64::pow(3)`: acc = x, base = x * x, acc * base
abbrev pow_three : ℤ → ℤ
pow_three x = wrap_i64 (x *ℤ wrap_i64 (x *ℤ x))

unfoldable pub compute : ℤ → ℤ → ℤ
compute x y = wrap_i64 (pow_three x +ℤ wrap_i64 (pos 5 *ℤ y))

abbrev pub is_number_end : ℕ → Bool
is_number_end c = not (is_digit c) && not (c == b'-')

-- `extract_field` from the place where the needle was found; the two slices of the text may panic.
abbrev pub field_at : Text → Text → Option ℕ → Fallible (Option ℤ)
field_at s needle none = ok none
field_at s needle (some i) = do
  tail ← slice_from (i + length needle) s
  let rest = trim_start tail
  let end = unwrap_or (length rest) (find_char is_number_end rest)
  number ← slice_to end rest
  ok (parse_i64 number)

unfoldable pub extract_field : Text → Text → Fallible (Option ℤ)
extract_field s key =
    let needle = concat (text "\"" ∷ key ∷ text "\":" ∷ []) in
    field_at s needle (find_text s needle)

unfoldable pub parse_xy_json : Text → Fallible (ℤ × ℤ)
unfolding extract_field
parse_xy_json s = do
  field_x ← extract_field s (text "x")
  x ← ok_or (text "missing x in plaintext: " ++ s) field_x
  field_y ← extract_field s (text "y")
  y ← ok_or (text "missing y in plaintext: " ++ s) field_y
  ok (x, y)

module _ ⦃plat : Platform⦄ where
  -- The closure `xy` of `handle_compute_request`; its error is a code and a message.
  unfoldable pub open_request : KeyStore → ℕ → Text → Text → Outcome (Text × Text) (ℤ × ℤ)
  open_request store key_version ct_b64 aad = do
    ct ← map_err (λ e. (err_bad_input, e)) (plat.b64_decode ct_b64)
    pt ← map_err (λ e. (code e, message e)) (KeyStore.decrypt store key_version ct aad)
    s ← map_err (λ e. (err_bad_input, e)) (from_utf8 pt)
    map_err (λ e. (err_bad_input, e)) (parse_xy_json s)
