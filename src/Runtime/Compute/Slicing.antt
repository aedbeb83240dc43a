-- ===== src/Runtime/Compute/Slicing.antt =====
-- The slices of `extract_field` in runtime/src/main.rs are in range and cut no character.
use tee_demo.Base.{
  ℕ, ◌+◌, ◌<◌, ◌≡◌, refl, sym, inr, false, Option, none, some, [], ◌∷◌, ◌++◌, arith, length, drop,
  concat, unwrap_or, Returns, Returns-bind,
}
use tee_demo.Base.Bytes.{Text, text}
use tee_demo.Strings.Search.{find_text, find_char, trim_start, trim_start-tail}
use tee_demo.Strings.Slices.{
  slice_to, slice_from-boundary, slice_to-boundary, Steps, Steps-drop, find_text-boundary,
  find_char-boundary,
}
use tee_demo.Runtime.Compute.{is_number_end, field_at, extract_field}

number_end-ascii : (c : ℕ) → is_number_end c ≡ false → c < 128
number_end-ascii c h = ground arith

-- The end of a number
drop-length : (s : Text) → drop (length s) s ≡ []
drop-length [] = refl
drop-length (c ∷ s) = drop-length s

end_Returns :
    (rest : Text) (found : Option ℕ)
    → Steps rest
    → find_char is_number_end rest ≡ found
    → Returns {E = Text} (slice_to (unwrap_or (length rest) found) rest)
end_Returns rest none steps e =
    rw
      (slice_to-boundary {E = Text} (length rest) rest (omega arith)
        (inr (rw (drop-length rest) refl)))
      tt
end_Returns rest (some i) steps e =
    let (range, boundary) = find_char-boundary is_number_end rest i number_end-ascii steps e in
    rw (slice_to-boundary {E = Text} i rest range boundary) tt

field_at-Returns :
    (s front : Text) (found : Option ℕ)
    → Steps s
    → find_text s (front ++ text ":") ≡ found
    → Returns (field_at s (front ++ text ":") found)
field_at-Returns s front none steps e = tt
field_at-Returns s front (some i) steps e =
    let start = i + length (front ++ text ":") in
    let (range, boundary) = find_text-boundary front s 58 i (omega arith) steps e in
    let (k, trimmed) = trim_start-tail (drop start s) in
    let rest = trim_start (drop start s) in
    let rest_steps : Steps rest =
      rw (sym trimmed) at (Steps-drop k (drop start s) (Steps-drop start s steps)) in
    rw (slice_from-boundary {E = Text} start s range boundary) (
      Returns-bind _ _ (end_Returns rest (find_char is_number_end rest) rest_steps refl)
        λ number. tt)

pub extract_field-Returns :
    (s key front : Text)
    → Steps s
    → concat (text "\"" ∷ key ∷ text "\":" ∷ []) ≡ front ++ text ":"
    → Returns (extract_field s key)
unfolding extract_field
extract_field-Returns s key front steps e =
    rw e (field_at-Returns s front (find_text s (front ++ text ":")) steps refl)
