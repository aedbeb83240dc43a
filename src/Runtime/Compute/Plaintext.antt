-- ===== src/Runtime/Compute/Plaintext.antt =====
-- The plaintext of a request, as `cmd_calc` of host/src/main.rs writes it, and what the runtime
-- parses from it.
use tee_demo.Base.{
  ℕ, suc, ◌+◌, ◌≤◌, ◌<◌, ◌≡◌, ◌≢◌, refl, ap, inr, true, false, some, [], ◌∷◌, ◌++◌, append_assoc,
  arith, length, length-append, length-drop, take-append, drop, drop-append, drop-prefix, concat,
  All, All-map, ok,
}
use tee_demo.Base.Bytes.{Text, text}
use tee_demo.Base.Int.{ℤ, pos, negsuc, IsI64}
use tee_demo.Strings.Decimal.{show_nat, show_int, parse_i64-show_int, show_nat-All, show_nat-cons}
use tee_demo.Strings.Search.{
  starts_with, find_text, find_text-append, find_char-append, trim_start, trim_start-eq_self,
}
use tee_demo.Strings.Hex.{at_boundary}
use tee_demo.Strings.Slices.{slice_from-boundary, slice_to-boundary}
use tee_demo.Runtime.Compute.{is_number_end, extract_field, parse_xy_json}

-- `format!(r#"{{"x":{x},"y":{y}}}"#)`
unfoldable pub plaintext : ℤ → ℤ → Text
plaintext x y = concat (text "{\"x\":" ∷ show_int x ∷ text ",\"y\":" ∷ show_int y ∷ text "}" ∷ [])

-- A digit or a minus sign
abbrev IsNumberChar : ℕ → Type 0
IsNumberChar c = (45 ≤ c) × (c ≤ 57) × (c ≢ 46) × (c ≢ 47)

pub show_int-All : (a : ℤ) → All IsNumberChar (show_int a)
unfolding show_int
show_int-All (pos n) = All-map (λ c d. omega arith) (show_nat n) (show_nat-All n)
show_int-All (negsuc n) = (omega arith, All-map (λ c d. omega arith) _ (show_nat-All (suc n)))

show_int-cons : (a : ℤ) → (c : ℕ) × (cs : Text) × (show_int a ≡ c ∷ cs) × IsNumberChar c
unfolding show_int
show_int-cons (pos n) = let (c, cs, e, d) = show_nat-cons n in (c, cs, e, omega arith)
show_int-cons (negsuc n) = (45, show_nat (suc n), refl, omega arith)

in_number : (c : ℕ) → IsNumberChar c → is_number_end c ≡ false
in_number c h = ground arith

trim_start-show_int : (a : ℤ) (rest : Text) → trim_start (show_int a ++ rest) ≡ show_int a ++ rest
trim_start-show_int a rest =
    let (c, cs, e, d) = show_int-cons a in
    rw e (trim_start-eq_self c (cs ++ rest) (omega arith) (omega arith))

-- A number starts with a character of its own.
boundary_of : (a : ℤ) (rest : Text) → at_boundary (show_int a ++ rest) ≡ true
boundary_of a rest = let (c, cs, e, d) = show_int-cons a in rw e (ground arith)

-- The place that a number stands at is in the text.
starts_inside :
    (s : Text) (start : ℕ) (a : ℤ) (c : ℕ) (rest : Text)
    → drop start s ≡ show_int a ++ c ∷ rest
    → start ≤ length s
starts_inside s start a c rest value =
    omega (arith, ap length value, length-drop start s, length-append (show_int a) (c ∷ rest))

-- A field's value is read where the needle ends, up to a character of no number.
extract_field-at :
    (s key : Text) (i c : ℕ) (a : ℤ) (rest : Text)
    → find_text s (concat (text "\"" ∷ key ∷ text "\":" ∷ [])) ≡ some i
    → drop (i + length (concat (text "\"" ∷ key ∷ text "\":" ∷ []))) s ≡ show_int a ++ c ∷ rest
    → c < 128
    → is_number_end c ≡ true
    → IsI64 a
    → extract_field s key ≡ ok (some a)
unfolding extract_field
extract_field-at s key i c a rest found value small end h =
    let start = i + length (concat (text "\"" ∷ key ∷ text "\":" ∷ [])) in
    rw
      (
        found,
        slice_from-boundary {E = Text} start s (starts_inside s start a c rest value)
            (rw value (boundary_of a (c ∷ rest))),
        value,
        trim_start-show_int a (c ∷ rest),
        find_char-append is_number_end (show_int a) rest c
            (All-map in_number (show_int a) (show_int-All a)) end,
        slice_to-boundary {E = Text} (length (show_int a)) (show_int a ++ c ∷ rest)
            (omega (arith, length-append (show_int a) (c ∷ rest)))
            (inr (rw (drop-append (show_int a) (c ∷ rest)) (ground arith))),
        take-append (show_int a) (c ∷ rest),
      )
      (ap ok (parse_i64-show_int a h))

abbrev after_x : ℤ → ℤ → Text
after_x x y = show_int x ++ (text ",\"y\":" ++ (show_int y ++ text "}"))

-- The text in front of the second number
abbrev before_y : ℤ → Text
before_y x = text "{\"x\":" ++ (show_int x ++ text ",\"y\":")

find_y : (x y : ℤ) → find_text (after_x x y) (text "\"y\":") ≡ some (length (show_int x) + 1)
find_y x y =
    find_text-append 34 (text "y\":") (show_int x) (text ",\"y\":" ++ (show_int y ++ text "}")) 1
      (All-map (λ c h. omega arith) (show_int x) (show_int-All x))
      (unfold find_text starts_with in refl)

extract_x : (x y : ℤ) → IsI64 x → extract_field (plaintext x y) (text "x") ≡ ok (some x)
unfolding plaintext find_text starts_with
extract_x x y h =
    extract_field-at (plaintext x y) (text "x") 1 44 x (text "\"y\":" ++ (show_int y ++ text "}"))
      refl refl (omega arith) refl h

drop_before_y :
    (x : ℤ) (n : ℕ) (rest : Text)
    → length (show_int x) + 10 ≡ n
    → drop n (text "{\"x\":" ++ (show_int x ++ (text ",\"y\":" ++ rest))) ≡ rest
drop_before_y x n rest e =
    rw (append_assoc (show_int x) (text ",\"y\":") rest) at
      (drop-prefix n (before_y x) rest (omega (arith, length-append (show_int x) (text ",\"y\":"))))

extract_y : (x y : ℤ) → IsI64 y → extract_field (plaintext x y) (text "y") ≡ ok (some y)
unfolding plaintext
extract_y x y h =
    extract_field-at (plaintext x y) (text "y") (length (show_int x) + 1 + 1 + 1 + 1 + 1 + 1) 125 y
      [] (unfold find_text starts_with in rw (find_y x y) refl)
      (drop_before_y x (length (show_int x) + 1 + 1 + 1 + 1 + 1 + 1 + 4) (show_int y ++ text "}")
        (omega arith))
      (omega arith) refl h

-- What the client writes for two i64 numbers, the runtime parses as the two numbers.
pub parse_xy_json-plaintext :
    (x y : ℤ) → IsI64 x → IsI64 y → parse_xy_json (plaintext x y) ≡ ok (x, y)
unfolding parse_xy_json
parse_xy_json-plaintext x y hx hy = rw (extract_x x y hx, extract_y x y hy) refl
