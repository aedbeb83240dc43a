-- ===== src/Strings/Decimal.antt =====
-- Numbers as decimal text: `{}` of `u64` and `i64`, and `str::parse::<i64>`.
use tee_demo.Base.{
  ℕ, zero, suc, ◌+◌, ◌-◌, ◌*◌, ◌/◌, ◌%◌, ◌^◌, ◌≤◌, ◌<◌, ◌≡◌, refl, Bool, ◌&&◌, Option, none, some,
  [], ◌∷◌, ◌++◌, arith, ltb, leb, ◌==◌, if◌then◌else◌, length, length-append, All, All-append,
}
use tee_demo.Base.Bytes.{Text, text}
use tee_demo.Base.Int.{ℤ, pos, negsuc, IsI64, sub_ℕ}

-- The digits of `n`, most significant first; `n` rounds are more than enough.
show_digits : ℕ → ℕ → Text
show_digits zero n = []
show_digits (suc fuel) n =
    let front = show_digits fuel (n / 10) in
    if ltb n 10 then (48 + n) ∷ [] else front ++ (48 + n % 10) ∷ []

unfoldable pub show_nat : ℕ → Text
unfolding show_digits
show_nat n = show_digits (suc n) n

unfoldable pub show_int : ℤ → Text
show_int (pos n) = show_nat n
show_int (negsuc n) = b'-' ∷ show_nat (suc n)

-- `char::is_ascii_digit`
abbrev pub is_digit : ℕ → Bool
is_digit c = leb 48 c && leb c 57

parse_digits : ℕ → Text → Option ℕ
parse_digits acc [] = some acc
parse_digits acc (c ∷ cs) = if is_digit c then parse_digits (acc * 10 + (c - 48)) cs else none

parse_nat : Text → Option ℕ
parse_nat [] = none
parse_nat (c ∷ cs) = parse_digits 0 (c ∷ cs)

abbrev below_limit : Option ℕ → Option ℤ
below_limit none = none
below_limit (some n) = if ltb n (2 ^ 63) then some (pos n) else none

abbrev above_limit : Option ℕ → Option ℤ
above_limit none = none
above_limit (some n) = if leb n (2 ^ 63) then some (sub_ℕ 0 n) else none

-- `none` is a parse error: no digit, another character, or an overflow.
unfoldable pub parse_i64 : Text → Option ℤ
unfolding parse_digits parse_nat
parse_i64 [] = none
parse_i64 (c ∷ cs) =
    if c == b'-'
    then above_limit (parse_nat cs)
    else if c == b'+'
    then below_limit (parse_nat cs)
    else below_limit (parse_nat (c ∷ cs))

abbrev fits_u32 : Option ℕ → Option ℕ
fits_u32 none = none
fits_u32 (some n) = if ltb n (2 ^ 32) then some n else none

-- `str::parse::<u32>`
unfoldable pub parse_u32 : Text → Option ℕ
unfolding parse_digits parse_nat
parse_u32 [] = none
parse_u32 (c ∷ cs) = if c == b'+' then fits_u32 (parse_nat cs) else fits_u32 (parse_nat (c ∷ cs))

abbrev pub IsDigit : ℕ → Type 0
IsDigit c = (48 ≤ c) × (c ≤ 57)

show_digits-All : (fuel n : ℕ) → All IsDigit (show_digits fuel n)
unfolding show_digits
show_digits-All zero n = tt
show_digits-All (suc fuel) n = ground (
  arith,
  show_digits-All fuel (n / 10),
  All-append IsDigit (show_digits fuel (n / 10)) ((48 + n % 10) ∷ []),
)

pub show_nat-All : (n : ℕ) → All IsDigit (show_nat n)
unfolding show_nat
show_nat-All n = show_digits-All (suc n) n

parse_digits-append :
    (xs : Text) (acc d m : ℕ)
    → d < 10
    → parse_digits acc xs ≡ some m
    → parse_digits acc (xs ++ (48 + d) ∷ []) ≡ some (m * 10 + d)
unfolding parse_digits
parse_digits-append [] acc d m hd e = ground arith
parse_digits-append (x ∷ xs) acc d m hd e =
    ground (arith, parse_digits-append xs (acc * 10 + (x - 48)) d m)

parse_digits-show : (fuel n : ℕ) → n < fuel → parse_digits 0 (show_digits fuel n) ≡ some n
unfolding parse_digits show_digits
parse_digits-show zero n h = elim h [ ]
parse_digits-show (suc fuel) n h = ground (
  arith,
  parse_digits-show fuel (n / 10),
  parse_digits-append (show_digits fuel (n / 10)) 0 (n % 10) (n / 10),
)

show_digits-pos : (fuel n : ℕ) → 0 < length (show_digits (suc fuel) n)
unfolding show_digits
show_digits-pos fuel n =
    ground (arith, length-append (show_digits fuel (n / 10)) ((48 + n % 10) ∷ []))

first-IsDigit :
    (t : Text) → 0 < length t → All IsDigit t → (c : ℕ) × (cs : Text) × (t ≡ c ∷ cs) × IsDigit c
first-IsDigit [] h all = elim h [ ]
first-IsDigit (c ∷ cs) h all = (c, cs, refl, all.0)

-- A number starts with a digit.
pub show_nat-cons : (n : ℕ) → (c : ℕ) × (cs : Text) × (show_nat n ≡ c ∷ cs) × IsDigit c
unfolding show_nat
show_nat-cons n = first-IsDigit (show_nat n) (show_digits-pos n n) (show_nat-All n)

parse_nat-show : (n : ℕ) → parse_nat (show_nat n) ≡ some n
unfolding show_nat parse_nat
parse_nat-show n =
    let (c, cs, e, d) = show_nat-cons n in
    rw e (rw (← e) (parse_digits-show (suc n) n (omega arith)))

parse_u32-unsigned :
    (c : ℕ) (cs : Text) (n : ℕ)
    → IsDigit c
    → n < 2 ^ 32
    → parse_nat (c ∷ cs) ≡ some n
    → parse_u32 (c ∷ cs) ≡ some n
unfolding parse_u32
parse_u32-unsigned c cs n d h e = ground arith

-- Printing a `u32` and parsing the text gives the number back.
pub parse_u32-show_nat : (n : ℕ) → n < 2 ^ 32 → parse_u32 (show_nat n) ≡ some n
parse_u32-show_nat n h =
    let (c, cs, e, d) = show_nat-cons n in
    rw e (parse_u32-unsigned c cs n d h (rw e at (parse_nat-show n)))

parse_i64-unsigned :
    (c : ℕ) (cs : Text) (n : ℕ)
    → IsDigit c
    → n < 2 ^ 63
    → parse_nat (c ∷ cs) ≡ some n
    → parse_i64 (c ∷ cs) ≡ some (pos n)
unfolding parse_i64
parse_i64-unsigned c cs n d h e = ground arith

-- Printing an `i64` and parsing the text gives the number back.
pub parse_i64-show_int : (a : ℤ) → IsI64 a → parse_i64 (show_int a) ≡ some a
unfolding show_int
parse_i64-show_int (pos n) h =
    let (c, cs, e, d) = show_nat-cons n in
    rw e (parse_i64-unsigned c cs n d h (rw e at (parse_nat-show n)))
parse_i64-show_int (negsuc n) h = unfold parse_i64 in rw (parse_nat-show (suc n)) (ground arith)

parse_i64_bounds :
    (parse_i64 (text "-9223372036854775808") ≡ some (negsuc (2 ^ 63 - 1)))
    × (parse_i64 (text "9223372036854775808") ≡ none)
    × (parse_i64 (text "--5") ≡ none)
unfolding parse_i64
parse_i64_bounds = (refl, refl, refl)
