-- ===== src/Text/Decimal.antt =====
-- `str::parse::<i64>` of Rust: an optional sign, then at least one ASCII digit, within 64 bits.
pub mod RoundTrip
use Prim.Native.Char.{Char, code}
use Prim.Native.String
use Prim.Native.String.{[], ◌∷◌}
use form_respondent_role.Prelude.{
  ℕ, zero, suc, ◌+◌, ◌-◌, ◌*◌, ◌/◌, ◌%◌, ◌≤◌, String, Bool, ◌&&◌, Option, none, some, leb, ltb,
  ◌==◌, and_then, if◌then◌else◌,
}
use form_respondent_role.Prelude.Int.{ℤ, pos, negsuc, pos_part, neg_part}

abbrev pub i64_max : ℕ
i64_max = 9223372036854775807

abbrev is_digit : Char → Bool
is_digit c = leb b'0' (code c) && leb (code c) b'9'

parse_digits : ℕ → String → Option ℕ
parse_digits acc [] = some acc
parse_digits acc (c ∷ s) =
    let rest = parse_digits (acc * 10 + (code c - b'0')) s in if is_digit c then rest else none

abbrev parse_unsigned : String → Option ℕ
parse_unsigned [] = none
parse_unsigned (c ∷ s) = parse_digits 0 (c ∷ s)

abbrev to_pos : ℕ → Option ℤ
to_pos n = if leb n i64_max then some (pos n) else none

abbrev to_neg : ℕ → Option ℤ
to_neg n =
    if n == 0 then some (pos 0) else if leb n (suc i64_max) then some (negsuc (n - 1)) else none

unfoldable pub parse_i64 : String → Option ℤ
unfolding parse_digits
parse_i64 [] = none
parse_i64 (c ∷ s) =
    if code c == b'-'
    then and_then (parse_unsigned s) to_neg
    else if code c == b'+'
    then and_then (parse_unsigned s) to_pos
    else and_then (parse_unsigned (c ∷ s)) to_pos

-- `str::parse::<u64>`: an optional plus sign, then digits, within 64 bits.
abbrev to_u64 : ℕ → Option ℕ
to_u64 n = if leb n (2 * i64_max + 1) then some n else none

unfoldable pub parse_u64 : String → Option ℕ
unfolding parse_digits
parse_u64 [] = none
parse_u64 (c ∷ s) =
    if code c == b'+'
    then and_then (parse_unsigned s) to_u64
    else and_then (parse_unsigned (c ∷ s)) to_u64

-- What is parsed fits in 64 bits.
abbrev pub IsI64 : ℤ → Type 0
IsI64 n = (pos_part n ≤ i64_max) × (neg_part n ≤ suc i64_max)

-- `i64::to_string`. A number below 10 ^ 20 has at most twenty digits, which is the fuel.
unfoldable pub digit_text : ℕ → String
digit_text n =
    if n == 0
    then "0"
    else if n == 1
    then "1"
    else if n == 2
    then "2"
    else if n == 3
    then "3"
    else if n == 4
    then "4"
    else if n == 5
    then "5"
    else if n == 6
    then "6"
    else if n == 7
    then "7"
    else if n == 8
    then "8"
    else "9"

unfoldable pub print_digits : ℕ → ℕ → String
unfolding digit_text
print_digits zero n = ""
print_digits (suc fuel) n =
    let front = print_digits fuel (n / 10) in
    if ltb n 10 then digit_text n else String.◌++◌ front (digit_text (n % 10))

unfoldable pub print_i64 : ℤ → String
unfolding print_digits
print_i64 (pos n) = print_digits 20 n
print_i64 (negsuc n) = String.◌++◌ "-" (print_digits 20 (suc n))
