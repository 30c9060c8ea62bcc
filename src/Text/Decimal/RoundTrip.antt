-- ===== src/Text/Decimal/RoundTrip.antt =====
-- The decimal text of an i64 that is not negative reads back as the number.
use Prim.Native.Char.{code}
use Prim.Native.String
use Prim.Native.String.{[], ◌∷◌}
use text.Mathlib.TextLemmas.{nil-append, cons-append}
use form_respondent_role.Prelude.{
  ℕ, zero, suc, ◌+◌, ◌-◌, ◌*◌, ◌/◌, ◌%◌, ◌^◌, ◌≤◌, ◌<◌, String, true, false, some, ltb, ◌≡◌, refl,
  arith, Bool-cases, inl, inr, ap, ◌∙◌,
}
use form_respondent_role.Prelude.Int.{pos}
use form_respondent_role.Text.{all_char, is_empty}
use form_respondent_role.Text.Fields.{is_field}
use form_respondent_role.Text.Decimal.{
  parse_digits, digit_text, print_digits, parse_i64, print_i64, i64_max,
}

parse_digits-append :
    (acc : ℕ) (s t : String) (n : ℕ)
    → parse_digits acc s ≡ some n
    → parse_digits acc (String.◌++◌ s t) ≡ parse_digits n t
unfolding parse_digits
parse_digits-append acc [] t n h = rw (nil-append t) (ground arith)
parse_digits-append acc (c ∷ s) t n h =
    rw (cons-append c s t)
      (ground (arith, parse_digits-append (acc * 10 + (code c - 48)) s t n (ground arith)))

parse_digits-digit : (acc d : ℕ) → d < 10 → parse_digits acc (digit_text d) ≡ some (acc * 10 + d)
unfolding parse_digits digit_text
parse_digits-digit acc zero h = refl
parse_digits-digit acc (suc zero) h = refl
parse_digits-digit acc (suc (suc zero)) h = refl
parse_digits-digit acc (suc (suc (suc zero))) h = refl
parse_digits-digit acc (suc (suc (suc (suc zero)))) h = refl
parse_digits-digit acc (suc (suc (suc (suc (suc zero))))) h = refl
parse_digits-digit acc (suc (suc (suc (suc (suc (suc zero)))))) h = refl
parse_digits-digit acc (suc (suc (suc (suc (suc (suc (suc zero))))))) h = refl
parse_digits-digit acc (suc (suc (suc (suc (suc (suc (suc (suc zero)))))))) h = refl
parse_digits-digit acc (suc (suc (suc (suc (suc (suc (suc (suc (suc zero))))))))) h = refl
parse_digits-digit acc (suc (suc (suc (suc (suc (suc (suc (suc (suc (suc d)))))))))) h =
    absurd (omega arith)

print_digits-short : (fuel n : ℕ) → n < 10 → print_digits (suc fuel) n ≡ digit_text n
unfolding print_digits
print_digits-short fuel n h = ground arith

print_digits-long :
    (fuel n : ℕ)
    → 10 ≤ n
    → print_digits (suc fuel) n ≡ String.◌++◌ (print_digits fuel (n / 10)) (digit_text (n % 10))
unfolding print_digits
print_digits-long fuel n h = ground arith

parse_digits-print :
    (fuel n : ℕ) → n < 10 ^ suc fuel → parse_digits 0 (print_digits (suc fuel) n) ≡ some n
parse_digits-print zero n h =
    rw (print_digits-short zero n (omega arith))
      (parse_digits-digit 0 n (omega arith) ∙ ap some (omega arith))
parse_digits-print (suc fuel) n h = elim (Bool-cases (ltb n 10)) [
  | inl short ↦
      rw (print_digits-short (suc fuel) n (ground arith))
        (parse_digits-digit 0 n (ground arith) ∙ ap some (omega arith))
  | inr long ↦
      rw
        (
          print_digits-long (suc fuel) n (ground arith),
          parse_digits-append 0 (print_digits (suc fuel) (n / 10)) (digit_text (n % 10)) (n / 10)
              (parse_digits-print fuel (n / 10) (omega arith)),
        )
        (parse_digits-digit (n / 10) (n % 10) (omega arith) ∙ ap some (omega arith))
]

digit_text-filled : (d : ℕ) → d < 10 → is_empty (digit_text d) ≡ false
unfolding digit_text
digit_text-filled zero h = refl
digit_text-filled (suc zero) h = refl
digit_text-filled (suc (suc zero)) h = refl
digit_text-filled (suc (suc (suc zero))) h = refl
digit_text-filled (suc (suc (suc (suc zero)))) h = refl
digit_text-filled (suc (suc (suc (suc (suc zero))))) h = refl
digit_text-filled (suc (suc (suc (suc (suc (suc zero)))))) h = refl
digit_text-filled (suc (suc (suc (suc (suc (suc (suc zero))))))) h = refl
digit_text-filled (suc (suc (suc (suc (suc (suc (suc (suc zero)))))))) h = refl
digit_text-filled (suc (suc (suc (suc (suc (suc (suc (suc (suc zero))))))))) h = refl
digit_text-filled (suc (suc (suc (suc (suc (suc (suc (suc (suc (suc d)))))))))) h =
    absurd (omega arith)

append-filled : (s t : String) → is_empty t ≡ false → is_empty (String.◌++◌ s t) ≡ false
append-filled [] t h = rw (nil-append t) h
append-filled (c ∷ s) t h = rw (cons-append c s t) refl

print_digits-filled : (fuel n : ℕ) → is_empty (print_digits (suc fuel) n) ≡ false
print_digits-filled fuel n = elim (Bool-cases (ltb n 10)) [
  | inl short ↦ rw (print_digits-short fuel n (ground arith)) (digit_text-filled n (ground arith))
  | inr long ↦ rw (print_digits-long fuel n (ground arith)) (
      append-filled (print_digits fuel (n / 10)) (digit_text (n % 10))
        (digit_text-filled (n % 10) (omega arith)))
]

parse_i64-digits :
    (s : String) (n : ℕ)
    → parse_digits 0 s ≡ some n
    → is_empty s ≡ false
    → n ≤ i64_max
    → parse_i64 s ≡ some (pos n)
unfolding parse_i64 parse_digits
parse_i64-digits [] n h e b = absurd (cc)
parse_i64-digits (c ∷ s) n h e b = ground arith

digits-no_colon : (acc : ℕ) (s : String) (n : ℕ) → parse_digits acc s ≡ some n → is_field s ≡ true
unfolding parse_digits all_char
digits-no_colon acc [] n h = refl
digits-no_colon acc (c ∷ s) n h =
    ground (arith, digits-no_colon (acc * 10 + (code c - 48)) s n (ground arith))

-- The text of a number below 2 ^ 63 has no colon and reads back as the number.
pub print_i64-parse :
    (n : ℕ)
    → n ≤ i64_max
    → (is_field (print_i64 (pos n)) ≡ true) × (parse_i64 (print_i64 (pos n)) ≡ some (pos n))
unfolding print_i64
print_i64-parse n b =
    let back = parse_digits-print 19 n (omega arith) in
    (
      digits-no_colon 0 (print_digits 20 n) n back,
      parse_i64-digits (print_digits 20 n) n back (print_digits-filled 19 n) b,
    )
