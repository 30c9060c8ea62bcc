-- ===== src/Tokens/Bytes.antt =====
-- services/rl_token.rs: `constant_time_eq`, and the bytes of a text.
use Prim.Native.Char.{code}
use Prim.Native.String.{[], ◌∷◌}
use form_respondent_role.Prelude.{
  ℕ, zero, suc, ◌+◌, ◌*◌, ◌/◌, ◌%◌, ◌^◌, ◌<◌, String, Bool, true, false, not, ◌==◌, ltb, List, [],
  ◌∷◌, ◌++◌, length, All, All-append, if◌then◌else◌, ◌≡◌, ◌↔◌, refl, arith,
}

-- `as_bytes`: UTF-8.
abbrev char_bytes : ℕ → List ℕ
char_bytes n =
    if ltb n 128
    then n ∷ []
    else if ltb n 2048
    then (192 + n / 64) ∷ (128 + n % 64) ∷ []
    else if ltb n 65536
    then (224 + n / 4096) ∷ (128 + n / 64 % 64) ∷ (128 + n % 64) ∷ []
    else ((240 + n / 262144) % 256)
      ∷ (128 + n / 4096 % 64)
      ∷ (128 + n / 64 % 64)
      ∷ (128 + n % 64)
      ∷ []

unfoldable pub as_bytes : String → List ℕ
as_bytes [] = []
as_bytes (c ∷ s) = char_bytes (code c) ++ as_bytes s

-- An operation on the lowest `w` bits.
unfoldable pub bitwise : (ℕ → ℕ → ℕ) → ℕ → ℕ → ℕ → ℕ
bitwise f zero a b = 0
bitwise f (suc w) a b = f (a % 2) (b % 2) + 2 * bitwise f w (a / 2) (b / 2)

abbrev xor_bit : ℕ → ℕ → ℕ
xor_bit a b = if a == b then 0 else 1

abbrev or_bit : ℕ → ℕ → ℕ
or_bit a b = if a + b == 0 then 0 else 1

-- The loop over the pairs.
unfoldable pub diff_from : ℕ → List ℕ → List ℕ → ℕ
unfolding bitwise
diff_from d [] ys = d
diff_from d (x ∷ xs) [] = d
diff_from d (x ∷ xs) (y ∷ ys) = diff_from (bitwise or_bit 8 d (bitwise xor_bit 8 x y)) xs ys

unfoldable pub constant_time_eq : List ℕ → List ℕ → Bool
unfolding diff_from
constant_time_eq a b = if not (length a == length b) then false else diff_from 0 a b == 0

abbrev pub IsByte : ℕ → Type 0
IsByte n = n < 256

xor-zero : (w a b : ℕ) → a < 2 ^ w → b < 2 ^ w → bitwise xor_bit w a b ≡ 0 → a ≡ b
unfolding bitwise
xor-zero zero a b p q h = omega arith
xor-zero (suc w) a b p q h =
    let halves = xor-zero w (a / 2) (b / 2) (omega arith) (omega arith) (ground arith) in
    ground arith

xor_refl : (w a : ℕ) → bitwise xor_bit w a a ≡ 0
unfolding bitwise
xor_refl zero a = refl
xor_refl (suc w) a = ground (arith, xor_refl w (a / 2))

bitwise_bound : (w a b : ℕ) → bitwise xor_bit w a b < 2 ^ w
unfolding bitwise
bitwise_bound zero a b = omega arith
bitwise_bound (suc w) a b = ground (arith, bitwise_bound w (a / 2) (b / 2))

or-bound : (w a b : ℕ) → bitwise or_bit w a b < 2 ^ w
unfolding bitwise
or-bound zero a b = omega arith
or-bound (suc w) a b = ground (arith, or-bound w (a / 2) (b / 2))

or-zero : (w a b : ℕ) → a < 2 ^ w → b < 2 ^ w → bitwise or_bit w a b ≡ 0 → (a ≡ 0) × (b ≡ 0)
unfolding bitwise
or-zero zero a b p q h = (omega arith, omega arith)
or-zero (suc w) a b p q h =
    let (x, y) = or-zero w (a / 2) (b / 2) (omega arith) (omega arith) (ground arith) in
    ground arith

or_zero_zero : (w : ℕ) → bitwise or_bit w 0 0 ≡ 0
unfolding bitwise
or_zero_zero zero = refl
or_zero_zero (suc w) = ground (arith, or_zero_zero w)

diff_from-zero :
    (d : ℕ) (xs ys : List ℕ)
    → d < 256
    → All IsByte xs
    → All IsByte ys
    → length xs ≡ length ys
    → diff_from d xs ys ≡ 0
    → (d ≡ 0) × (xs ≡ ys)
unfolding diff_from
diff_from-zero d [] [] p bx by l h = (h, refl)
diff_from-zero d [] (y ∷ ys) p bx by l h = absurd (omega arith)
diff_from-zero d (x ∷ xs) [] p bx by l h = absurd (omega arith)
diff_from-zero d (x ∷ xs) (y ∷ ys) p (b, bx) (c, by) l h =
    let mixed = bitwise xor_bit 8 x y in
    let (z, same) =
      diff_from-zero (bitwise or_bit 8 d mixed) xs ys (or-bound 8 d mixed) bx by (omega arith) h in
    let (zero_d, zero_x) = or-zero 8 d mixed p (bitwise_bound 8 x y) z in
    (zero_d, cc (xor-zero 8 x y b c zero_x, same))

diff_from_refl : (xs : List ℕ) → diff_from 0 xs xs ≡ 0
unfolding diff_from
diff_from_refl [] = refl
diff_from_refl (x ∷ xs) = rw (xor_refl 8 x, or_zero_zero 8) (diff_from_refl xs)

pub constant_time_eq_refl : (xs : List ℕ) → constant_time_eq xs xs ≡ true
unfolding constant_time_eq
constant_time_eq_refl xs = ground (arith, diff_from_refl xs)

-- The comparison that takes the same time for every content answers true exactly for equal bytes.
pub constant_time_eq_iff :
    (xs ys : List ℕ) → All IsByte xs → All IsByte ys → (constant_time_eq xs ys ≡ true) ↔ (xs ≡ ys)
unfolding constant_time_eq
constant_time_eq_iff xs ys bx by = (
  λ h. (diff_from-zero 0 xs ys (omega arith) bx by (ground arith) (ground arith)).1,
  λ e. rw (← e) (constant_time_eq_refl xs),
)

char_bytes-IsByte : (n : ℕ) → All IsByte (char_bytes n)
char_bytes-IsByte n = ground arith

pub as_bytes-IsByte : (s : String) → All IsByte (as_bytes s)
unfolding as_bytes
as_bytes-IsByte [] = tt
as_bytes-IsByte (c ∷ s) =
    All-append IsByte (char_bytes (code c)) (as_bytes s) (char_bytes-IsByte (code c))
      (as_bytes-IsByte s)
