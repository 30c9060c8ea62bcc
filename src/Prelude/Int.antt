-- ===== src/Prelude/Int.antt =====
-- Signed integers over the native numbers: `i32`, `i64` and their saturating operations.
use Prim.Native.Nat.{ℕ, suc, ◌+◌, ◌-◌, ◌*◌, ◌≤◌, ◌<◌}
use mathlib.Core.Bool.{Bool, ◌&&◌}
use form_respondent_role.Prelude.Tests.{ltb, leb, if◌then◌else◌}

-- `negsuc n` is -(n + 1).
pub data ℤ : Type 0 where
  pos : ℕ → ℤ
  negsuc : ℕ → ℤ

abbrev pub pos_part : ℤ → ℕ
pos_part (pos n) = n
pos_part (negsuc n) = 0

abbrev pub neg_part : ℤ → ℕ
neg_part (pos n) = 0
neg_part (negsuc n) = suc n

-- a - b, as an integer.
abbrev pub sub_ℕ : ℕ → ℕ → ℤ
sub_ℕ a b = if leb b a then pos (a - b) else negsuc (b - a - 1)

infixl 65 ◌+ℤ◌
infix 50 ◌≤ℤ◌ ◌<ℤ◌
unfoldable pub ◌+ℤ◌ : ℤ → ℤ → ℤ
a +ℤ b = sub_ℕ (pos_part a + pos_part b) (neg_part a + neg_part b)

abbrev pub ◌≤ℤ◌ : ℤ → ℤ → Type 0
a ≤ℤ b = pos_part a + neg_part b ≤ pos_part b + neg_part a

abbrev pub ◌<ℤ◌ : ℤ → ℤ → Type 0
a <ℤ b = pos_part a + neg_part b < pos_part b + neg_part a

abbrev pub ltb_ℤ : ℤ → ℤ → Bool
ltb_ℤ a b = ltb (pos_part a + neg_part b) (pos_part b + neg_part a)

abbrev pub leb_ℤ : ℤ → ℤ → Bool
leb_ℤ a b = leb (pos_part a + neg_part b) (pos_part b + neg_part a)

abbrev pub eqb_ℤ : ℤ → ℤ → Bool
eqb_ℤ a b = leb_ℤ a b && leb_ℤ b a

-- a - b and -n.
abbrev pub neg_ℕ : ℕ → ℤ
neg_ℕ n = sub_ℕ 0 n

infixl 65 ◌-ℤ◌
abbrev pub ◌-ℤ◌ : ℤ → ℤ → ℤ
a -ℤ b = sub_ℕ (pos_part a + neg_part b) (pos_part b + neg_part a)

-- The greatest `i32`.
abbrev pub i32_max : ℕ
i32_max = 2147483647

-- `i32::saturating_add`.
unfoldable pub saturating_add : ℤ → ℤ → ℤ
unfolding ◌+ℤ◌
saturating_add a b =
    let s = a +ℤ b in
    if ltb i32_max (pos_part s)
    then pos i32_max
    else if ltb (i32_max + 1) (neg_part s)
    then negsuc i32_max
    else s

abbrev pub max_ℤ : ℤ → ℤ → ℤ
max_ℤ a b = if ltb_ℤ b a then a else b

abbrev greatest_i64 : ℕ
greatest_i64 = 9223372036854775807

-- `a + b` of `i64` in a release build, which wraps.
unfoldable pub add_i64 : ℤ → ℤ → ℤ
unfolding ◌+ℤ◌
add_i64 a b =
    let s = a +ℤ b in
    if ltb greatest_i64 (pos_part s)
    then s +ℤ negsuc (2 * greatest_i64 + 1)
    else if ltb (greatest_i64 + 1) (neg_part s)
    then s +ℤ pos (2 * greatest_i64 + 2)
    else s
