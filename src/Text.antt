-- ===== src/Text.antt =====
-- The operations of Rust's `str` that the program uses, over native texts: `trim`,
-- `is_empty`, `contains`, `starts_with`, `split` at a character,
-- `to_ascii_lowercase`.
pub mod Decimal
pub mod Order
pub mod Laws
pub mod Fields
use Prim.Native.Char.{Char, code}
use Prim.Native.String
use Prim.Native.String.{[], ◌∷◌}
use form_respondent_role.Prelude.{
  ℕ, zero, suc, ◌+◌, Option, none, some, and_then, or_else, map_or, str_eq, String, Bool, true,
  false, ◌&&◌, ◌||◌, List, [], ◌∷◌, leb, ◌==◌, if◌then◌else◌,
}

-- `char::is_whitespace`: the characters with the Unicode property White_Space.
unfoldable pub is_whitespace : Char → Bool
is_whitespace c =
    let n = code c in
    leb 9 n && leb n 13
    || (n == 32 || n == 133 || n == 160 || n == 5760 || leb 8192 n && leb n 8202)
    || (n == 8232 || n == 8233 || n == 8239 || n == 8287 || n == 12288)

abbrev pub is_empty : String → Bool
is_empty [] = true
is_empty (c ∷ s) = false

unfoldable pub trim_start : String → String
trim_start [] = []
trim_start (c ∷ s) = if is_whitespace c then trim_start s else c ∷ s

unfoldable pub trim_end : String → String
trim_end [] = []
trim_end (c ∷ s) =
    let rest = trim_end s in if is_whitespace c && is_empty rest then [] else c ∷ rest

unfoldable pub trim : String → String
unfolding trim_start trim_end is_whitespace
trim s = trim_end (trim_start s)

-- `s.starts_with(p)`.
unfoldable pub starts_with : String → String → Bool
starts_with s [] = true
starts_with [] (d ∷ p) = false
starts_with (c ∷ s) (d ∷ p) = code c == code d && starts_with s p

-- `s.contains(p)` for a text `p`.
unfoldable pub contains : String → String → Bool
unfolding starts_with
contains [] p = starts_with [] p
contains (c ∷ s) p = starts_with (c ∷ s) p || contains s p

-- `s.split(ch)`: the pieces between the occurrences of the character with the code `n`.
abbrev cons_first : Char → List String → List String
cons_first c [] = (c ∷ []) ∷ []
cons_first c (piece ∷ pieces) = (c ∷ piece) ∷ pieces

unfoldable pub split : ℕ → String → List String
split n [] = [] ∷ []
split n (c ∷ s) = let pieces = split n s in if code c == n then [] ∷ pieces else cons_first c pieces

-- `s.splitn(limit, ch)`: the last piece is the rest of the text.
unfoldable pub splitn : ℕ → ℕ → String → List String
splitn zero n s = []
splitn (suc zero) n s = s ∷ []
splitn (suc (suc limit)) n [] = [] ∷ []
splitn (suc (suc limit)) n (c ∷ s) =
    let rest = splitn (suc limit) n s in
    let same = splitn (suc (suc limit)) n s in if code c == n then [] ∷ rest else cons_first c same

-- `s.strip_prefix(p)`.
unfoldable pub strip_prefix : String → String → Option String
strip_prefix [] s = some s
strip_prefix (d ∷ p) [] = none
strip_prefix (d ∷ p) (c ∷ s) =
    let rest = strip_prefix p s in if code c == code d then rest else none

-- `s.trim_end_matches(ch)`.
unfoldable pub trim_end_matches : ℕ → String → String
trim_end_matches n [] = []
trim_end_matches n (c ∷ s) =
    let rest = trim_end_matches n s in if code c == n && is_empty rest then [] else c ∷ rest

-- `format!("{a}:{b}")`.
infixr 60 ◌:+◌
abbrev pub ◌:+◌ : String → String → String
a :+ b = String.◌++◌ a (String.◌++◌ ":" b)

-- `s.chars().any(p)` and `s.chars().all(p)`.
unfoldable pub any_char : (ℕ → Bool) → String → Bool
any_char p [] = false
any_char p (c ∷ s) = p (code c) || any_char p s

unfoldable pub all_char : (ℕ → Bool) → String → Bool
all_char p [] = true
all_char p (c ∷ s) = p (code c) && all_char p s

-- `char::to_ascii_lowercase`, on codes.
abbrev pub ascii_lower : ℕ → ℕ
ascii_lower n = if leb b'A' n && leb n b'Z' then n + 32 else n

-- `s.to_ascii_lowercase().starts_with(p)`.
unfoldable pub starts_with_lower : String → String → Bool
starts_with_lower s [] = true
starts_with_lower [] (d ∷ p) = false
starts_with_lower (c ∷ s) (d ∷ p) = ascii_lower (code c) == code d && starts_with_lower s p

-- `char::to_ascii_lowercase` and `str::to_ascii_lowercase`.
unfoldable pub lower_char : Char → Char
lower_char c =
    if code c == 65
    then "a"
    else if code c == 66
    then "b"
    else if code c == 67
    then "c"
    else if code c == 68
    then "d"
    else if code c == 69
    then "e"
    else if code c == 70
    then "f"
    else if code c == 71
    then "g"
    else if code c == 72
    then "h"
    else if code c == 73
    then "i"
    else if code c == 74
    then "j"
    else if code c == 75
    then "k"
    else if code c == 76
    then "l"
    else if code c == 77
    then "m"
    else if code c == 78
    then "n"
    else if code c == 79
    then "o"
    else if code c == 80
    then "p"
    else if code c == 81
    then "q"
    else if code c == 82
    then "r"
    else if code c == 83
    then "s"
    else if code c == 84
    then "t"
    else if code c == 85
    then "u"
    else if code c == 86
    then "v"
    else if code c == 87
    then "w"
    else if code c == 88
    then "x"
    else if code c == 89
    then "y"
    else if code c == 90
    then "z"
    else c

unfoldable pub to_ascii_lowercase : String → String
unfolding lower_char
to_ascii_lowercase [] = []
to_ascii_lowercase (c ∷ s) = lower_char c ∷ to_ascii_lowercase s

-- `s.ends_with(p)`.
unfoldable pub ends_with : String → String → Bool
ends_with [] p = is_empty p
ends_with (c ∷ s) p = str_eq (c ∷ s) p || ends_with s p

-- `s.strip_suffix(ch)`.
unfoldable pub strip_last : ℕ → String → Option String
strip_last n [] = none
strip_last n (c ∷ s) =
    let rest = strip_last n s in
    if is_empty s
    then (if code c == n then some [] else none)
    else map_or none (λ t. some (c ∷ t)) rest

-- `s.split(p).nth(1)` for a text `p`: what follows the first `p`, up to the next.
abbrev after_first : String → String → Option String
unfolding strip_prefix
after_first [] p = strip_prefix p []
after_first (c ∷ s) p = or_else (strip_prefix p (c ∷ s)) (after_first s p)

abbrev before_next : String → String → String
unfolding starts_with
before_next [] p = []
before_next (c ∷ s) p = let rest = before_next s p in if starts_with (c ∷ s) p then [] else c ∷ rest

unfoldable pub second_piece : String → String → Option String
unfolding after_first before_next
second_piece s p = and_then (after_first s p) λ rest. some (before_next rest p)

-- `s.chars().take_while(p).collect()`.
unfoldable pub take_while : (ℕ → Bool) → String → String
take_while p [] = []
take_while p (c ∷ s) = let rest = take_while p s in if p (code c) then c ∷ rest else []
