-- ===== src/Text/Fields.antt =====
-- Texts made of fields with a separator between them, and how they split.
use Prim.Native.Char.{Char, code}
use Prim.Native.String
use Prim.Native.String.{[], ◌∷◌}
use text.Mathlib.TextLemmas.{nil-append, cons-append, append_assoc}
use text.Mathlib.TextEquality.{Char-path}
use form_respondent_role.Prelude.{
  ℕ, suc, String, Bool, true, not, List, ◌∷◌, some, ◌==◌, ◌≡◌, refl, arith, ap, sym, ◌∙◌,
  Bool-cases, List-cases, inl, inr,
}
use form_respondent_role.Text.{splitn, strip_prefix, all_char, ◌:+◌}

-- A text without a colon.
abbrev pub is_field : String → Bool
is_field s = all_char (λ n. not (n == b':')) s

-- The fields before the last piece come back one by one.
pub splitn-field :
    (k : ℕ) (a b : String)
    → is_field a ≡ true
    → splitn (suc (suc k)) b':' (a :+ b) ≡ a ∷ splitn (suc k) b':' b
unfolding splitn all_char
splitn-field k [] b h = rw (nil-append (String.◌++◌ ":" b), cons-append ":" "" b, nil-append b) refl
splitn-field k (c ∷ a) b h =
    rw (cons-append c a (String.◌++◌ ":" b)) (ground (arith, splitn-field k a b (ground arith)))

-- What stands after a prefix.
pub strip_prefix-append : (p s : String) → strip_prefix p (String.◌++◌ p s) ≡ some s
unfolding strip_prefix
strip_prefix-append [] s = ap some (nil-append s)
strip_prefix-append (c ∷ p) s = rw (cons-append c p s) (ground (arith, strip_prefix-append p s))

pub field_assoc : (a b c : String) → (a :+ b) :+ c ≡ a :+ b :+ c
field_assoc a b c =
    append_assoc a (String.◌++◌ ":" b) (String.◌++◌ ":" c)
    ∙ ap (String.◌++◌ a) (append_assoc ":" b (String.◌++◌ ":" c))

-- Where the first field is empty, the text begins with the colon.
empty_field : (c : Char) (s : String) → code c ≡ b':' → c ∷ s ≡ "" :+ s
empty_field c s e =
    ap (λ (d : Char). d ∷ s) (Char-path c ":" e)
    ∙ sym (nil-append (String.◌++◌ ":" s) ∙ cons-append ":" "" s ∙ ap (λ t. ":" ∷ t) (nil-append s))

-- The first of several pieces stands before a colon, and the others are the pieces of the rest.
pub splitn-parts :
    (k : ℕ) (s a b : String) (more : List String)
    → splitn (suc (suc k)) b':' s ≡ a ∷ b ∷ more
    → (rest : String) × (s ≡ a :+ rest) × (splitn (suc k) b':' rest ≡ b ∷ more)
unfolding splitn
splitn-parts k [] a b more h = absurd (cc)
splitn-parts k (c ∷ s) a b more h = elim (Bool-cases (code c == b':')) [
  | inl here ↦ (s, empty_field c s (ground arith) ∙ ap (λ t. t :+ s) (ground arith), ground arith)
  | inr later ↦ elim (List-cases (splitn (suc (suc k)) b':' s)) [
    | inl none' ↦ absurd (ground arith)
    | inr (x, xs, e) ↦
        let (rest, q, r) = splitn-parts k s x b more (ground arith) in
        (
          rest,
          ap (λ t. c ∷ t) q
              ∙ sym (cons-append c x (String.◌++◌ ":" rest))
              ∙ ap (λ t. t :+ rest) (ground arith),
          r,
        )
  ]
]

-- `strip_prefix` answers what stands after the prefix.
pub strip_prefix_sound : (p s rest : String) → strip_prefix p s ≡ some rest → s ≡ String.◌++◌ p rest
unfolding strip_prefix
strip_prefix_sound [] s rest h = ground (arith, nil-append rest)
strip_prefix_sound (d ∷ p) [] rest h = absurd (cc)
strip_prefix_sound (d ∷ p) (c ∷ s) rest h =
    let same : s ≡ String.◌++◌ p rest = strip_prefix_sound p s rest (ground arith) in
    let char' : c ≡ d = Char-path c d (ground arith) in rw (cons-append d p rest) (cc (same, char'))
