-- ===== src/Text/Order.antt =====
-- The order of Rust's `str`, and sorted sets of texts (`BTreeSet<String>`) as strictly sorted
-- lists. UTF-8 keeps the order of code points, so bytes are compared through the codes.
pub mod Laws
use Prim.Native.Char.{Char, code}
use Prim.Native.String.{[], ◌∷◌}
use text.Mathlib.TextEquality.{Char-path}
use form_respondent_role.Prelude.{
  String, Bool, true, false, ◌&&◌, ◌||◌, List, [], ◌∷◌, ltb, ◌==◌, if◌then◌else◌, ◌≡◌, ◌≢◌, ◌↔◌,
  ◌⊎◌, refl, sym, ap, inl, inr, arith, str_eq, str_eq_iff, In, any, Bool-cases,
}

pub less : String → String → Bool
less s [] = false
less [] (d ∷ t) = true
less (c ∷ s) (d ∷ t) = ltb (code c) (code d) || code c == code d && less s t

pub less_irrefl : (s : String) → less s s ≡ false
unfolding less
less_irrefl [] = refl
less_irrefl (c ∷ s) = ground (arith, less_irrefl s)

pub less_trans : (s t u : String) → less s t ≡ true → less t u ≡ true → less s u ≡ true
unfolding less
less_trans s t [] p q = cc
less_trans s [] (e ∷ u) p q = cc
less_trans [] (d ∷ t) (e ∷ u) p q = refl
less_trans (c ∷ s) (d ∷ t) (e ∷ u) p q = ground (arith, less_trans s t u)

pub less_total : (s t : String) → less s t ≡ false → less t s ≡ false → s ≡ t
unfolding less
less_total [] [] p q = refl
less_total [] (d ∷ t) p q = cc
less_total (c ∷ s) [] p q = cc
less_total (c ∷ s) (d ∷ t) p q =
    let same : code c ≡ code d = ground arith in
    cc (Char-path c d same, less_total s t (ground arith) (ground arith))

-- Above a text, and strictly sorted.
abbrev pub AllAbove : String → List String → Type 0
AllAbove s [] = Unit
AllAbove s (t ∷ ts) = (less s t ≡ true) × AllAbove s ts

abbrev pub IsSorted : List String → Type 0
IsSorted [] = Unit
IsSorted (s ∷ ss) = AllAbove s ss × IsSorted ss

-- `BTreeSet::insert`, which leaves the set as it is where the text is there.
unfoldable pub insert : String → List String → List String
unfolding less
insert s [] = s ∷ []
insert s (t ∷ ts) = if less s t then s ∷ t ∷ ts else if less t s then t ∷ insert s ts else t ∷ ts

-- `BTreeSet::contains`.
abbrev pub member : String → List String → Bool
member s ss = any (λ t. str_eq t s) ss

-- `sort` of a vector, which keeps equal texts.
unfoldable pub place : String → List String → List String
unfolding less
place s [] = s ∷ []
place s (t ∷ ts) = if less t s then t ∷ place s ts else s ∷ t ∷ ts

unfoldable pub sort : List String → List String
unfolding place
sort [] = []
sort (s ∷ ss) = place s (sort ss)

-- `==` of two vectors.
unfoldable pub texts_eq : List String → List String → Bool
texts_eq [] [] = true
texts_eq (s ∷ ss) (t ∷ ts) = str_eq s t && texts_eq ss ts
texts_eq _ _ = false
