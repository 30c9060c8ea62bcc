-- ===== src/Prelude/Lists.antt =====
-- Lists: the iterator adapters that the program uses, and a membership predicate by recursion.
use Prim.Native.Nat.{ℕ, zero, suc}
use mathlib.Core.Path.{◌≡◌, refl}
use mathlib.Core.Logic.{◌⊎◌, inl, inr, ◌↔◌}
use mathlib.Core.Bool.{Bool, true, false, ◌&&◌, ◌||◌}
use mathlib.Core.List.{List, [], ◌∷◌, ◌++◌}
use mathlib.Core.Option.{Option, none, some}
use native.Mathlib.Omega.{arith}
use form_respondent_role.Prelude.Tests.{if◌then◌else◌, Bool-cases}

module _ {ℓ} {A : Type ℓ} where
  abbrev pub length : List A → ℕ
  length [] = 0
  length (x ∷ xs) = suc (length xs)

  -- `Vec::truncate` keeps the first `n`.
  abbrev pub take : ℕ → List A → List A
  take zero xs = []
  take (suc n) [] = []
  take (suc n) (x ∷ xs) = x ∷ take n xs

  abbrev pub is_nil : List A → Bool
  is_nil [] = true
  is_nil (x ∷ xs) = false

  -- `Iterator::any` and `Iterator::all`.
  abbrev pub any : (A → Bool) → List A → Bool
  any p [] = false
  any p (x ∷ xs) = p x || any p xs

  abbrev pub all : (A → Bool) → List A → Bool
  all p [] = true
  all p (x ∷ xs) = p x && all p xs

  -- `Iterator::filter` and `Iterator::find`.
  abbrev pub keep : (A → Bool) → List A → List A
  keep p [] = []
  keep p (x ∷ xs) = let rest = keep p xs in if p x then x ∷ rest else rest

  abbrev pub find : (A → Bool) → List A → Option A
  find p [] = none
  find p (x ∷ xs) = if p x then some x else find p xs

-- Membership, by recursion: a proposition that the tactics read.
module _ {A : Type 0} where
  abbrev pub In : A → List A → Type 0
  In a [] = ⊥
  In a (x ∷ xs) = (x ≡ a) ⊎ In a xs

  pub In-append : (a : A) (xs ys : List A) → In a (xs ++ ys) ↔ (In a xs ⊎ In a ys)
  In-append a [] ys = (λ h. inr h, elim [ inl h ↦ absurd h | inr h ↦ h ])
  In-append a (x ∷ xs) ys =
      let (to, from) = In-append a xs ys in
      (
        elim [ inl e ↦ inl (inl e) | inr h ↦ elim (to h) [ inl l ↦ inl (inr l) | inr r ↦ inr r ] ],
        elim [
          | inl (inl e) ↦ inl e
          | inl (inr h) ↦ inr (from (inl h))
          | inr h ↦ inr (from (inr h))
        ],
      )

module _ {A : Type 0} (p : A → Bool) where
  pub any_of_In : (a : A) (xs : List A) → In a xs → p a ≡ true → any p xs ≡ true
  any_of_In a [] h q = absurd h
  any_of_In a (x ∷ xs) (inl e) q = ground arith
  any_of_In a (x ∷ xs) (inr h) q = ground (arith, any_of_In a xs h q)

  pub In-of_any : (xs : List A) → any p xs ≡ true → (a : A) × In a xs × (p a ≡ true)
  In-of_any [] h = absurd (cc)
  In-of_any (x ∷ xs) h = elim (Bool-cases (p x)) [
    | inl yes' ↦ (x, inl refl, yes')
    | inr no' ↦ let (a, i, q) = In-of_any xs (ground arith) in (a, inr i, q)
  ]

  pub all_of_In : (a : A) (xs : List A) → all p xs ≡ true → In a xs → p a ≡ true
  all_of_In a [] h i = absurd i
  all_of_In a (x ∷ xs) h (inl e) = ground arith
  all_of_In a (x ∷ xs) h (inr i) = all_of_In a xs (ground arith) i

  pub keep_iff : (a : A) (xs : List A) → In a (keep p xs) ↔ (In a xs × (p a ≡ true))
  keep_iff a [] = (λ h. absurd h, λ h. h.0)
  keep_iff a (x ∷ xs) = grind (arith, keep_iff a xs)

  pub find_sound : (xs : List A) (a : A) → find p xs ≡ some a → In a xs × (p a ≡ true)
  find_sound [] a h = cc
  find_sound (x ∷ xs) a h = elim (Bool-cases (p x)) [
    | inl yes' ↦ (inl (ground arith), ground arith)
    | inr no' ↦ let (i, q) = find_sound xs a (ground arith) in (inr i, q)
  ]

module _ {ℓ} {A : Type ℓ} where
  pub any_congr : (p q : A → Bool) (xs : List A) → ((a : A) → p a ≡ q a) → any p xs ≡ any q xs
  any_congr p q [] h = refl
  any_congr p q (x ∷ xs) h = cc (h x, any_congr p q xs h)

  pub any-false : (xs : List A) → any (λ _. false) xs ≡ false
  any-false [] = refl
  any-false (x ∷ xs) = any-false xs

-- `Iterator::filter_map`.
abbrev pub filter_map {ℓ κ} : {A : Type ℓ} {B : Type κ} → (A → Option B) → List A → List B
filter_map f [] = []
filter_map f (x ∷ xs) = let rest = filter_map f xs in elim (f x) [ none ↦ rest | some b ↦ b ∷ rest ]

-- `Iterator::flat_map`.
abbrev pub flat_map {ℓ κ} : {A : Type ℓ} {B : Type κ} → (A → List B) → List A → List B
flat_map f [] = []
flat_map f (x ∷ xs) = f x ++ flat_map f xs

-- A predicate on every element.
abbrev pub All {ℓ κ} : {A : Type ℓ} → (A → Type κ) → List A → Type κ
All P [] = Unit
All P (x ∷ xs) = P x × All P xs

pub All-of_In {κ} :
    {A : Type 0} (P : A → Type κ) (xs : List A) → ((a : A) → In a xs → P a) → All P xs
All-of_In P [] h = tt
All-of_In P (x ∷ xs) h = (h x (inl refl), All-of_In P xs (λ a i. h a (inr i)))

pub keep-All {ℓ} : {A : Type ℓ} (p : A → Bool) (xs : List A) → All (λ x. p x ≡ true) (keep p xs)
keep-All p [] = tt
keep-All p (x ∷ xs) = ground (arith, keep-All p xs)

pub List-cases {ℓ} :
    {A : Type ℓ} (xs : List A) → (xs ≡ []) ⊎ ((x : A) × (ys : List A) × (xs ≡ x ∷ ys))
List-cases [] = inl refl
List-cases (x ∷ xs) = inr (x, xs, refl)

pub In-of_All {κ} : {A : Type 0} (P : A → Type κ) (a : A) (xs : List A) → In a xs → All P xs → P a
In-of_All P a [] i h = absurd i
In-of_All P a (x ∷ xs) (inl e) (p, ps) = rw (← e) p
In-of_All P a (x ∷ xs) (inr i) (p, ps) = In-of_All P a xs i ps

pub All-append {ℓ κ} :
    {A : Type ℓ} (P : A → Type κ) (xs ys : List A) → All P xs → All P ys → All P (xs ++ ys)
All-append P [] ys p q = q
All-append P (x ∷ xs) ys (a, p) q = (a, All-append P xs ys p q)
