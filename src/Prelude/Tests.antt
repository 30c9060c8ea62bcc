-- ===== src/Prelude/Tests.antt =====
-- Boolean tests on numbers, the conditional, case lemmas, and a result type with `do`.
use Prim.Native.Nat.{ℕ, ◌≤◌, ◌<◌, compare, Ordering}
use mathlib.Core.Path.{◌≡◌, refl}
use mathlib.Core.Logic.{◌↔◌, ◌⊎◌, inl, inr}
use mathlib.Core.Bool.{Bool, true, false, not, ◌&&◌}
use mathlib.Core.Option.{Option, none, some}
use native.Mathlib.Omega.{arith}

abbrev pub ltb : ℕ → ℕ → Bool
ltb a b = elim (compare a b) [ Ordering.lt ↦ true | _ ↦ false ]

abbrev pub leb : ℕ → ℕ → Bool
leb a b = elim (compare a b) [ Ordering.gt ↦ false | _ ↦ true ]

infix 50 ◌==◌
abbrev pub ◌==◌ : ℕ → ℕ → Bool
a == b = elim (compare a b) [ Ordering.eq ↦ true | _ ↦ false ]

infix 1 if◌then◌else◌
abbrev pub if◌then◌else◌ {ℓ} : {A : Type ℓ} → Bool → A → A → A
if true then x else y = x
if false then x else y = y

pub leb→le : (a b : ℕ) → leb a b ≡ true → a ≤ b
leb→le a b h = ground arith

pub ltb→lt : (a b : ℕ) → ltb a b ≡ true → a < b
ltb→lt a b h = ground arith

-- To split on a computed value and keep the equation.
pub Bool-cases : (b : Bool) → (b ≡ true) ⊎ (b ≡ false)
Bool-cases true = inl refl
Bool-cases false = inr refl

pub Option-cases {ℓ} : {A : Type ℓ} (o : Option A) → (o ≡ none) ⊎ ((a : A) × (o ≡ some a))
Option-cases none = inl refl
Option-cases (some a) = inr (a, refl)

pub and-true_iff : (a b : Bool) → ((a && b) ≡ true) ↔ ((a ≡ true) × (b ≡ true))
and-true_iff a b = ground arith

-- Two Boolean tests with the same meaning are one test.
pub eq_of_iff : (a b : Bool) → (a ≡ true → b ≡ true) → (b ≡ true → a ≡ true) → a ≡ b
eq_of_iff a b to from = ground arith

-- `Option::is_some`, `Option::is_none`.
abbrev pub is_some {ℓ} : {A : Type ℓ} → Option A → Bool
is_some none = false
is_some (some a) = true

-- `Option::and_then`.
abbrev pub and_then {ℓ κ} : {A : Type ℓ} {B : Type κ} → Option A → (A → Option B) → Option B
and_then none f = none
and_then (some a) f = f a

-- `Option::map(f).unwrap_or(d)`.
abbrev pub map_or {ℓ κ} : {A : Type ℓ} {B : Type κ} → B → (A → B) → Option A → B
map_or d f none = d
map_or d f (some a) = f a

-- `Option::or_else` and `Option::or`, with the alternative as a value.
abbrev pub or_else {ℓ} : {A : Type ℓ} → Option A → Option A → Option A
or_else none o = o
or_else (some a) o = some a

-- Rust's `Result`.
pub data Result {ℓ κ} (A : Type ℓ) (E : Type κ) : Type (ℓ ⊔ κ) where
  ok : A → Result A E
  err : E → Result A E

infixl 5 ◌>>=◌
abbrev pub ◌>>=◌ {ℓ κ μ} :
    {A : Type ℓ} {B : Type κ} {E : Type μ} → Result A E → (A → Result B E) → Result B E
ok a >>= f = f a
err e >>= f = err e

infixl 5 ◌>>◌
abbrev pub ◌>>◌ {κ μ} : {B : Type κ} {E : Type μ} → Result (Unit {0}) E → Result B E → Result B E
m >> k = m >>= λ _. k

-- `if test { return Err(e) }`.
abbrev pub refuse_if {μ} : {E : Type μ} → Bool → E → Result (Unit {0}) E
refuse_if true e = err e
refuse_if false e = ok tt

-- `Option::ok_or`.
abbrev pub ok_or {ℓ μ} : {A : Type ℓ} {E : Type μ} → Option A → E → Result A E
ok_or none e = err e
ok_or (some a) e = ok a

pub Result-cases {ℓ κ} :
    {A : Type ℓ} {E : Type κ} (r : Result A E) → ((a : A) × (r ≡ ok a)) ⊎ ((e : E) × (r ≡ err e))
Result-cases (ok a) = inl (a, refl)
Result-cases (err e) = inr (e, refl)

-- `Result::map_err`.
abbrev pub map_err {ℓ κ μ} :
    {A : Type ℓ} {E : Type κ} {F : Type μ} → (E → F) → Result A E → Result A F
map_err f (ok a) = ok a
map_err f (err e) = err (f e)

-- `Result::is_ok`.
abbrev pub is_ok {ℓ κ} : {A : Type ℓ} {E : Type κ} → Result A E → Bool
is_ok (ok a) = true
is_ok (err e) = false

pub is_ok-seq {κ μ} :
    {B : Type κ} {E : Type μ} (m : Result (Unit {0}) E) (k : Result B E)
    → is_ok (m >> k) ≡ (is_ok m && is_ok k)
is_ok-seq (ok u) k = refl
is_ok-seq (err e) k = refl

pub is_ok-refuse {μ} : {E : Type μ} (b : Bool) (e : E) → is_ok (refuse_if b e) ≡ not b
is_ok-refuse true e = refl
is_ok-refuse false e = refl

pub is_ok-map {ℓ κ μ} :
    {A : Type ℓ} {B : Type κ} {E : Type μ} (m : Result A E) (f : A → B)
    → is_ok (m >>= λ a. ok (f a)) ≡ is_ok m
is_ok-map (ok a) f = refl
is_ok-map (err e) f = refl
