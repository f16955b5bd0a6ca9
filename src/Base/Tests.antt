-- ===== src/Base/Tests.antt =====
-- Boolean tests, the conditional, and equality tests from a decision.
use Prim.Native.Nat.{ℕ, compare, Ordering}
use Prim.Native.Char.{code}
use Prim.Native.String.{String}
use mathlib.Core.Path.{◌≡◌, refl, ap₂}
use mathlib.Core.Logic.{◌⊎◌, inl, inr, ◌↔◌}
use mathlib.Core.Bool.{Bool, true, false}
use mathlib.Core.List.{List, [], ◌∷◌}
use mathlib.Core.Option.{Option, none, some}
use native.Mathlib.Decide.{ℕ_discrete}
use native.Mathlib.Omega.{arith}

abbrev pub ltb : ℕ → ℕ → Bool
ltb a b = elim (compare a b) [ Ordering.lt ↦ true | _ ↦ false ]

abbrev pub leb : ℕ → ℕ → Bool
leb a b = elim (compare a b) [ Ordering.gt ↦ false | _ ↦ true ]

infix 50 ◌==◌
abbrev pub ◌==◌ : ℕ → ℕ → Bool
a == b = elim (compare a b) [ Ordering.eq ↦ true | _ ↦ false ]

infix 1 if◌then◌else◌
abbrev pub if◌then◌else◌ {ℓ} : {A : Type ℓ} → Bool → A → A → A
if true then x else y = x
if false then x else y = y

-- The Boolean of a decision, and the equality test that a decidable equality gives.
abbrev pub holds {ℓ} : {P : Type ℓ} → Dec P → Bool
holds (yes p) = true
holds (no p) = false

abbrev pub eqb {ℓ} : {A : Type ℓ} → Discrete A → A → A → Bool
eqb dec a b = holds (dec a b)

pub eqb_refl {ℓ} : {A : Type ℓ} (dec : Discrete A) (a : A) → eqb dec a a ≡ true
eqb_refl dec a = ground arith

pub ==_iff : (a b : ℕ) → ((a == b) ≡ true) ↔ (a ≡ b)
==_iff a b = ground arith

pub Bool-cases : (b : Bool) → (b ≡ true) ⊎ (b ≡ false)
Bool-cases true = inl refl
Bool-cases false = inr refl

pub Option-cases {ℓ} : {A : Type ℓ} (o : Option A) → (o ≡ none) ⊎ ((a : A) × (o ≡ some a))
Option-cases none = inl refl
Option-cases (some a) = inr (a, refl)

-- `Option::unwrap_or`
abbrev pub unwrap_or {ℓ} : {A : Type ℓ} → Option A → A → A
unwrap_or none d = d
unwrap_or (some a) d = a

-- A text is the list of its bytes; the literals of the program are ASCII.
abbrev pub Text : Type 0
Text = List ℕ

abbrev pub codes : String → Text
codes String.[] = []
codes (String.◌∷◌ c s) = code c ∷ codes s

nil-ne-cons : {y : ℕ} {ys : Text} → ◌≡◌ {A = Text} [] (y ∷ ys) → ⊥
nil-ne-cons e = cc

cons-ne-nil : {y : ℕ} {ys : Text} → ◌≡◌ {A = Text} (y ∷ ys) [] → ⊥
cons-ne-nil e = cc

cons-injective : {x y : ℕ} {xs ys : Text} → x ∷ xs ≡ y ∷ ys → (x ≡ y) × (xs ≡ ys)
cons-injective p = ground arith

unfoldable pub text_dec : Discrete Text
unfolding ℕ_discrete cons-injective nil-ne-cons cons-ne-nil
text_dec [] [] = yes refl
text_dec [] (y ∷ ys) = no (λ e. nil-ne-cons e)
text_dec (x ∷ xs) [] = no (λ e. cons-ne-nil e)
text_dec (x ∷ xs) (y ∷ ys) = elim (ℕ_discrete x y) [
  | no p ↦ no (λ e. p (cons-injective e).0)
  | yes p ↦ elim (text_dec xs ys) [
    | no q ↦ no (λ e. q (cons-injective e).1)
    | yes q ↦ yes (ap₂ ◌∷◌ p q)
  ]
]
