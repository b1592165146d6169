-- ===== src/Prelude/Tests.antt =====
-- Boolean tests on the native numbers, the conditional, and case splits that keep the equation.
use Prim.Native.Nat.{ℕ, ◌≤◌, compare, Ordering}
use mathlib.Core.Path.{◌≡◌, refl}
use mathlib.Core.Logic.{◌↔◌, ◌⊎◌, inl, inr}
use mathlib.Core.Bool.{Bool, true, false}
use mathlib.Core.Option.{Option, none, some}
use native.Mathlib.Omega.{arith}

abbrev pub ltb : ℕ → ℕ → Bool
ltb a b = elim (compare a b) [ Ordering.lt ↦ true | _ ↦ false ]

abbrev pub leb : ℕ → ℕ → Bool
leb a b = elim (compare a b) [ Ordering.gt ↦ false | _ ↦ true ]

infix 50 ◌==◌
abbrev pub ◌==◌ : ℕ → ℕ → Bool
a == b = elim (compare a b) [ Ordering.eq ↦ true | _ ↦ false ]

infix 1 if◌then◌else◌
abbrev pub if◌then◌else◌ {ℓ} : {A : Type ℓ} → Bool → A → A → A
if true then x else y = x
if false then x else y = y

pub leb→le : (a b : ℕ) → leb a b ≡ true → a ≤ b
leb→le a b h = ground arith

pub ==_iff : (a b : ℕ) → ((a == b) ≡ true) ↔ (a ≡ b)
==_iff a b = ground arith

pub ==_refl : (a : ℕ) → (a == a) ≡ true
==_refl a = ground arith

pub Bool-cases : (b : Bool) → (b ≡ true) ⊎ (b ≡ false)
Bool-cases true = inl refl
Bool-cases false = inr refl

pub Option-cases {ℓ} : {A : Type ℓ} (o : Option A) → (o ≡ none) ⊎ ((a : A) × (o ≡ some a))
Option-cases none = inl refl
Option-cases (some a) = inr (a, refl)

pub Bool-no_conf : {b : Bool} → b ≡ true → b ≡ false → ⊥
Bool-no_conf p q = cc

-- `==` on a type with decidable equality.
abbrev pub eqb {ℓ} : {A : Type ℓ} → Discrete A → A → A → Bool
eqb d a b = elim (d a b) [ yes p ↦ true | no n ↦ false ]

Dec-iff {ℓ} :
    {P : Type ℓ} (d : Dec P) → (elim d as (λ _. Bool) [ yes p ↦ true | no n ↦ false ] ≡ true) ↔ P
Dec-iff (yes p) = (λ _. p, λ _. refl)
Dec-iff (no n) = (λ e. cc, λ p. absurd (n p))

pub eqb_iff {ℓ} : {A : Type ℓ} (d : Discrete A) (a b : A) → (eqb d a b ≡ true) ↔ (a ≡ b)
eqb_iff d a b = Dec-iff (d a b)

pub eqb_refl {ℓ} : {A : Type ℓ} (d : Discrete A) (a : A) → eqb d a a ≡ true
eqb_refl d a = (eqb_iff d a a).1 refl
