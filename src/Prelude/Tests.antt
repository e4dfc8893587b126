-- ===== src/Prelude/Tests.antt =====
-- Boolean tests, the conditional and decidable equality as an instance.
use Prim.Native.Nat.{ℕ, compare, Ordering}
use mathlib.Core.Path.{◌≡◌, refl}
use mathlib.Core.Logic.{◌↔◌, ◌⊎◌, ◌≢◌, inl, inr}
use mathlib.Core.Bool.{Bool, true, false, ◌&&◌}
use mathlib.Core.Option.{Option, none, some}
use native.Mathlib.Omega.{arith}

abbrev pub ltb : ℕ → ℕ → Bool
ltb a b = elim (compare a b) [ Ordering.lt ↦ true | _ ↦ false ]

abbrev pub leb : ℕ → ℕ → Bool
leb a b = elim (compare a b) [ Ordering.gt ↦ false | _ ↦ true ]

abbrev pub nat_beq : ℕ → ℕ → Bool
nat_beq a b = elim (compare a b) [ Ordering.eq ↦ true | _ ↦ false ]

infix 1 if◌then◌else◌
abbrev pub if◌then◌else◌ {ℓ} : {A : Type ℓ} → Bool → A → A → A
if true then x else y = x
if false then x else y = y

pub nat_beq_iff : (a b : ℕ) → (nat_beq a b ≡ true) ↔ (a ≡ b)
nat_beq_iff a b = ground arith

-- To split on a computed value and keep the equation.
pub Bool-cases : (b : Bool) → (b ≡ true) ⊎ (b ≡ false)
Bool-cases true = inl refl
Bool-cases false = inr refl

pub Option-cases {ℓ} : {A : Type ℓ} (o : Option A) → (o ≡ none) ⊎ ((a : A) × (o ≡ some a))
Option-cases none = inl refl
Option-cases (some a) = inr (a, refl)

-- Keys of dictionaries: types with a test that decides equality.
pub record Comparable {ℓ} (A : Type ℓ) : Type ℓ where
  pub test : A → A → Bool
  pub test_iff : (x y : A) → (test x y ≡ true) ↔ (x ≡ y)

instance abbrev pub nat_eq : Comparable ℕ
nat_eq = record { test = nat_beq; test_iff = nat_beq_iff }

infix 50 ◌==◌
abbrev pub ◌==◌ {ℓ} : {A : Type ℓ} ⦃key : Comparable A⦄ → A → A → Bool
◌==◌ ⦃key⦄ x y = key.test x y

module _ {ℓ} {A : Type ℓ} ⦃e : Comparable A⦄ where
  pub ==_iff : (a b : A) → ((a == b) ≡ true) ↔ (a ≡ b)
  ==_iff a b = e.test_iff a b

  pub ==_self : (a : A) → (a == a) ≡ true
  ==_self a = (e.test_iff a a).1 refl

  pub ==_ne : (a b : A) → a ≢ b → (a == b) ≡ false
  ==_ne a b h = elim (Bool-cases (e.test a b)) [
    | inl same ↦ absurd (h ((e.test_iff a b).0 same))
    | inr other ↦ other
  ]

abbrev pub pair_beq {ℓ} :
    {A B : Type ℓ} ⦃ea : Comparable A⦄ ⦃eb : Comparable B⦄ → A × B → A × B → Bool
pair_beq ⦃ea⦄ ⦃eb⦄ p q = ea.test p.0 q.0 && eb.test p.1 q.1

pub pair_beq_iff {ℓ} :
    {A B : Type ℓ} ⦃ea : Comparable A⦄ ⦃eb : Comparable B⦄ (p q : A × B)
    → (pair_beq p q ≡ true) ↔ (p ≡ q)
pair_beq_iff ⦃ea⦄ ⦃eb⦄ (a, b) (c, d) = ground (arith, ea.test_iff a c, eb.test_iff b d)

instance abbrev pub pair_eq {ℓ} :
    {A B : Type ℓ} ⦃ea : Comparable A⦄ ⦃eb : Comparable B⦄ → Comparable (A × B)
pair_eq ⦃ea⦄ ⦃eb⦄ = record { test = pair_beq; test_iff = pair_beq_iff }
