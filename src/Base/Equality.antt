-- ===== src/Base/Equality.antt =====
-- Go's `==` on comparable values, as an interface with an instance for numbers and for lists.
use Prim.Native.Nat.{ℕ}
use mathlib.Core.Path.{◌≡◌, refl}
use mathlib.Core.Logic.{◌↔◌}
use mathlib.Core.Bool.{Bool, true, false, ◌&&◌}
use mathlib.Core.List.{List, [], ◌∷◌}
use native.Mathlib.Omega.{arith}
use cpo.Base.Tests.{nat_beq, nat_beq_iff}

pub record Comparable {ℓ} (X : Type ℓ) : Type ℓ where
  pub same : X → X → Bool
  pub same_iff : (x y : X) → (same x y ≡ true) ↔ (x ≡ y)

instance abbrev pub nat_eq : Comparable ℕ
nat_eq = record { same = nat_beq; same_iff = nat_beq_iff }

infix 50 ◌==◌
abbrev pub ◌==◌ {ℓ} : {X : Type ℓ} ⦃c : Comparable X⦄ → X → X → Bool
◌==◌ ⦃c⦄ x y = c.same x y

module _ {ℓ} {A : Type ℓ} ⦃e : Comparable A⦄ where
  abbrev pub list_beq : List A → List A → Bool
  list_beq [] [] = true
  list_beq [] (y ∷ ys) = false
  list_beq (x ∷ xs) [] = false
  list_beq (x ∷ xs) (y ∷ ys) = e.same x y && list_beq xs ys

  pub list_beq_iff : (xs ys : List A) → (list_beq xs ys ≡ true) ↔ (xs ≡ ys)
  list_beq_iff [] [] = (λ _. refl, λ _. refl)
  list_beq_iff [] (y ∷ ys) = (λ h. cc, λ h. cc)
  list_beq_iff (x ∷ xs) [] = (λ h. cc, λ h. cc)
  list_beq_iff (x ∷ xs) (y ∷ ys) = (
    λ h. ground (arith, e.same_iff x y, list_beq_iff xs ys),
    λ h. ground (arith, e.same_iff x y, list_beq_iff xs ys),
  )

  pub ==_refl : (a : A) → e.same a a ≡ true
  ==_refl a = (e.same_iff a a).1 refl

instance abbrev pub list_eq {ℓ} : {A : Type ℓ} ⦃e : Comparable A⦄ → Comparable (List A)
list_eq = record { same = list_beq; same_iff = list_beq_iff }
