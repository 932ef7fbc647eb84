-- ===== src/Base/Equality.antt =====
-- Python's `==` as an interface: a test with the law that it decides equality.
use Prim.Native.Nat.{ℕ}
use mathlib.Core.Path.{◌≡◌, refl}
use mathlib.Core.Logic.{◌↔◌}
use mathlib.Core.Bool.{Bool, true, false, ◌&&◌}
use mathlib.Core.Option.{Option, none, some}
use mathlib.Core.List.{List, [], ◌∷◌}
use native.Mathlib.Omega.{arith}
use pearlarr.Base.Tests.{nat_eqb, nat_eqb_iff}

pub record Eq {ℓ} (A : Type ℓ) : Type ℓ where
  pub same : A → A → Bool
  pub same_iff : (a b : A) → (same a b ≡ true) ↔ (a ≡ b)

infix 50 ◌==◌
abbrev pub ◌==◌ {ℓ} : {A : Type ℓ} ⦃e : Eq A⦄ → A → A → Bool
◌==◌ ⦃e⦄ = e.same

module _ {ℓ} {A : Type ℓ} ⦃e : Eq A⦄ where
  pub ==_refl : (a : A) → (a == a) ≡ true
  ==_refl a = (e.same_iff a a).1 refl

  pub eq_of_== : (a b : A) → (a == b) ≡ true → a ≡ b
  eq_of_== a b = (e.same_iff a b).0

  abbrev option_same : Option A → Option A → Bool
  option_same none none = true
  option_same (some a) (some b) = e.same a b
  option_same _ _ = false

  pub option_same_iff : (a b : Option A) → (option_same a b ≡ true) ↔ (a ≡ b)
  option_same_iff none none = ((λ _. refl), (λ _. refl))
  option_same_iff none (some b) = ((λ h. cc), (λ h. cc))
  option_same_iff (some a) none = ((λ h. cc), (λ h. cc))
  option_same_iff (some a) (some b) = ground (arith, e.same_iff a b)

  abbrev list_same : List A → List A → Bool
  list_same [] [] = true
  list_same (a ∷ xs) (b ∷ ys) = e.same a b && list_same xs ys
  list_same _ _ = false

  pub list_same_iff : (a b : List A) → (list_same a b ≡ true) ↔ (a ≡ b)
  list_same_iff [] [] = ((λ _. refl), (λ _. refl))
  list_same_iff [] (b ∷ ys) = ((λ h. cc), (λ h. cc))
  list_same_iff (a ∷ xs) [] = ((λ h. cc), (λ h. cc))
  list_same_iff (a ∷ xs) (b ∷ ys) = ground (arith, e.same_iff a b, list_same_iff xs ys)

module _ {ℓ κ} {A : Type ℓ} {B : Type κ} ⦃e : Eq A⦄ ⦃f : Eq B⦄ where
  abbrev pair_same : A × B → A × B → Bool
  pair_same (a, b) (a', b') = e.same a a' && f.same b b'

  pub pair_same_iff : (p q : A × B) → (pair_same p q ≡ true) ↔ (p ≡ q)
  pair_same_iff (a, b) (a', b') = ground (arith, e.same_iff a a', f.same_iff b b')

instance abbrev pub nat_eq : Eq ℕ
nat_eq = record { same = nat_eqb; same_iff = nat_eqb_iff }

instance abbrev pub option_eq {ℓ} : {A : Type ℓ} ⦃e : Eq A⦄ → Eq (Option A)
option_eq = record { same = option_same; same_iff = option_same_iff }

instance abbrev pub list_eq {ℓ} : {A : Type ℓ} ⦃e : Eq A⦄ → Eq (List A)
list_eq = record { same = list_same; same_iff = list_same_iff }

instance abbrev pub pair_eq {ℓ κ} : {A : Type ℓ} {B : Type κ} ⦃e : Eq A⦄ ⦃f : Eq B⦄ → Eq (A × B)
pair_eq = record { same = pair_same; same_iff = pair_same_iff }
