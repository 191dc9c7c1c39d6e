-- ===== src/Prelude/Classes.antt =====
-- Equality tests as an interface: numbers, lists and pairs.
use Prim.Native.Nat.{ℕ}
use mathlib.Core.Path.{◌≡◌, refl}
use mathlib.Core.Logic.{◌↔◌, ◌≢◌, inl, inr}
use mathlib.Core.Bool.{Bool, true, false, ◌&&◌}
use mathlib.Core.List.{List, [], ◌∷◌}
use native.Mathlib.Omega.{arith}
use tldr_tv.Prelude.Tests.{nat_beq, nat_beq_iff, Bool-cases}

pub record Eq {ℓ} (A : Type ℓ) : Type ℓ where
  pub test : A → A → Bool
  pub decides : (a b : A) → (test a b ≡ true) ↔ (a ≡ b)

abbrev pub list_beq {ℓ} : {A : Type ℓ} → (A → A → Bool) → List A → List A → Bool
list_beq f [] [] = true
list_beq f [] (y ∷ ys) = false
list_beq f (x ∷ xs) [] = false
list_beq f (x ∷ xs) (y ∷ ys) = f x y && list_beq f xs ys

infix 50 ◌==◌
abbrev pub ◌==◌ {ℓ} : {A : Type ℓ} ⦃e : Eq A⦄ → A → A → Bool
◌==◌ ⦃e⦄ = e.test

pub ==_iff {ℓ} : {A : Type ℓ} ⦃e : Eq A⦄ (a b : A) → (a == b ≡ true) ↔ (a ≡ b)
==_iff ⦃e⦄ a b = e.decides a b

pub ==_refl {ℓ} : {A : Type ℓ} ⦃e : Eq A⦄ (a : A) → (a == a) ≡ true
==_refl ⦃e⦄ a = (e.decides a a).1 refl

pub ==_ne {ℓ} : {A : Type ℓ} ⦃e : Eq A⦄ (a b : A) → a ≢ b → (a == b) ≡ false
==_ne ⦃e⦄ a b h = elim (Bool-cases (e.test a b)) [
  | inl p ↦ absurd (h ((e.decides a b).0 p))
  | inr p ↦ p
]

instance abbrev pub nat_eq : Eq ℕ
nat_eq = record { decides = nat_beq_iff; test = nat_beq }

pub list_beq_iff {ℓ} :
    {A : Type ℓ} (e : Eq A) (xs ys : List A) → (list_beq e.test xs ys ≡ true) ↔ (xs ≡ ys)
list_beq_iff e [] [] = (λ _. refl, λ _. refl)
list_beq_iff e [] (y ∷ ys) = (λ h. cc, λ h. cc)
list_beq_iff e (x ∷ xs) [] = (λ h. cc, λ h. cc)
list_beq_iff e (x ∷ xs) (y ∷ ys) = ground (arith, e.decides x y, list_beq_iff e xs ys)

instance abbrev pub list_eq {ℓ} : {A : Type ℓ} ⦃e : Eq A⦄ → Eq (List A)
list_eq ⦃e⦄ = record { test = list_beq e.test; decides = list_beq_iff e }

abbrev pub pair_beq {ℓ κ} :
    {A : Type ℓ} {B : Type κ} → (A → A → Bool) → (B → B → Bool) → A × B → A × B → Bool
pair_beq f g (a, b) (c, d) = f a c && g b d

pub pair_beq_iff {ℓ κ} :
    {A : Type ℓ} {B : Type κ} (e : Eq A) (g : Eq B) (p q : A × B)
    → (pair_beq e.test g.test p q ≡ true) ↔ (p ≡ q)
pair_beq_iff e g (a, b) (c, d) = ground (arith, e.decides a c, g.decides b d)

instance abbrev pub pair_eq {ℓ κ} : {A : Type ℓ} {B : Type κ} ⦃e : Eq A⦄ ⦃g : Eq B⦄ → Eq (A × B)
pair_eq ⦃e⦄ ⦃g⦄ = record { test = pair_beq e.test g.test; decides = pair_beq_iff e g }
