-- ===== src/Base/Equality.antt =====
-- Types whose values the source compares with `==`, or takes as keys of a map.
use Prim.Native.Nat.{ℕ}
use mathlib.Core.Path.{◌≡◌, refl}
use mathlib.Core.Logic.{◌↔◌}
use mathlib.Core.Bool.{Bool, true, false, ◌&&◌}
use mathlib.Core.List.{List, [], ◌∷◌}
use native.Mathlib.Omega.{arith}
use sql_engine.Base.Tests.{◌==◌ as nat_beq, ==_iff}
use sql_engine.Base.Int.{ℤ, eq_ℤ, eq_ℤ_iff}

-- A test on two keys, which holds exactly of equal ones.
pub record Eq {ℓ} (Key : Type ℓ) : Type ℓ where
  pub beq : (k j : Key) → Bool
  pub beq_iff : (k j : Key) → (beq k j ≡ true) ↔ (k ≡ j)

infix 50 ◌==◌
-- The test as an operator.
abbrev pub ◌==◌ {ℓ} : {Key : Type ℓ} ⦃keys : Eq Key⦄ → Key → Key → Bool
◌==◌ ⦃keys⦄ = keys.beq

pub eq_self {ℓ} : {Key : Type ℓ} ⦃keys : Eq Key⦄ (k : Key) → (k == k) ≡ true
eq_self ⦃keys⦄ k = (keys.beq_iff k k).1 refl

instance abbrev pub int_eq : Eq ℤ
int_eq = record { beq = eq_ℤ; beq_iff = eq_ℤ_iff }

abbrev pub list_beq : List ℕ → List ℕ → Bool
list_beq [] [] = true
list_beq [] (y ∷ ys) = false
list_beq (x ∷ xs) [] = false
list_beq (x ∷ xs) (y ∷ ys) = nat_beq x y && list_beq xs ys

pub list_beq_iff : (xs ys : List ℕ) → (list_beq xs ys ≡ true) ↔ (xs ≡ ys)
list_beq_iff [] [] = ground arith
list_beq_iff [] (y ∷ ys) = ground arith
list_beq_iff (x ∷ xs) [] = ground arith
list_beq_iff (x ∷ xs) (y ∷ ys) = ground (arith, list_beq_iff xs ys)

instance abbrev pub text_eq : Eq (List ℕ)
text_eq = record { beq = list_beq; beq_iff = list_beq_iff }

instance abbrev pub nat_eq : Eq ℕ
nat_eq = record { beq = nat_beq; beq_iff = ==_iff }
