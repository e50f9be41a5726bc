-- ===== src/Prelude/Eq.antt =====
-- Boolean equality as an instance, with what it decides: for numbers and for lists (so for names,
-- which are lists of bytes).
use mathlib.Core.Path.{◌≡◌, refl, ap₂}
use mathlib.Core.Logic.{◌↔◌, ◌≢◌}
use mathlib.Core.Bool.{Bool, true, false, ◌&&◌}
use mathlib.Core.List.{List, [], ◌∷◌}
use native.Mathlib.Omega.{arith}
use Prim.Native.Nat.{ℕ}
use shadow_dns.Prelude.Tests.{◌==◌, ==_iff, &&-true}

pub record Equality {ℓ} (A : Type ℓ) : Type ℓ where
  pub eqb : A → A → Bool
  pub eqb_iff : (a b : A) → (eqb a b ≡ true) ↔ (a ≡ b)

instance abbrev pub nat_eq : Equality ℕ
nat_eq = record { eqb = ◌==◌; eqb_iff = ==_iff }

infix 50 ◌=?◌
abbrev pub ◌=?◌ {ℓ} : {A : Type ℓ} ⦃e : Equality A⦄ → A → A → Bool
◌=?◌ ⦃e⦄ = e.eqb

module _ {ℓ} {A : Type ℓ} ⦃e : Equality A⦄ where
  pub =?-true : (a b : A) → (a =? b) ≡ true → a ≡ b
  =?-true a b = (e.eqb_iff a b).0

  pub =?-refl : (a : A) → (a =? a) ≡ true
  =?-refl a = (e.eqb_iff a a).1 refl

  pub =?-ne : (a b : A) → a ≢ b → (a =? b) ≡ false
  =?-ne a b h = ground (arith, =?-true a b)

  abbrev pub list_eqb : List A → List A → Bool
  list_eqb [] [] = true
  list_eqb [] (y ∷ ys) = false
  list_eqb (x ∷ xs) [] = false
  list_eqb (x ∷ xs) (y ∷ ys) = (x =? y) && list_eqb xs ys

  list_eqb_refl : (xs : List A) → list_eqb xs xs ≡ true
  list_eqb_refl [] = refl
  list_eqb_refl (x ∷ xs) = ground (arith, =?-refl x, list_eqb_refl xs)

  list_eqb-eq : (xs ys : List A) → list_eqb xs ys ≡ true → xs ≡ ys
  list_eqb-eq [] [] h = refl
  list_eqb-eq [] (y ∷ ys) h = cc
  list_eqb-eq (x ∷ xs) [] h = cc
  list_eqb-eq (x ∷ xs) (y ∷ ys) h =
      let t = &&-true _ _ h in ap₂ ◌∷◌ (=?-true x y t.0) (list_eqb-eq xs ys t.1)

  pub list_eqb_iff : (xs ys : List A) → (list_eqb xs ys ≡ true) ↔ (xs ≡ ys)
  list_eqb_iff xs ys = (list_eqb-eq xs ys, λ p. subst_eq xs ys p)
    where
      subst_eq : (us vs : List A) → us ≡ vs → list_eqb us vs ≡ true
      subst_eq us vs p = rw (← p) (list_eqb_refl us)

instance abbrev pub list_eq {ℓ} : {A : Type ℓ} ⦃e : Equality A⦄ → Equality (List A)
list_eq = record { eqb = list_eqb; eqb_iff = list_eqb_iff }
