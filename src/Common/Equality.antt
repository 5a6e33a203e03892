-- ===== src/Common/Equality.antt =====
-- `===` and `includes`: decidable equality as an instance.
use Prim.Native.Nat.{ℕ}
use Prim.Native.String.{String}
use mathlib.Core.Path.{◌≡◌, refl}
use mathlib.Core.Logic.{◌≢◌, ◌↔◌, inl, inr}
use mathlib.Core.Bool.{Bool, true, false, not, ◌&&◌, ◌||◌}
use mathlib.Core.Option.{Option, none, some}
use mathlib.Core.List.{List, [], ◌∷◌, ◌++◌}
use native.Mathlib.Omega.{arith}
use text.Mathlib.Text.{◌==◌ as text_same}
use text.Mathlib.TextEquality.{eq_iff}
use sih26_proto.Common.Tests.{Bool-cases, nat_beq, nat_beq_iff, not-eq-false, if◌then◌else◌}

pub record Eq {κ} (X : Type κ) : Type κ where
  pub same_as : (x y : X) → Bool
  pub same_iff : (x y : X) → (same_as x y ≡ true) ↔ (x ≡ y)

infix 50 ◌==◌ ◌!=◌
abbrev pub ◌==◌ {κ} : {X : Type κ} ⦃q : Eq X⦄ → (x y : X) → Bool
◌==◌ ⦃q⦄ x y = q.same_as x y

abbrev pub ◌!=◌ {ℓ} : {A : Type ℓ} ⦃e : Eq A⦄ → A → A → Bool
◌!=◌ ⦃e⦄ a b = not (e.same_as a b)

instance abbrev pub nat_eq : Eq ℕ
nat_eq = record { same_iff = nat_beq_iff; same_as = nat_beq }

instance abbrev pub string_eq : Eq String
string_eq = record { same_iff = eq_iff; same_as = text_same }

module _ {ℓ} {A : Type ℓ} ⦃e : Eq A⦄ where
  abbrev pub option_beq : Option A → Option A → Bool
  option_beq none none = true
  option_beq none (some _) = false
  option_beq (some _) none = false
  option_beq (some a) (some b) = e.same_as a b

  pub option_beq_iff : (a b : Option A) → (option_beq a b ≡ true) ↔ (a ≡ b)
  option_beq_iff none none = ground arith
  option_beq_iff none (some b) = ground arith
  option_beq_iff (some a) none = ground arith
  option_beq_iff (some a) (some b) = ground (arith, e.same_iff a b)

  instance abbrev pub option_eq : Eq (Option A)
  option_eq = record { same_as = option_beq; same_iff = option_beq_iff }

  abbrev pub list_beq : List A → List A → Bool
  list_beq [] [] = true
  list_beq [] (y ∷ ys) = false
  list_beq (x ∷ xs) [] = false
  list_beq (x ∷ xs) (y ∷ ys) = e.same_as x y && list_beq xs ys

  pub list_beq_iff : (xs ys : List A) → (list_beq xs ys ≡ true) ↔ (xs ≡ ys)
  list_beq_iff [] [] = ground arith
  list_beq_iff [] (y ∷ ys) = ground arith
  list_beq_iff (x ∷ xs) [] = ground arith
  list_beq_iff (x ∷ xs) (y ∷ ys) = ground (arith, e.same_iff x y, list_beq_iff xs ys)

  instance abbrev pub list_eq : Eq (List A)
  list_eq = record { same_as = list_beq; same_iff = list_beq_iff }

  abbrev pub includes : List A → A → Bool
  includes [] a = false
  includes (x ∷ xs) a = e.same_as x a || includes xs a

  pub beq_refl : (a : A) → e.same_as a a ≡ true
  beq_refl a = (e.same_iff a a).1 refl

  pub eq_of_beq : (a b : A) → e.same_as a b ≡ true → a ≡ b
  eq_of_beq a b = (e.same_iff a b).0

  pub eq_of_bne : (a b : A) → not (e.same_as a b) ≡ false → a ≡ b
  eq_of_bne a b h = eq_of_beq a b (not-eq-false _ h)

  pub ne_of_beq : (a b : A) → e.same_as a b ≡ false → a ≢ b
  ne_of_beq a b h p = cc (h, (e.same_iff a b).1 p)

  pub beq_of_ne : (a b : A) → a ≢ b → e.same_as a b ≡ false
  beq_of_ne a b ne = elim (Bool-cases (e.same_as a b)) [
    | inl same ↦ absurd (ne (eq_of_beq a b same))
    | inr other ↦ other
  ]

  -- `Set.add`, with the members in the order in which they came.
  abbrev pub set_add : List A → A → List A
  set_add xs a = if includes xs a then xs else xs ++ a ∷ []

  pub includes-append :
      (xs ys : List A) (a : A) → includes (xs ++ ys) a ≡ (includes xs a || includes ys a)
  includes-append [] ys a = refl
  includes-append (x ∷ xs) ys a = ground (arith, includes-append xs ys a)

  pub includes-set_add_self : (xs : List A) (a : A) → includes (set_add xs a) a ≡ true
  includes-set_add_self xs a = ground (arith, includes-append xs (a ∷ []) a, beq_refl a)
