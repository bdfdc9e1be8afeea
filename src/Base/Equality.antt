-- ===== src/Base/Equality.antt =====
-- The bound `Eq` of Rust, for numbers and for byte strings.
use Prim.Native.Nat.{ℕ, compare, Ordering}
use mathlib.Core.Path.{◌≡◌, refl}
use mathlib.Core.Logic.{◌↔◌, ◌≢◌}
use mathlib.Core.Bool.{Bool, true, false, ◌&&◌}
use mathlib.Core.List.{List, [], ◌∷◌}
use native.Mathlib.Omega.{arith}

pub record Eq {ℓ} (A : Type ℓ) : Type ℓ where
  pub beq : A → A → Bool
  pub beq_iff : (x y : A) → (beq x y ≡ true) ↔ (x ≡ y)

infix 50 ◌==◌
abbrev pub ◌==◌ {ℓ} : {A : Type ℓ} ⦃decider : Eq A⦄ → A → A → Bool
◌==◌ ⦃decider⦄ = decider.beq

abbrev pub nat_beq : ℕ → ℕ → Bool
nat_beq a b = elim (compare a b) [ Ordering.eq ↦ true | _ ↦ false ]

pub nat_beq_iff : (a b : ℕ) → (nat_beq a b ≡ true) ↔ (a ≡ b)
nat_beq_iff a b = ground arith

instance abbrev pub nat_eq : Eq ℕ
nat_eq = record { beq = nat_beq; beq_iff = nat_beq_iff }

module _ {ℓ} {A : Type ℓ} ⦃e : Eq A⦄ where
  unfoldable pub list_beq : List A → List A → Bool
  list_beq [] [] = true
  list_beq (a ∷ s) (b ∷ t) = a == b && list_beq s t
  list_beq _ _ = false

  pub list_beq_refl : (s : List A) → list_beq s s ≡ true
  unfolding list_beq
  list_beq_refl [] = refl
  list_beq_refl (a ∷ s) = ground (arith, (e.beq_iff a a).1 refl, list_beq_refl s)

  pub list_beq_sound : (s t : List A) → list_beq s t ≡ true → s ≡ t
  unfolding list_beq
  list_beq_sound [] [] h = refl
  list_beq_sound [] (b ∷ t) h = cc
  list_beq_sound (a ∷ s) [] h = cc
  list_beq_sound (a ∷ s) (b ∷ t) h = ground (arith, e.beq_iff a b, list_beq_sound s t)

  pub list_beq_iff : (s t : List A) → (list_beq s t ≡ true) ↔ (s ≡ t)
  list_beq_iff s t = (list_beq_sound s t, λ p. rw p (list_beq_refl t))

  instance unfoldable pub list_eq : Eq (List A)
  list_eq = record { beq = list_beq; beq_iff = list_beq_iff }

  pub eq_iff : (a b : A) → ((a == b) ≡ true) ↔ (a ≡ b)
  eq_iff a b = e.beq_iff a b

  pub eq_refl : (a : A) → (a == a) ≡ true
  eq_refl a = (e.beq_iff a a).1 refl

  pub eq_of_ne : (a b : A) → a ≢ b → (a == b) ≡ false
  eq_of_ne a b h = ground (arith, e.beq_iff a b)
