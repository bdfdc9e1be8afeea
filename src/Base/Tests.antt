-- ===== src/Base/Tests.antt =====
-- Boolean tests on the native numbers, the conditional, and the outcomes of Rust code.
use Prim.Native.Nat.{ℕ, compare, Ordering}
use mathlib.Core.Path.{◌≡◌, refl}
use mathlib.Core.Logic.{◌⊎◌, inl, inr}
use mathlib.Core.Bool.{Bool, true, false}
use mathlib.Core.Option.{Option, none, some}

abbrev pub ltb : ℕ → ℕ → Bool
ltb a b = elim (compare a b) [ Ordering.lt ↦ true | _ ↦ false ]

abbrev pub leb : ℕ → ℕ → Bool
leb a b = elim (compare a b) [ Ordering.gt ↦ false | _ ↦ true ]

infix 1 if◌then◌else◌
abbrev pub if◌then◌else◌ {ℓ} : {A : Type ℓ} → Bool → A → A → A
if true then x else y = x
if false then x else y = y

-- To split on a computed value and keep the equation.
pub Bool-cases : (b : Bool) → (b ≡ true) ⊎ (b ≡ false)
Bool-cases true = inl refl
Bool-cases false = inr refl

pub Option-cases {ℓ} : {A : Type ℓ} (o : Option A) → (o ≡ none) ⊎ ((a : A) × (o ≡ some a))
Option-cases none = inl refl
Option-cases (some a) = inr (a, refl)

abbrev pub is_some {ℓ} : {A : Type ℓ} → Option A → Bool
is_some none = false
is_some (some a) = true

-- `Result<A, E>`
pub data Result {ℓ κ} (A : Type ℓ) (E : Type κ) : Type (ℓ ⊔ κ) where
  ok : A → Result A E
  err : E → Result A E

-- A call that may panic.
pub data Outcome {ℓ} (A : Type ℓ) : Type ℓ where
  returned : A → Outcome A
  panicked : Outcome A

infixl 5 ◌>>=◌
abbrev pub ◌>>=◌ {ℓ κ} : {A : Type ℓ} {B : Type κ} → Outcome A → (A → Outcome B) → Outcome B
returned a >>= f = f a
panicked >>= f = panicked

-- `unwrap` panics on an error.
abbrev pub unwrap {ℓ κ} : {A : Type ℓ} {E : Type κ} → Result A E → Outcome A
unwrap (ok a) = returned a
unwrap (err e) = panicked

abbrev pub unwrap_option {ℓ} : {A : Type ℓ} → Option A → Outcome A
unwrap_option (some a) = returned a
unwrap_option none = panicked

-- The call returns, with a result that has the property.
abbrev pub Returns {ℓ} : {A : Type ℓ} → (A → Type 0) → Outcome A → Type 0
Returns P (returned a) = P a
Returns P panicked = ⊥

pub Returns-bind {ℓ κ} :
    {A : Type ℓ} {B : Type κ} {P : A → Type 0} (Q : B → Type 0) (f : A → Outcome B) (m : Outcome A)
    → Returns P m
    → ((a : A) → P a → Returns Q (f a))
    → Returns Q (m >>= f)
Returns-bind Q f (returned a) h k = k a h
Returns-bind Q f panicked h k = elim h [ ]

pub Returns-result {ℓ} :
    {A : Type ℓ} (P : A → Type 0) (m : Outcome A) → Returns P m → (a : A) × (m ≡ returned a) × P a
Returns-result P (returned a) h = (a, refl, h)
Returns-result P panicked h = elim h [ ]
