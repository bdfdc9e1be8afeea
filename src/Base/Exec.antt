-- ===== src/Base/Exec.antt =====
-- Code that changes a state and may panic. What was written before a panic stays written, so the
-- state comes back beside the panic too.
use c5store.Base.Tests.{Outcome, returned, panicked}

abbrev pub Exec : Type 0 → Type 0 → Type 0
Exec S A = S → Outcome A × S

module _ {S A : Type 0} where
  abbrev pub pure : A → Exec S A
  pure a s = (returned a, s)

  abbrev pub panic : Exec S A
  panic s = (panicked, s)

  abbrev pub lift : Outcome A → Exec S A
  lift o s = (o, s)

module _ {S A B : Type 0} where
  abbrev pub continue : Outcome A → (A → Exec S B) → Exec S B
  continue (returned a) f s = f a s
  continue panicked f s = (panicked, s)

  infixl 5 ◌>>=◌ ◌>>◌
  abbrev pub ◌>>=◌ : Exec S A → (A → Exec S B) → Exec S B
  ◌>>=◌ m f s = let (result, t) = m s in continue result f t

  abbrev pub ◌>>◌ : Exec S A → Exec S B → Exec S B
  first >> next = first >>= λ _. next
