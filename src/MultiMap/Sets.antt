-- ===== src/MultiMap/Sets.antt =====
-- Equal `HashSet`s have the same elements (c5store_rust/src/data.rs relies on their `==`).
use c5store.Base.{
  suc, true, false, ◌≡◌, refl, ◌∙◌, sym, List, [], ◌∷◌, Eq, ◌==◌, eq_refl, nat_eq, length, ◌≤◌,
  if◌then◌else◌, arith,
}
use c5store.MultiMap.{set_contains, all_in, set_eq}

module _ {V : Type 0} ⦃e : Eq V⦄ where
  -- No element stands twice.
  abbrev pub IsSetList : List V → Type 0
  IsSetList [] = Unit
  IsSetList (v ∷ s) = (set_contains v s ≡ false) × IsSetList s

  abbrev without : V → List V → List V
  without v [] = []
  without v (w ∷ s) = if w == v then s else w ∷ without v s

  length-without :
      (v : V) (s : List V) → set_contains v s ≡ true → suc (length (without v s)) ≡ length s
  unfolding set_contains
  length-without v [] h = ground arith
  length-without v (w ∷ s) h = ground (arith, length-without v s)

  set_contains-without :
      (v w : V) (s : List V) → (v == w) ≡ false → set_contains w (without v s) ≡ set_contains w s
  unfolding set_contains
  set_contains-without v w [] h = refl
  set_contains-without v w (u ∷ s) h =
      ground (arith, e.beq_iff u v, e.beq_iff u w, e.beq_iff v w, set_contains-without v w s)

  all_in-without :
      (v : V) (r s : List V)
      → set_contains v r ≡ false
      → all_in r s ≡ true
      → all_in r (without v s) ≡ true
  unfolding set_contains all_in
  all_in-without v [] s h a = refl
  all_in-without v (w ∷ r) s h a =
      ground (arith, e.beq_iff w v, e.beq_iff v w, set_contains-without v w s, all_in-without v r s)

  all_in-contains :
      (v : V) (r s : List V) → all_in r s ≡ true → set_contains v r ≡ true → set_contains v s ≡ true
  unfolding set_contains all_in
  all_in-contains v [] s a h = ground arith
  all_in-contains v (w ∷ r) s a h = ground (arith, e.beq_iff w v, all_in-contains v r s)

  -- Distinct elements that are as many as a list's are all of it, if all of them stand in it.
  pub all_in-full :
      (r s : List V) (v : V)
      → IsSetList r
      → all_in r s ≡ true
      → length s ≤ length r
      → set_contains v s ≡ true
      → set_contains v r ≡ true
  unfolding set_contains all_in
  all_in-full [] [] v d a l h = ground arith
  all_in-full [] (w ∷ s) v d a l h = ground arith
  all_in-full (w ∷ r) s v d a l h = ground (
    arith,
    e.beq_iff w v,
    length-without w s,
    all_in-without w r s,
    set_contains-without w v s,
    all_in-full r (without w s) v,
  )

  pub set_eq-contains :
      (r s : List V) (v : V) → IsSetList r → set_eq r s ≡ true → set_contains v r ≡ set_contains v s
  unfolding set_eq
  set_eq-contains r s v d h = ground (arith, all_in-contains v r s, all_in-full r s v)

  all_in-length : (r s : List V) → IsSetList r → all_in r s ≡ true → length r ≤ length s
  unfolding all_in
  all_in-length [] s d a = ground arith
  all_in-length (w ∷ r) s d a =
      ground (arith, length-without w s, all_in-without w r s, all_in-length r (without w s))

  all_in-step :
      (w : V) (r s : List V) → set_contains w s ≡ true → all_in r s ≡ true → all_in (w ∷ r) s ≡ true
  unfolding all_in
  all_in-step w r s h a = ground arith

  contains-first : (w : V) (r : List V) → set_contains w (w ∷ r) ≡ true
  unfolding set_contains
  contains-first w r = rw (eq_refl w) refl

  contains-later : (w v : V) (r : List V) → set_contains v r ≡ true → set_contains v (w ∷ r) ≡ true
  unfolding set_contains
  contains-later w v r h = ground arith

  pub all_in-of :
      (r s : List V)
      → ((v : V) → set_contains v r ≡ true → set_contains v s ≡ true)
      → all_in r s ≡ true
  unfolding all_in
  all_in-of [] s f = refl
  all_in-of (w ∷ r) s f =
      all_in-step w r s (f w (contains-first w r))
        (all_in-of r s (λ v h. f v (contains-later w v r h)))

  pub set_eq-of :
      (r s : List V)
      → IsSetList r
      → IsSetList s
      → ((v : V) → set_contains v r ≡ set_contains v s)
      → set_eq r s ≡ true
  unfolding set_eq
  set_eq-of r s d c f =
      let there = all_in-of r s (λ v h. sym (f v) ∙ h) in
      let back = all_in-of s r (λ v h. f v ∙ h) in
      ground (arith, all_in-length r s, all_in-length s r)
