-- ===== src/HashMap.antt =====
-- The standard library's `HashMap` and `HashSet`, whose iteration order is unspecified: a list of
-- entries stands for a map together with the order in which it happens to be iterated, and a
-- theorem about every list is one about every order. A key stands at most once (`HasDistinctKeys`),
-- which every operation keeps.
use c5store.Base.{
  Bool, ◌≡◌, refl, Option, none, some, List, [], ◌∷◌, arith, Eq, ◌==◌, eq_refl, if◌then◌else◌,
  is_some,
}

module _ {ℓ κ} {K : Type ℓ} {V : Type κ} ⦃e : Eq K⦄ where
  unfoldable pub lookup : K → List (K × V) → Option V
  lookup key [] = none
  lookup key ((other, value) ∷ entries) = if other == key then some value else lookup key entries

  unfoldable pub insert : K → V → List (K × V) → List (K × V)
  insert key value [] = (key, value) ∷ []
  insert key value ((other, w) ∷ entries) =
      if other == key then (other, value) ∷ entries else (other, w) ∷ insert key value entries

  unfoldable pub remove : K → List (K × V) → List (K × V)
  remove key [] = []
  remove key ((other, value) ∷ entries) =
      if other == key then entries else (other, value) ∷ remove key entries

  abbrev pub contains_key : K → List (K × V) → Bool
  contains_key key entries = is_some (lookup key entries)

  pub lookup-insert :
      (key other : K) (value : V) (entries : List (K × V))
      → lookup other (insert key value entries)
        ≡ (if key == other then some value else lookup other entries)
  unfolding lookup insert
  lookup-insert key other value [] = refl
  lookup-insert key other value ((i, w) ∷ entries) = ground (
    arith,
    e.beq_iff key other,
    e.beq_iff i key,
    e.beq_iff i other,
    lookup-insert key other value entries,
  )

  pub lookup-insert_self :
      (key : K) (value : V) (entries : List (K × V))
      → lookup key (insert key value entries) ≡ some value
  lookup-insert_self key value entries = rw (lookup-insert, eq_refl)

  -- No key stands twice.
  abbrev pub HasDistinctKeys : List (K × V) → Type κ
  HasDistinctKeys [] = Unit
  HasDistinctKeys ((j, v) ∷ m) = (lookup j m ≡ none) × HasDistinctKeys m

  pub insert-HasDistinctKeys :
      (key : K) (value : V) (entries : List (K × V))
      → HasDistinctKeys entries
      → HasDistinctKeys (insert key value entries)
  unfolding lookup insert
  insert-HasDistinctKeys key value [] d = (refl, tt)
  insert-HasDistinctKeys key value ((i, w) ∷ entries) d = ground (
    arith,
    e.beq_iff i key,
    e.beq_iff key i,
    lookup-insert key i value entries,
    insert-HasDistinctKeys key value entries,
  )

  pub lookup-remove :
      (key other : K) (entries : List (K × V))
      → HasDistinctKeys entries
      → lookup other (remove key entries) ≡ (if key == other then none else lookup other entries)
  unfolding lookup remove
  lookup-remove key other [] d = ground arith
  lookup-remove key other ((i, w) ∷ entries) d = ground (
    arith,
    e.beq_iff key other,
    e.beq_iff i key,
    e.beq_iff i other,
    lookup-remove key other entries,
  )

  pub remove-HasDistinctKeys :
      (key : K) (entries : List (K × V))
      → HasDistinctKeys entries
      → HasDistinctKeys (remove key entries)
  unfolding lookup remove
  remove-HasDistinctKeys key [] d = tt
  remove-HasDistinctKeys key ((i, w) ∷ entries) d =
      ground
        (arith, e.beq_iff key i, lookup-remove key i entries, remove-HasDistinctKeys key entries)
