-- ===== src/MultiMap/Access.antt =====
-- The ways into the multimap by a mutable reference and by iteration (c5store_rust/src/data.rs).
use c5store.Base.{
  true, ◌≡◌, refl, ◌↔◌, Option, none, some, is_some, List, [], ◌∷◌, Eq, ◌==◌, In, inl, inr, ap,
  Bool-cases, Option-cases, if◌then◌else◌, arith, map,
}
use c5store.HashMap
use c5store.MultiMap.{HashsetMultiMap, get, get_mut, iter, iter_mut}

abbrev changed : {A : Type 0} → (A → A) → Option A → Option A
changed f none = none
changed f (some a) = some (f a)

module _ {K V : Type 0} ⦃d : Eq K⦄ ⦃e : Eq V⦄ where
  -- A change through `get_mut` is one of the set of that key, if there is one, and of no other.
  pub get_mut_lem :
      (k j : K) (f : List V → List V) (m : HashsetMultiMap K V)
      → get j (get_mut k f m) ≡ (if k == j then changed f (get k m) else get j m)
  unfolding get get_mut
  get_mut_lem k j f m = elim (Option-cases (HashMap.lookup k m.inner_map)) [
    | inl e ↦ ground (arith, d.beq_iff k j)
    | inr (s, e) ↦ ground (arith, HashMap.lookup-insert k j (f s) m.inner_map)
  ]

  -- A change through `iter_mut` is one of each set.
  pub iter_mut_lem :
      (j : K) (f : K → List V → List V) (m : HashsetMultiMap K V)
      → get j (iter_mut f m) ≡ changed (f j) (get j m)
  unfolding get iter_mut HashMap.lookup
  iter_mut_lem j f m = go m.inner_map
    where
      go :
          (l : List (K × List V))
          → HashMap.lookup j (map (λ entry. (entry.0, f entry.0 entry.1)) l)
            ≡ changed (f j) (HashMap.lookup j l)
      go [] = refl
      go ((k, s) ∷ l) = ground (arith, d.beq_iff k j, go l)

  lookup-In :
      (k : K) (s : List V) (l : List (K × List V))
      → HashMap.lookup k l ≡ some s
      → In {A = K × List V} (k, s) l
  unfolding HashMap.lookup
  lookup-In k s [] h = cc
  lookup-In k s ((j, t) ∷ l) h = elim (Bool-cases (j == k)) [
    | inl same ↦ inl (ground (arith, d.beq_iff j k))
    | inr other ↦ inr (lookup-In k s l (ground arith))
  ]

  In-there :
      (k : K) (s : List V) (l : List (K × List V))
      → In {A = K × List V} (k, s) l
      → is_some (HashMap.lookup k l) ≡ true
  unfolding HashMap.lookup
  In-there k s [] i = elim i [ ]
  In-there k s ((j, t) ∷ l) (inl same) = ground (arith, d.beq_iff j k, ap (λ p. p.0) same)
  In-there k s ((j, t) ∷ l) (inr i) = ground (arith, In-there k s l i)

  In-lookup :
      (k : K) (s : List V) (l : List (K × List V))
      → HashMap.HasDistinctKeys l
      → In {A = K × List V} (k, s) l
      → HashMap.lookup k l ≡ some s
  unfolding HashMap.lookup
  In-lookup k s [] u i = elim i [ ]
  In-lookup k s ((j, t) ∷ l) u (inl same) =
      ground (arith, d.beq_iff j k, ap (λ p. p.0) same, ap (λ p. p.1) same)
  In-lookup k s ((j, t) ∷ l) u (inr i) =
      ground (arith, d.beq_iff j k, In-there k s l i, In-lookup k s l u.1 i)

  -- Iteration comes by exactly the entries that `get` finds.
  pub In-iter :
      (k : K) (s : List V) (m : HashsetMultiMap K V)
      → HashMap.HasDistinctKeys m.inner_map
      → In {A = K × List V} (k, s) (iter m) ↔ (get k m ≡ some s)
  unfolding get iter
  In-iter k s m u = (In-lookup k s m.inner_map u, lookup-In k s m.inner_map)
