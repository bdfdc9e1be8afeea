-- ===== src/MultiMap/Laws.antt =====
-- `HashsetMultiMap` of c5store_rust/src/data.rs as a set of pairs.
use c5store.Base.{
  Bool, false, ◌&&◌, ◌||◌, ◌≡◌, refl, Option, none, some, List, [], ◌∷◌, Eq, ◌==◌, arith,
  if◌then◌else◌, ◌≢◌,
}
use c5store.HashMap
use c5store.MultiMap.{
  with_capacity_and_hasher, HashsetMultiMap, new, get, insert, extend, from_iter, retain, remove,
  set_contains, set_insert, set_retain, set_with, retain_entries, keep_nonempty,
}

module _ {V : Type 0} ⦃e : Eq V⦄ where
  pub set_contains-set_insert :
      (v w : V) (s : List V) → set_contains w (set_insert v s) ≡ (v == w || set_contains w s)
  unfolding set_contains set_insert
  set_contains-set_insert v w [] = ground arith
  set_contains-set_insert v w (x ∷ s) =
      ground (arith, e.beq_iff v w, e.beq_iff x v, e.beq_iff x w, set_contains-set_insert v w s)

  pub set_contains-set_retain :
      (f : V → Bool) (w : V) (s : List V)
      → set_contains w (set_retain f s) ≡ (f w && set_contains w s)
  unfolding set_contains set_retain
  set_contains-set_retain f w [] = ground arith
  set_contains-set_retain f w (x ∷ s) = ground (arith, e.beq_iff x w, set_contains-set_retain f w s)

module _ {V : Type 0} ⦃e : Eq V⦄ where
  abbrev pub holds : Option (List V) → V → Bool
  holds none v = false
  holds (some s) v = set_contains v s

  holds-set_with :
      (v w : V) (o : Option (List V)) → holds (some (set_with v o)) w ≡ (v == w || holds o w)
  unfolding set_with set_contains
  holds-set_with v w (some s) = set_contains-set_insert v w s
  holds-set_with v w none = set_contains-set_insert v w []

module _ {K V : Type 0} ⦃d : Eq K⦄ ⦃e : Eq V⦄ where
  -- The pair is in the multimap.
  abbrev pub member : K → V → HashsetMultiMap K V → Bool
  member k v m = holds (get k m) v

  -- After an insert the multimap holds the inserted pair and what it held before, and nothing else.
  pub member-insert :
      (key j : K) (value w : V) (m : HashsetMultiMap K V)
      → member j w (insert key value m) ≡ (key == j && value == w || member j w m)
  unfolding get insert
  member-insert key j value w m =
      let old = HashMap.lookup key m.inner_map in
      rw (HashMap.lookup-insert key j (set_with value old) m.inner_map)
        (ground (arith, d.beq_iff key j, holds-set_with value w old))

  -- Some pair of the list is `(j, w)`.
  abbrev pub listed : K → V → List (K × V) → Bool
  listed j w [] = false
  listed j w ((k, v) ∷ l) = k == j && v == w || listed j w l

  pub member-extend :
      (l : List (K × V)) (j : K) (w : V) (m : HashsetMultiMap K V)
      → member j w (extend l m) ≡ (listed j w l || member j w m)
  unfolding extend
  member-extend [] j w m = refl
  member-extend ((k, v) ∷ l) j w m =
      ground (arith, member-extend l j w (insert k v m), member-insert k j v w m)

  member-new : (j : K) (w : V) → member j w new ≡ false
  unfolding new get HashMap.lookup
  member-new j w = refl

  -- A multimap collected from pairs holds exactly these pairs.
  pub member-from_iter :
      (l : List (K × V)) (j : K) (w : V) → member j w (from_iter l) ≡ listed j w l
  unfolding from_iter with_capacity_and_hasher
  member-from_iter l j w = ground (arith, member-extend l j w new, member-new j w)

  holds-keep_nonempty :
      (k j : K) (w : V) (s : List V) (m : List (K × List V))
      → HashMap.lookup k m ≡ none
      → holds (HashMap.lookup j (keep_nonempty k s m)) w
        ≡ (if k == j then set_contains w s else holds (HashMap.lookup j m) w)
  unfolding keep_nonempty HashMap.lookup set_contains
  holds-keep_nonempty k j w [] m n = ground (arith, d.beq_iff k j)
  holds-keep_nonempty k j w (v ∷ s) m n = ground arith

  lookup-keep_nonempty :
      (k j : K) (s : List V) (m : List (K × List V))
      → (k == j) ≡ false
      → HashMap.lookup j (keep_nonempty k s m) ≡ HashMap.lookup j m
  unfolding keep_nonempty HashMap.lookup
  lookup-keep_nonempty k j [] m n = refl
  lookup-keep_nonempty k j (v ∷ s) m n = rw n

  lookup-retain_entries :
      (f : K → V → Bool) (j : K) (m : List (K × List V))
      → HashMap.lookup j m ≡ none
      → HashMap.lookup j (retain_entries f m) ≡ none
  unfolding retain_entries HashMap.lookup
  lookup-retain_entries f j [] n = refl
  lookup-retain_entries f j ((k, s) ∷ m) n = ground (
    arith,
    lookup-keep_nonempty k j (set_retain (f k) s) (retain_entries f m),
    lookup-retain_entries f j m,
  )

  holds-retain_entries :
      (f : K → V → Bool) (j : K) (w : V) (m : List (K × List V))
      → HashMap.HasDistinctKeys m
      → holds (HashMap.lookup j (retain_entries f m)) w ≡ (f j w && holds (HashMap.lookup j m) w)
  unfolding retain_entries HashMap.lookup
  holds-retain_entries f j w [] u = ground arith
  holds-retain_entries f j w ((k, s) ∷ m) u = ground (
    arith,
    d.beq_iff k j,
    holds-keep_nonempty k j w (set_retain (f k) s) (retain_entries f m),
    lookup-retain_entries f k m,
    set_contains-set_retain (f k) w s,
    holds-retain_entries f j w m,
  )

  -- In a multimap without a key that stands twice, retain keeps exactly the pairs that pass the
  -- test.
  pub member-retain :
      (f : K → V → Bool) (j : K) (w : V) (m : HashsetMultiMap K V)
      → HashMap.HasDistinctKeys m.inner_map
      → member j w (retain f m) ≡ (f j w && member j w m)
  unfolding retain get
  member-retain f j w m u = holds-retain_entries f j w m.inner_map u

  -- No key has an empty set, so that a key is there exactly when a pair with it is.
  abbrev pub HasNoEmptySet : List (K × List V) → Type 0
  HasNoEmptySet [] = Unit
  HasNoEmptySet ((k, s) ∷ m) = (s ≢ []) × HasNoEmptySet m

  keep_nonempty-HasNoEmptySet :
      (k : K) (s : List V) (m : List (K × List V))
      → HasNoEmptySet m
      → HasNoEmptySet (keep_nonempty k s m)
  unfolding keep_nonempty
  keep_nonempty-HasNoEmptySet k [] m h = h
  keep_nonempty-HasNoEmptySet k (v ∷ s) m h = (λ p. cc, h)

  retain_entries-HasNoEmptySet :
      (f : K → V → Bool) (m : List (K × List V)) → HasNoEmptySet (retain_entries f m)
  unfolding retain_entries
  retain_entries-HasNoEmptySet f [] = tt
  retain_entries-HasNoEmptySet f ((k, s) ∷ m) =
      keep_nonempty-HasNoEmptySet k (set_retain (f k) s) (retain_entries f m)
        (retain_entries-HasNoEmptySet f m)

  -- Whatever the map held, `retain` leaves no empty set behind.
  pub retain-HasNoEmptySet :
      (f : K → V → Bool) (m : HashsetMultiMap K V) → HasNoEmptySet (retain f m).inner_map
  unfolding retain
  retain-HasNoEmptySet f m = retain_entries-HasNoEmptySet f m.inner_map

  -- In a multimap without a key that stands twice, remove returns the set of the key and takes away
  -- the pairs of that key and no others.
  pub remove_lem :
      (k j : K) (w : V) (m : HashsetMultiMap K V)
      → HashMap.HasDistinctKeys m.inner_map
      → ((remove k m).0 ≡ get k m)
        × (member j w (remove k m).1 ≡ (if k == j then false else member j w m))
  unfolding remove get
  remove_lem k j w m u = (refl, rw (HashMap.lookup-remove k j m.inner_map u) (ground arith))
