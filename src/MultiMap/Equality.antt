-- ===== src/MultiMap/Equality.antt =====
-- The equality test of the multimap (c5store_rust/src/data.rs), against membership.
use c5store.Base.{
  Bool, true, false, ◌≡◌, refl, ◌∙◌, sym, Option, none, some, List, [], ◌∷◌, Eq, ◌==◌, eq_refl,
  nat_eq, length, ◌↔◌, is_some, if◌then◌else◌, arith,
}
use c5store.HashMap
use c5store.MultiMap.{
  HashsetMultiMap, set_contains, all_in, set_eq, all_equal, len, get, contains_key, eq,
}
use c5store.MultiMap.Sets.{IsSetList, set_eq-contains, set_eq-of}
use c5store.MultiMap.Laws.{holds, member}

module _ {V : Type 0} ⦃e : Eq V⦄ where
  -- The sets of a key in the two multimaps agree, if the first has one.
  abbrev entries_eq : Option (List V) → Option (List V) → Bool
  entries_eq none t = true
  entries_eq (some s) none = false
  entries_eq (some s) (some t) = set_eq s t

  abbrev IsSetOption : Option (List V) → Type 0
  IsSetOption none = Unit
  IsSetOption (some s) = IsSetList s

  if-IsSetOption :
      (b : Bool) (s : List V) (o : Option (List V))
      → IsSetList s
      → IsSetOption o
      → IsSetOption (if b then some s else o)
  if-IsSetOption true s o h i = h
  if-IsSetOption false s o h i = i

  entries_eq-holds :
      (o p : Option (List V)) (v : V)
      → IsSetOption o
      → entries_eq o p ≡ true
      → is_some o ≡ is_some p
      → holds o v ≡ holds p v
  entries_eq-holds none none v c h i = refl
  entries_eq-holds none (some t) v c h i = ground arith
  entries_eq-holds (some s) none v c h i = ground arith
  entries_eq-holds (some s) (some t) v c h i = set_eq-contains s t v c h

  holds-entries_eq :
      (o p : Option (List V))
      → IsSetOption o
      → IsSetOption p
      → is_some o ≡ is_some p
      → ((v : V) → holds o v ≡ holds p v)
      → entries_eq o p ≡ true
  holds-entries_eq none p c b i f = refl
  holds-entries_eq (some s) none c b i f = ground arith
  holds-entries_eq (some s) (some t) c b i f = set_eq-of s t c b f

module _ {K V : Type 0} ⦃d : Eq K⦄ ⦃e : Eq V⦄ where
  abbrev keys_of : List (K × List V) → List K
  keys_of [] = []
  keys_of ((k, s) ∷ m) = k ∷ keys_of m

  -- The values under each key are a set.
  abbrev HaveSets : List (K × List V) → Type 0
  HaveSets [] = Unit
  HaveSets ((k, s) ∷ m) = IsSetList s × HaveSets m

  -- What Rust's containers guarantee: no key stands twice, and no value under a key.
  abbrev pub IsWellFormed : HashsetMultiMap K V → Type 0
  IsWellFormed m = HashMap.HasDistinctKeys m.inner_map × HaveSets m.inner_map

  length-keys_of : (m : List (K × List V)) → length (keys_of m) ≡ length m
  length-keys_of [] = refl
  length-keys_of ((k, s) ∷ m) = ground (arith, length-keys_of m)

  contains-keys_of :
      (k : K) (m : List (K × List V)) → set_contains k (keys_of m) ≡ HashMap.contains_key k m
  unfolding set_contains HashMap.lookup
  contains-keys_of k [] = refl
  contains-keys_of k ((j, s) ∷ m) = ground (arith, contains-keys_of k m)

  keys_of-IsSetList : (m : List (K × List V)) → HashMap.HasDistinctKeys m → IsSetList (keys_of m)
  keys_of-IsSetList [] h = tt
  keys_of-IsSetList ((k, s) ∷ m) (n, h) = (contains-keys_of k m ∙ rw n, keys_of-IsSetList m h)

  all_equal-at :
      (k : K) (m other : List (K × List V))
      → all_equal m other ≡ true
      → entries_eq (HashMap.lookup k m) (HashMap.lookup k other) ≡ true
  unfolding all_equal HashMap.lookup
  all_equal-at k [] other h = refl
  all_equal-at k ((j, s) ∷ m) other h = ground (arith, d.beq_iff j k, all_equal-at k m other)

  all_equal-keys_of :
      (m other : List (K × List V))
      → all_equal m other ≡ true
      → all_in (keys_of m) (keys_of other) ≡ true
  unfolding all_equal all_in
  all_equal-keys_of [] other h = refl
  all_equal-keys_of ((k, s) ∷ m) other h =
      ground (arith, contains-keys_of k other, all_equal-keys_of m other)

  tail-entries_eq :
      (j k : K) (s : List V) (m other : List (K × List V))
      → HashMap.lookup j m ≡ none
      → entries_eq (HashMap.lookup k ((j, s) ∷ m)) (HashMap.lookup k other) ≡ true
      → entries_eq (HashMap.lookup k m) (HashMap.lookup k other) ≡ true
  unfolding HashMap.lookup
  tail-entries_eq j k s m other n h = ground (arith, d.beq_iff j k)

  head-entries_eq :
      (j : K) (s : List V) (m other : List (K × List V))
      → entries_eq (HashMap.lookup j ((j, s) ∷ m)) (HashMap.lookup j other) ≡ true
      → all_equal m other ≡ true
      → all_equal ((j, s) ∷ m) other ≡ true
  unfolding HashMap.lookup all_equal
  head-entries_eq j s m other h a = ground (arith, eq_refl j)

  all_equal-of :
      (m other : List (K × List V))
      → HashMap.HasDistinctKeys m
      → ((k : K) → entries_eq (HashMap.lookup k m) (HashMap.lookup k other) ≡ true)
      → all_equal m other ≡ true
  unfolding all_equal
  all_equal-of [] other u f = refl
  all_equal-of ((j, s) ∷ m) other u f =
      head-entries_eq j s m other (f j)
        (all_equal-of m other u.1 (λ k. tail-entries_eq j k s m other u.0 (f k)))

  lookup-HaveSets : (k : K) (m : List (K × List V)) → HaveSets m → IsSetOption (HashMap.lookup k m)
  unfolding HashMap.lookup
  lookup-HaveSets k [] h = tt
  lookup-HaveSets k ((j, s) ∷ m) h =
      if-IsSetOption (j == k) s (HashMap.lookup k m) h.0 (lookup-HaveSets k m h.1)

  eq-parts :
      (m other : HashsetMultiMap K V)
      → (eq m other ≡ true) ↔ (
          (length m.inner_map ≡ length other.inner_map)
          × (all_equal m.inner_map other.inner_map ≡ true))
  unfolding eq len
  eq-parts m other = (λ h. ground arith, λ h. ground arith)

  keys_of-set_eq :
      (m other : List (K × List V))
      → length m ≡ length other
      → all_equal m other ≡ true
      → set_eq (keys_of m) (keys_of other) ≡ true
  unfolding set_eq
  keys_of-set_eq m other l a =
      ground (arith, length-keys_of m, length-keys_of other, all_equal-keys_of m other)

  same_keys :
      (m other : List (K × List V))
      → HashMap.HasDistinctKeys m
      → length m ≡ length other
      → all_equal m other ≡ true
      → (k : K) → HashMap.contains_key k m ≡ HashMap.contains_key k other
  same_keys m other w l a k =
      sym (contains-keys_of k m)
      ∙ set_eq-contains (keys_of m) (keys_of other) k (keys_of-IsSetList m w)
          (keys_of-set_eq m other l a)
      ∙ contains-keys_of k other

  same_length :
      (m other : List (K × List V))
      → HashMap.HasDistinctKeys m
      → HashMap.HasDistinctKeys other
      → ((k : K) → HashMap.contains_key k m ≡ HashMap.contains_key k other)
      → length m ≡ length other
  unfolding set_eq
  same_length m other w u f =
      let e =
        set_eq-of (keys_of m) (keys_of other) (keys_of-IsSetList m w) (keys_of-IsSetList other u)
          (λ k. contains-keys_of k m ∙ f k ∙ sym (contains-keys_of k other)) in
      ground (arith, length-keys_of m, length-keys_of other)

  -- Two multimaps in which no key stands twice, and no value twice under a key, are equal exactly
  -- when they have the same keys, and the same pairs.
  pub eq_iff :
      (m other : HashsetMultiMap K V)
      → IsWellFormed m
      → IsWellFormed other
      → (eq m other ≡ true) ↔ (
          (k : K)
          → (contains_key k m ≡ contains_key k other) × ((v : V) → member k v m ≡ member k v other))
  unfolding contains_key get
  eq_iff m other w u = (
    λ h k.
        let (l, a) = (eq-parts m other).0 h in
        let there = same_keys m.inner_map other.inner_map w.0 l a k in
        (
          there,
          λ v.
              entries_eq-holds (get k m) (get k other) v (lookup-HaveSets k m.inner_map w.1)
                (all_equal-at k m.inner_map other.inner_map a) there,
        ),
    λ f. (eq-parts m other).1 (
      same_length m.inner_map other.inner_map w.0 u.0 (λ k. (f k).0),
      all_equal-of m.inner_map other.inner_map w.0 (λ k.
          holds-entries_eq (get k m) (get k other) (lookup-HaveSets k m.inner_map w.1)
            (lookup-HaveSets k other.inner_map u.1) (f k).0 (f k).1),
    ),
  )
