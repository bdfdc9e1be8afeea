-- ===== src/Tests/Pairs.antt =====
-- Runs of the multimap.
use c5store.Base.{ℕ, ◌≡◌, ◌↔◌, refl, true, [], ◌∷◌, nat_eq}
use c5store.HashMap
use c5store.MultiMap.{
  HashsetMultiMap, eq, len, all_equal, set_eq, all_in, set_contains, contains_key,
}
use c5store.MultiMap.Laws.{member}
use c5store.MultiMap.Equality.{eq_iff}

abbrev pairs : HashsetMultiMap ℕ ℕ
pairs = record { inner_map = (1, 10 ∷ 11 ∷ []) ∷ (2, 20 ∷ []) ∷ [] }

abbrev reordered : HashsetMultiMap ℕ ℕ
reordered = record { inner_map = (2, 20 ∷ []) ∷ (1, 11 ∷ 10 ∷ []) ∷ [] }

eq_iff_example : (eq pairs reordered ≡ true) ↔ (
    (k : ℕ)
    → (contains_key k pairs ≡ contains_key k reordered)
      × ((v : ℕ) → member k v pairs ≡ member k v reordered))
unfolding HashMap.lookup set_contains
eq_iff_example =
    eq_iff pairs reordered ((refl, (refl, tt)), ((refl, (refl, tt)), ((refl, tt), tt)))
      ((refl, (refl, tt)), ((refl, tt), ((refl, (refl, tt)), tt)))

equal : eq pairs reordered ≡ true
unfolding eq len all_equal set_eq all_in set_contains HashMap.lookup
equal = refl
