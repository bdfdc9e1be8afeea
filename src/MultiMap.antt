-- ===== src/MultiMap.antt =====
-- c5store_rust/src/data.rs: `HashsetMultiMap`, a map from keys to sets of values. Capacities and hashers
-- leave no trace, and `extend` is the same for pairs and for references to them.
pub mod Laws
pub mod Sets
pub mod Equality
pub mod Access
use c5store.Base.{
  ℕ, Bool, true, false, ◌&&◌, not, Option, none, some, List, [], ◌∷◌, Eq, ◌==◌, nat_eq, length, map,
  if◌then◌else◌,
}
use c5store.HashMap

-- The standard library's `HashSet`: its elements in the order of iteration.
module _ {V : Type 0} ⦃e : Eq V⦄ where
  unfoldable pub set_contains : V → List V → Bool
  set_contains v [] = false
  set_contains v (w ∷ s) = if w == v then true else set_contains v s

  unfoldable pub set_insert : V → List V → List V
  set_insert v [] = v ∷ []
  set_insert v (w ∷ s) = if w == v then w ∷ s else w ∷ set_insert v s

  unfoldable pub all_in : List V → List V → Bool
  all_in [] s = true
  all_in (v ∷ r) s = set_contains v s && all_in r s

  -- `HashSet::eq`
  unfoldable pub set_eq : List V → List V → Bool
  unfolding all_in
  set_eq r s = length r == length s && all_in r s

  -- The entry that `insert` writes: the set at the key with the value, or a new set.
  unfoldable pub set_with : V → Option (List V) → List V
  set_with value (some set) = set_insert value set
  set_with value none = set_insert value []

-- `HashSet::retain`
unfoldable pub set_retain : {V : Type 0} → (V → Bool) → List V → List V
set_retain f [] = []
set_retain f (v ∷ s) = let rest = set_retain f s in if f v then v ∷ rest else rest

pub record HashsetMultiMap (K V : Type 0) : Type 0 where
  pub inner_map : List (K × List V)

module _ {K V : Type 0} where
  unfoldable pub new : HashsetMultiMap K V
  new = record { inner_map = [] }

  unfoldable pub with_capacity : ℕ → HashsetMultiMap K V
  unfolding new
  with_capacity capacity = new

  unfoldable pub with_hasher : {S : Type 0} → S → HashsetMultiMap K V
  unfolding new
  with_hasher hash_builder = new

  unfoldable pub with_capacity_and_hasher : {S : Type 0} → ℕ → S → HashsetMultiMap K V
  unfolding new
  with_capacity_and_hasher capacity hash_builder = new

  unfoldable pub default : HashsetMultiMap K V
  unfolding new
  default = new

  unfoldable pub is_empty : HashsetMultiMap K V → Bool
  is_empty m = elim m.inner_map [ [] ↦ true | entry ∷ entries ↦ false ]

  unfoldable pub iter : HashsetMultiMap K V → List (K × List V)
  iter m = m.inner_map

  -- `into_iter` of a map or of a reference to one
  unfoldable into_iter : HashsetMultiMap K V → List (K × List V)
  into_iter m = m.inner_map

  unfoldable pub keys : HashsetMultiMap K V → List K
  keys m = map (λ entry. entry.0) m.inner_map

  -- `iter_mut`, whose client changes each set
  unfoldable pub iter_mut : (K → List V → List V) → HashsetMultiMap K V → HashsetMultiMap K V
  iter_mut change m = record {
    inner_map = map (λ entry. (entry.0, change entry.0 entry.1)) m.inner_map;
  }

  unfoldable pub len : HashsetMultiMap K V → ℕ
  len m = length m.inner_map

  unfoldable pub clear : HashsetMultiMap K V → HashsetMultiMap K V
  clear m = record { inner_map = [] }

  unfoldable pub keep_nonempty : K → List V → List (K × List V) → List (K × List V)
  keep_nonempty k [] m = m
  keep_nonempty k (v ∷ s) m = (k, v ∷ s) ∷ m

  -- The two loops of `retain`: over the sets, and over the entries, which drops the empty sets.
  unfoldable pub retain_entries : (K → V → Bool) → List (K × List V) → List (K × List V)
  retain_entries f [] = []
  retain_entries f ((k, s) ∷ m) = keep_nonempty k (set_retain (f k) s) (retain_entries f m)

  unfoldable pub retain : (K → V → Bool) → HashsetMultiMap K V → HashsetMultiMap K V
  unfolding retain_entries keep_nonempty set_retain
  retain f m = record { inner_map = retain_entries f m.inner_map }

module _ {K V : Type 0} ⦃d : Eq K⦄ ⦃e : Eq V⦄ where
  unfoldable pub get : K → HashsetMultiMap K V → Option (List V)
  get k m = HashMap.lookup k m.inner_map

  -- `get_mut`, whose client changes the set
  unfoldable pub get_mut : K → (List V → List V) → HashsetMultiMap K V → HashsetMultiMap K V
  get_mut k change m = elim (HashMap.lookup k m.inner_map) [
    | none ↦ m
    | some set ↦ record { inner_map = HashMap.insert k (change set) m.inner_map }
  ]

  unfoldable pub contains_key : K → HashsetMultiMap K V → Bool
  contains_key k m = HashMap.contains_key k m.inner_map

  unfoldable pub insert : K → V → HashsetMultiMap K V → HashsetMultiMap K V
  unfolding set_with
  insert key value m = record {
    inner_map = HashMap.insert key (set_with value (HashMap.lookup key m.inner_map)) m.inner_map;
  }

  unfoldable pub remove : K → HashsetMultiMap K V → Option (List V) × HashsetMultiMap K V
  remove k m = (HashMap.lookup k m.inner_map, record { inner_map = HashMap.remove k m.inner_map })

  unfoldable pub extend : List (K × V) → HashsetMultiMap K V → HashsetMultiMap K V
  extend [] m = m
  extend ((k, v) ∷ l) m = extend l (insert k v m)

  unfoldable pub from_iter : List (K × V) → HashsetMultiMap K V
  unfolding extend with_capacity_and_hasher
  from_iter l = extend l (with_capacity_and_hasher (length l) tt)

  unfoldable pub all_equal : List (K × List V) → List (K × List V) → Bool
  all_equal [] other = true
  all_equal ((k, s) ∷ m) other =
      elim (HashMap.lookup k other) [ none ↦ false | some t ↦ set_eq s t ] && all_equal m other

  unfoldable pub eq : HashsetMultiMap K V → HashsetMultiMap K V → Bool
  unfolding len all_equal
  eq m other = if not (len m == len other) then false else all_equal m.inner_map other.inner_map
