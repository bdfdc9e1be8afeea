-- ===== src/Value/Path.antt =====
-- The value at a path of keys in a nested map: what the dotted key paths of the store stand for.
use c5store.Base.{
  ◌≡◌, subst, ◌==◌, Bool-cases, Option-cases, inl, inr, Bool, true, false, Option, none, some, List,
  [], ◌∷◌, arith,
}
use c5store.Text.{Str, str_eq}
use c5store.Value.{C5DataValue, map, Fields, end, field}
use c5store.Value.Map as ValueMap

abbrev pub is_map : C5DataValue → Bool
is_map (map m) = true
is_map _ = false

-- The continuation of a look-up.
abbrev pub and_then {ℓ κ} : {A : Type ℓ} {B : Type κ} → Option A → (A → Option B) → Option B
and_then none f = none
and_then (some a) f = f a

unfoldable pub value_at : List Str → C5DataValue → Option C5DataValue
value_at [] v = some v
value_at (k ∷ ks) (map m) = and_then (ValueMap.lookup k m) (value_at ks)
value_at (k ∷ ks) _ = none

-- No map in the value has a key twice, as no `HashMap` does.
abbrev mutual
  pub IsWellFormed : C5DataValue → Type 0
  IsWellFormed (map m) = ValueMap.HasDistinctKeys m × AreWellFormed m
  IsWellFormed _ = Unit

  pub AreWellFormed : Fields → Type 0
  AreWellFormed end = Unit
  AreWellFormed (field k v m) = IsWellFormed v × AreWellFormed m

pub IsWellFormed-lookup :
    (m : Fields) (k : Str) (v : C5DataValue)
    → AreWellFormed m
    → ValueMap.lookup k m ≡ some v
    → IsWellFormed v
unfolding ValueMap.lookup
IsWellFormed-lookup end k v w h = cc
IsWellFormed-lookup (field j u m) k v w h = elim (Bool-cases (j == k)) [
  | inl same ↦ let e : u ≡ v = ground arith in subst IsWellFormed e w.0
  | inr other ↦ IsWellFormed-lookup m k v w.1 (ground arith)
]

pub AreWellFormed-insert :
    (k : Str) (v : C5DataValue) (m : Fields)
    → IsWellFormed v
    → AreWellFormed m
    → AreWellFormed (ValueMap.insert k v m)
unfolding ValueMap.insert
AreWellFormed-insert k v end hv h = (hv, tt)
AreWellFormed-insert k v (field j w m) hv h = ground (arith, AreWellFormed-insert k v m hv h.1)

abbrev pub AbsentOr {κ} : {A : Type 0} → (A → Type κ) → Option A → Type κ
AbsentOr P none = Unit
AbsentOr P (some a) = P a

-- The path leaves the maps of the value at a key that is absent: it meets no leaf, and does not
-- end at a map.
abbrev pub Misses : List Str → C5DataValue → Type 0
Misses [] v = ⊥
Misses (k ∷ ks) (map m) = AbsentOr (Misses ks) (ValueMap.lookup k m)
Misses (k ∷ ks) _ = ⊥

pub value_at-Misses : (p : List Str) (v : C5DataValue) → Misses p v → value_at p v ≡ none
unfolding value_at
value_at-Misses [] v h = elim h [ ]
value_at-Misses (k ∷ ks) (map m) h = elim (Option-cases (ValueMap.lookup k m)) [
  | inl e ↦ rw e
  | inr (v, e) ↦ rw e (value_at-Misses ks v (rw e at h))
]
value_at-Misses (k ∷ ks) v h = elim h [ ]
