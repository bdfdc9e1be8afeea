-- ===== src/Crates/SkipMap.antt =====
-- `skiplist::SkipMap` with the keys of `NaturalOrderedString` (c5store_rust/src/internal.rs), whose
-- order is `natord::compare_ignore_case`: two keys that compare equal are one key.
use Prim.Native.Nat.{Ordering}
use c5store.Base.{
  Bool, true, false, ◌≡◌, Option, none, some, List, [], ◌∷◌, In, if◌then◌else◌, is_some,
}
use c5store.Text.{Str}

pub record SkipMap (V : Type 0) : Type 1 where
  pub Map : Type 0
  pub compare_ignore_case : Str → Str → Ordering
  pub new : Map
  pub get : Str → Map → Option V
  pub contains_key : Str → Map → Bool
  -- with the value that was there before
  pub insert : Str → V → Map → Option V × Map
  pub iter : Map → List (Str × V)
  -- `range(Bound::Included(key), Bound::Unbounded)`
  pub range_from : Str → Map → List (Str × V)

module _ {V : Type 0} (s : SkipMap V) where
  -- `==` on keys, as the map sees it
  abbrev pub same_key : Str → Str → Bool
  same_key j k = elim (s.compare_ignore_case j k) [ Ordering.eq ↦ true | _ ↦ false ]

  abbrev pub key_below : Str → Str → Bool
  key_below j k = elim (s.compare_ignore_case j k) [ Ordering.lt ↦ true | _ ↦ false ]

  -- The entries from the first one that is not below the key.
  abbrev pub drop_below : Str → List (Str × V) → List (Str × V)
  drop_below k [] = []
  drop_below k ((j, v) ∷ l) =
      let rest = drop_below k l in if key_below j k then rest else (j, v) ∷ l

  -- Each key stands before all that follow it.
  abbrev pub AllAbove : Str → List (Str × V) → Type 0
  AllAbove k [] = Unit
  AllAbove k ((j, v) ∷ l) = (key_below k j ≡ true) × AllAbove k l

  abbrev pub IsOrdered : List (Str × V) → Type 0
  IsOrdered [] = Unit
  IsOrdered ((j, v) ∷ l) = AllAbove j l × IsOrdered l

  pub record IsLawful : Type 0 where
    pub same_key_refl : (k : Str) → same_key k k ≡ true
    pub same_key_sym : (j k : Str) → same_key j k ≡ same_key k j
    pub get-new : (k : Str) → s.get k s.new ≡ none
    pub get_same : (k j : Str) (m : s.Map) → same_key k j ≡ true → s.get k m ≡ s.get j m
    pub contains_key-get : (k : Str) (m : s.Map) → s.contains_key k m ≡ is_some (s.get k m)
    pub insert_old : (k : Str) (v : V) (m : s.Map) → (s.insert k v m).0 ≡ s.get k m
    pub get-insert :
        (k j : Str) (v : V) (m : s.Map)
        → s.get j (s.insert k v m).1 ≡ (if same_key k j then some v else s.get j m)
    pub iter_ordered : (m : s.Map) → IsOrdered (s.iter m)
    pub get_of_iter :
        (k : Str) (v : V) (m : s.Map) → In {A = Str × V} (k, v) (s.iter m) → s.get k m ≡ some v
    pub range : (k : Str) (m : s.Map) → s.range_from k m ≡ drop_below k (s.iter m)
