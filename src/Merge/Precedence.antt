-- ===== src/Merge/Precedence.antt =====
-- Which value stands at a path after a merge (`_merge` of c5store_rust/src/lib.rs).
use c5store.Base.{
  ◌≡◌, false, refl, inl, inr, Option, none, some, List, [], ◌∷◌, arith, eq_iff, Option-cases,
}
use c5store.Text.{Str, str_eq}
use c5store.Value.{C5DataValue, map, Fields, end, field}
use c5store.Value.Map as ValueMap
use c5store.Merge.{merge, merged}
use c5store.Value.Path.{
  is_map, and_then, value_at, Misses, value_at-Misses, IsWellFormed, IsWellFormed-lookup,
}

-- What the merged map has at a key.
abbrev pub laid_over : Option C5DataValue → Option C5DataValue → Option C5DataValue
laid_over dest none = dest
laid_over dest (some v) = some (merged dest v)

pub lookup-merge :
    (dest src : Fields) (k : Str)
    → ValueMap.HasDistinctKeys src
    → ValueMap.lookup k (merge dest src)
      ≡ laid_over (ValueMap.lookup k dest) (ValueMap.lookup k src)
unfolding merge ValueMap.lookup
lookup-merge dest end k d = refl
lookup-merge dest (field j v src) k d =
    let w = merged (ValueMap.lookup j dest) v in
    ground (
      arith,
      eq_iff j k,
      ValueMap.lookup-insert j k w dest,
      lookup-merge (ValueMap.insert j w dest) src k,
    )

-- A leaf of the source is the value of the merged map at its path.
merged_leaf :
    (p : List Str) (o : Option C5DataValue) (src v : C5DataValue)
    → IsWellFormed src
    → value_at p src ≡ some v
    → is_map v ≡ false
    → value_at p (merged o src) ≡ some v
unfolding merge value_at
merged_leaf [] none src v w h n = h
merged_leaf [] (some d) src v w h n = ground arith
merged_leaf (k ∷ ks) (some (map dest)) (map src) v w h n =
    let o = ValueMap.lookup k dest in
    elim (Option-cases (ValueMap.lookup k src)) [
      | inl e ↦ ground arith
      | inr (sv, e) ↦
          rw (lookup-merge dest src k w.0, e)
            (merged_leaf ks o sv v (IsWellFormed-lookup src k sv w.1 e) (ground arith) n)
    ]
merged_leaf (k ∷ ks) none src v w h n = h
merged_leaf (k ∷ ks) o src v w h n = ground arith

-- Where the source does not reach, the merged map has what the destination has.
merged_miss :
    (p : List Str) (o : Option C5DataValue) (src : C5DataValue)
    → IsWellFormed src
    → Misses p src
    → value_at p (merged o src) ≡ and_then o (value_at p)
unfolding merge value_at
merged_miss [] o src w h = elim h [ ]
merged_miss (k ∷ ks) (some (map dest)) (map src) w h =
    let o = ValueMap.lookup k dest in
    elim (Option-cases (ValueMap.lookup k src)) [
      | inl e ↦ rw (lookup-merge dest src k w.0, e)
      | inr (sv, e) ↦
          rw (lookup-merge dest src k w.0, e)
            (merged_miss ks o sv (IsWellFormed-lookup src k sv w.1 e) (rw e at h))
    ]
merged_miss (k ∷ ks) none (map src) w h = value_at-Misses (k ∷ ks) (map src) h
merged_miss (k ∷ ks) (some d) (map src) w h = value_at-Misses (k ∷ ks) (map src) h
merged_miss (k ∷ ks) o src w h = elim h [ ]

-- Whatever the destination is, a leaf of the source stands at its path in the merged map.
pub merge_leaf :
    (p : List Str) (dest src : Fields) (v : C5DataValue)
    → IsWellFormed (map src)
    → value_at p (map src) ≡ some v
    → is_map v ≡ false
    → value_at p (map (merge dest src)) ≡ some v
unfolding merge
merge_leaf p dest src v w h n = merged_leaf p (some (map dest)) (map src) v w h n

-- Where the source does not reach, the merged map has what the destination had.
pub merge_miss :
    (p : List Str) (dest src : Fields)
    → IsWellFormed (map src)
    → Misses p (map src)
    → value_at p (map (merge dest src)) ≡ value_at p (map dest)
unfolding merge
merge_miss p dest src w h = merged_miss p (some (map dest)) (map src) w h
