-- ===== src/Merge/WellFormed.antt =====
-- Keys that stand twice in a map of the merged configuration (`_merge` of c5store_rust/src/lib.rs).
use c5store.Base.{Option, none, some, List, [], ◌∷◌, Option-cases, inl, inr}
use c5store.Text.{Str, str_eq}
use c5store.Value.{C5DataValue, map, Fields, end, field}
use c5store.Value.Map as ValueMap
use c5store.Value.Path.{IsWellFormed, AreWellFormed, IsWellFormed-lookup, AreWellFormed-insert}
use c5store.Merge.{merge, merged, merge_files}

abbrev IsWellFormedOption : Option C5DataValue → Type 0
IsWellFormedOption none = Unit
IsWellFormedOption (some v) = IsWellFormed v

IsWellFormedOption-lookup :
    (k : Str) (m : Fields) → AreWellFormed m → IsWellFormedOption (ValueMap.lookup k m)
IsWellFormedOption-lookup k m h = elim (Option-cases (ValueMap.lookup k m)) [
  | inl e ↦ rw e tt
  | inr (v, e) ↦ rw e (IsWellFormed-lookup m k v h e)
]

mutual
  unfolding merge merged

  pub merge-IsWellFormed :
      (dest src : Fields)
      → IsWellFormed (map dest)
      → AreWellFormed src
      → IsWellFormed (map (merge dest src))
  merge-IsWellFormed dest end d s = d
  merge-IsWellFormed dest (field k v src) d s =
      let old = ValueMap.lookup k dest in
      let w = merged-IsWellFormed old v (IsWellFormedOption-lookup k dest d.1) s.0 in
      merge-IsWellFormed (ValueMap.insert k (merged old v) dest) src
        (
          ValueMap.insert-HasDistinctKeys k (merged old v) dest d.0,
          AreWellFormed-insert k (merged old v) dest w d.1,
        )
        s.1

  merged-IsWellFormed :
      (o : Option C5DataValue) (src : C5DataValue)
      → IsWellFormedOption o
      → IsWellFormed src
      → IsWellFormed (merged o src)
  merged-IsWellFormed none src o s = s
  merged-IsWellFormed (some (map dest)) (map src) o s = merge-IsWellFormed dest src o s.1
  merged-IsWellFormed (some v) src o s = s

abbrev pub AllWellFormed : List (Option Fields) → Type 0
AllWellFormed [] = Unit
AllWellFormed (none ∷ files) = AllWellFormed files
AllWellFormed (some file ∷ files) = IsWellFormed (map file) × AllWellFormed files

pub merge_files-IsWellFormed :
    (files : List (Option Fields)) (raw : Fields)
    → IsWellFormed (map raw)
    → AllWellFormed files
    → IsWellFormed (map (merge_files raw files))
unfolding merge_files
merge_files-IsWellFormed [] raw w h = w
merge_files-IsWellFormed (none ∷ files) raw w h = merge_files-IsWellFormed files raw w h
merge_files-IsWellFormed (some file ∷ files) raw w h =
    merge_files-IsWellFormed files (merge raw file) (merge-IsWellFormed raw file w h.0.1) h.1
