-- ===== src/Merge/Overlay.antt =====
-- What is seen of a merged map (`_merge` of c5store_rust/src/lib.rs), by what is seen of the two maps.
use c5store.Base.{◌≡◌, refl, ◌∙◌, Option, Option-cases, inl, inr, none, some, List, [], ◌∷◌}
use c5store.Text.{Str}
use c5store.Value.{C5DataValue, map, Fields}
use c5store.Value.Map as ValueMap
use c5store.Value.Path.{value_at, and_then, IsWellFormed, IsWellFormed-lookup}
use c5store.Value.Seen.{Seen, nothing, a_map, leaf, seen, seen_of}
use c5store.Merge.{merge, merged, merge_files}
use c5store.Merge.WellFormed.{AllWellFormed}
use c5store.Merge.Precedence.{lookup-merge}

-- What is seen behind a key, by what the two maps show at the key (of the second one first): nothing
-- at it, a leaf, or a map, which is laid over the other if that is a map too.
abbrev chosen : Seen → Seen → Seen → Seen → Seen → Seen
chosen nothing there both dest src = dest
chosen (leaf v) there both dest src = src
chosen a_map a_map both dest src = both
chosen a_map _ both dest src = src

-- The second map laid over the first, key by key.
abbrev pub overlay : List Str → (List Str → Seen) → (List Str → Seen) → Seen
overlay [] dest src = a_map
overlay (k ∷ ks) dest src =
    chosen (src (k ∷ [])) (dest (k ∷ [])) (overlay ks (λ js. dest (k ∷ js)) (λ js. src (k ∷ js)))
      (dest (k ∷ ks)) (src (k ∷ ks))

abbrev seen_under : Option C5DataValue → List Str → Seen
seen_under o js = seen_of (and_then o (value_at js))

-- That what is seen of a merged map along the path is the overlay.
abbrev IsOverlaid : List Str → Type 0
IsOverlaid ks =
    (dest src : Fields)
    → IsWellFormed (map src)
    → seen ks (map (merge dest src))
      ≡ overlay ks (λ js. seen js (map dest)) (λ js. seen js (map src))

merged-IsOverlaid :
    (ks : List Str) (o : Option C5DataValue) (v : C5DataValue)
    → IsOverlaid ks
    → IsWellFormed v
    → seen ks (merged o v)
      ≡ chosen
          (seen [] v)
          (seen_under o [])
          (overlay ks (seen_under o) (λ js. seen js v))
          (seen_under o ks)
          (seen ks v)
unfolding value_at merge
merged-IsOverlaid ks none (map m) ih w = refl
merged-IsOverlaid ks none v ih w = refl
merged-IsOverlaid ks (some (map d)) (map m) ih w = ih d m w
merged-IsOverlaid ks (some d) (map m) ih w = refl
merged-IsOverlaid ks (some d) v ih w = refl

-- What is seen of the merged map along a path is the overlay of what is seen of the two maps.
pub seen-merge :
    (ks : List Str) (dest src : Fields)
    → IsWellFormed (map src)
    → seen ks (map (merge dest src))
      ≡ overlay ks (λ js. seen js (map dest)) (λ js. seen js (map src))
unfolding value_at merge
seen-merge [] dest src w = refl
seen-merge (k ∷ ks) dest src w = elim (Option-cases (ValueMap.lookup k src)) [
  | inl e ↦ rw (lookup-merge dest src k w.0, e)
  | inr (v, e) ↦
      rw (lookup-merge dest src k w.0, e)
        (merged-IsOverlaid ks (ValueMap.lookup k dest) v (seen-merge ks)
          (IsWellFormed-lookup src k v w.1 e))
]

-- What is seen of a map once what is seen of the files is laid over it, one after the other.
abbrev pub overlay_files : (List Str → Seen) → List (Option Fields) → List Str → Seen
overlay_files below [] ks = below ks
overlay_files below (none ∷ files) ks = overlay_files below files ks
overlay_files below (some file ∷ files) ks =
    overlay_files (λ js. overlay js below (λ ls. seen ls (map file))) files ks

-- What is seen of the merged files along a path of keys, which have no key twice in a map, is found
-- without merging them, by laying each file in turn over what is seen so far: at a key where the
-- file shows nothing, what was there is seen, where both show maps, these are laid over each other,
-- and everywhere else the file is seen; a file that cannot be read adds nothing.
pub seen-merge_files :
    (files : List (Option Fields)) (raw : Fields) (ks : List Str)
    → AllWellFormed files
    → seen ks (map (merge_files raw files)) ≡ overlay_files (λ js. seen js (map raw)) files ks
unfolding merge_files
seen-merge_files [] raw ks w = refl
seen-merge_files (none ∷ files) raw ks w = seen-merge_files files raw ks w
seen-merge_files (some file ∷ files) raw ks w =
    seen-merge_files files (merge raw file) ks w.1
    ∙ (λ i. overlay_files (λ js. seen-merge js raw file w.0 i) files ks)
