-- ===== src/Merge/Files.antt =====
-- The layers of a configuration: any number of files merged in turn, as `read_config_data` of
-- c5store_rust/src/lib.rs does.
use c5store.Base.{◌≡◌, refl, ◌∙◌, false, Option, none, some, List, [], ◌∷◌, ◌++◌}
use c5store.Text.{Str}
use c5store.Value.{C5DataValue, map, Fields}
use c5store.Value.Path.{is_map, value_at, Misses, IsWellFormed}
use c5store.Merge.{merge, merge_files}
use c5store.Merge.Precedence.{merge_leaf, merge_miss}

-- A file that was not read, or that has nothing on the path.
abbrev pub LeavesAlone : List Str → Option Fields → Type 0
LeavesAlone p none = Unit
LeavesAlone p (some src) = IsWellFormed (map src) × Misses p (map src)

abbrev pub AllLeaveAlone : List Str → List (Option Fields) → Type 0
AllLeaveAlone p [] = Unit
AllLeaveAlone p (file ∷ files) = LeavesAlone p file × AllLeaveAlone p files

pub merge_files_miss :
    (p : List Str) (files : List (Option Fields)) (raw : Fields)
    → AllLeaveAlone p files
    → value_at p (map (merge_files raw files)) ≡ value_at p (map raw)
unfolding merge_files
merge_files_miss p [] raw h = refl
merge_files_miss p (none ∷ files) raw h = merge_files_miss p files raw h.1
merge_files_miss p (some src ∷ files) raw h =
    merge_files_miss p files (merge raw src) h.1 ∙ merge_miss p raw src h.0.0 h.0.1

-- A leaf of a well-formed file stands in the merged configuration if no later file reaches its
-- path, whatever the earlier files say and however many files cannot be read.
pub last_file_wins :
    (p : List Str) (earlier later : List (Option Fields)) (src raw : Fields) (v : C5DataValue)
    → IsWellFormed (map src)
    → value_at p (map src) ≡ some v
    → is_map v ≡ false
    → AllLeaveAlone p later
    → value_at p (map (merge_files raw (earlier ++ (some src ∷ later)))) ≡ some v
unfolding merge_files
last_file_wins p [] later src raw v w h n a =
    merge_files_miss p later (merge raw src) a ∙ merge_leaf p raw src v w h n
last_file_wins p (none ∷ earlier) later src raw v w h n a =
    last_file_wins p earlier later src raw v w h n a
last_file_wins p (some e ∷ earlier) later src raw v w h n a =
    last_file_wins p earlier later src (merge raw e) v w h n a
