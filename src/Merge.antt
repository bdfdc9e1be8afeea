-- ===== src/Merge.antt =====
-- `_merge` of c5store_rust/src/lib.rs: the configuration of a later file laid over that of the
-- earlier ones.
pub mod Precedence
pub mod Files
pub mod WellFormed
pub mod Overlay
pub mod Config
use c5store.Base.{Option, none, some, List, [], ◌∷◌}
use c5store.Value.{C5DataValue, map, Fields, end, field}
use c5store.Value.Map as ValueMap

-- `merged` is the value that the loop's body leaves at `src_key`, given the one that `dest` has there.
unfoldable mutual
  pub merge : Fields → Fields → Fields
  merge dest end = dest
  merge dest (field src_key src_value src) =
      merge (ValueMap.insert src_key (merged (ValueMap.lookup src_key dest) src_value) dest) src

  pub merged : Option C5DataValue → C5DataValue → C5DataValue
  merged none src_value = src_value
  merged (some (map dest_map)) (map src_map) = map (merge dest_map src_map)
  merged (some dest_value) src_value = src_value

-- The loop of `read_config_data` over its files. A file that cannot be opened or parsed is `none`.
unfoldable pub merge_files : Fields → List (Option Fields) → Fields
unfolding merge
merge_files raw_config_data [] = raw_config_data
merge_files raw_config_data (none ∷ files) = merge_files raw_config_data files
merge_files raw_config_data (some config_value ∷ files) =
    merge_files (merge raw_config_data config_value) files
