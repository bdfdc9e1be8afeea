-- ===== src/C5Store/ConfigFiles.antt =====
-- `read_config_data` of c5store_rust/src/lib.rs with the documents that its files hold: each is turned
-- into values as it is read, and merged at once. A file that cannot be opened or parsed is `none`.
use c5store.Base.{ℕ, Bool, Option, none, some, List, [], ◌∷◌, Outcome, returned, ◌>>=◌}
use c5store.Base.Exec as Exec
use c5store.Base.Exec.{Exec}
use c5store.Text.{Str}
use c5store.Crates.SkipMap.{SkipMap}
use c5store.Crates.ListMultiMap.{ListMultiMap}
use c5store.Crates.Documents.{Numbers, YamlValue, YamlEntries}
use c5store.Value.{C5DataValue, Fields, end}
use c5store.Value.Map as ValueMap
use c5store.Merge.{merge}
use c5store.Serialization.{serde_yaml_val_to_c5_value}
use c5store.Flatten.{take_provided}
use c5store.C5Store.{State, set_entries}

-- The order in which a run iterates over the `HashMap`s of the merged configuration, nested ones
-- included, and over that of the flat one, as the reordering of the entries.
pub record IterationOrder : Type 0 where
  pub merged : Fields → Fields
  pub flat : Fields → Fields

-- The order of the insertions.
abbrev pub as_inserted : IterationOrder
as_inserted = record { merged = λ m. m; flat = λ m. m }

module _ (n : Numbers) (converts : YamlEntries n.Number → Bool) where
  -- A file: a `HashMap<String, Value>`, in the order of its iteration.
  abbrev pub Document : Type 0
  Document = List (Str × YamlValue n.Number)

  unfoldable pub map_entries : Document → Fields → Outcome Fields
  map_entries [] result = returned result
  map_entries ((key, value) ∷ value_map) result = do
    c5_value ← serde_yaml_val_to_c5_value n converts value
    map_entries value_map (ValueMap.insert key c5_value result)

  -- `_map_from_serde_yaml_valuemap`
  unfoldable pub map_from_serde_yaml_valuemap : Document → Outcome Fields
  unfolding map_entries
  map_from_serde_yaml_valuemap value_map = map_entries value_map end

  -- The loop over the files.
  unfoldable pub merge_documents : Fields → List (Option Document) → Outcome Fields
  unfolding map_from_serde_yaml_valuemap
  merge_documents raw_config_data [] = returned raw_config_data
  merge_documents raw_config_data (none ∷ files) = merge_documents raw_config_data files
  merge_documents raw_config_data (some document ∷ files) = do
    config_value ← map_from_serde_yaml_valuemap document
    merge_documents (merge raw_config_data config_value) files

module _ {L P : Type 0} (s : SkipMap C5DataValue) (sha256 : List ℕ → List ℕ) (m : ListMultiMap L)
    (n : Numbers) (converts : YamlEntries n.Number → Bool)
    (insert_provided : Str → C5DataValue → P → P) where
  -- `_take_provided_data` and the loop that hands the flat entries over, as the maps are iterated.
  abbrev pub take_and_set : IterationOrder → P → Fields → Exec (State s sha256 m) P
  take_and_set order provided raw_config_data =
      let taken = take_provided insert_provided (order.merged raw_config_data) end provided [] in
      Exec.◌>>◌ (set_entries s sha256 m (order.flat taken.1)) (Exec.pure taken.2)

  unfoldable pub read_config_files_in :
      IterationOrder → List (Option (Document n converts)) → P → Exec (State s sha256 m) P
  unfolding merge_documents
  read_config_files_in order files provided =
      Exec.◌>>=◌ (Exec.lift (merge_documents n converts end files)) (take_and_set order provided)

  unfoldable pub read_config_files :
      List (Option (Document n converts)) → P → Exec (State s sha256 m) P
  unfolding read_config_files_in
  read_config_files files provided = read_config_files_in as_inserted files provided
