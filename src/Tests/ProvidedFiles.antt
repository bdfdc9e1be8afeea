-- ===== src/Tests/ProvidedFiles.antt =====
-- A run of the start of a store from a file that names a YAML file for a value provider.
use c5store.Base.{
  ◌≡◌, refl, true, none, some, is_some, Option, [], ◌∷◌, ◌==◌, returned, if◌then◌else◌,
}
use c5store.Text.{Str, str_eq, bytes_of, starts_with, ends_with}
use c5store.Fixtures.Numbers.{kinds, kinds-IsLawful}
use c5store.Fixtures.Listeners.{by_function-IsLawful}
use c5store.Crates.Documents.{YamlValue, entry, no_entries}
use c5store.Secrets as Secrets
use c5store.Secrets.Files.{load_secret_key_files}
use c5store.Value as Value
use c5store.HashMap
use c5store.Fixtures.Sorted.{find}
use c5store.Value.{C5DataValue, Fields, string, bytes, end, field}
use c5store.Value.Map as ValueMap
use c5store.Merge.{merge_files, merge}
use c5store.Serialization.{serde_yaml_val_to_c5_value, yaml_number, final_key}
use c5store.DataStore.{get_data}
use c5store.Flatten.{build_flat_map, join_keypath, with_place}
use c5store.Flatten.Leaves.{dotted}
use c5store.Flatten.Sections.{sections}
use c5store.Manager as Manager
use c5store.C5Store.FileValues.{provider_of, set_file_values}
use c5store.Manager.{C5StoreMgr, set_value_provider}
use c5store.C5Store.{State, root_get}
use c5store.C5Store.ConfigFiles.{Document, map_entries, map_from_serde_yaml_valuemap}
use c5store.C5Store.Hydrate.{resolved}
use c5store.C5Store.ProvidedOnce.{file_values}
use c5store.C5Store.YamlValues.{default_files}
use c5store.C5Store.Create.{
  create_c5store, completed, default_options, default_secret_options, secret_keys,
}
use c5store.C5Store.ProvidedFiles.{create_and_provide}
use c5store.Tests.Common.{skip, skip-IsLawful, listeners, hash, empty_store, with_store}
use c5store.Tests.Config.{a, one, single, only_leaf_below}
use c5store.Tests.Create as Create
use c5store.Tests.Create.{converts, no_pem, paths}
use c5store.Tests.Files.{disk}
use c5store.Tests.YamlValues.{section, k, document, from_slice, from_str, no_json}

abbrev text : Str → YamlValue kinds.Number
text t = YamlValue.string t

-- The file `y`, `k: { .provider: "resources", path: "/x", encoding: "utf8", format: "yaml" }`.
abbrev names_section : YamlValue kinds.Number
names_section = YamlValue.mapping (
    entry (text (bytes_of ".provider")) (text (bytes_of "resources")) (
      entry (text (bytes_of "path")) (text (bytes_of "/x")) (
        entry (text (bytes_of "encoding")) (text (bytes_of "utf8"))
          (entry (text (bytes_of "format")) (text (bytes_of "yaml")) no_entries))))

abbrev files : Str → Option (Document kinds converts)
files path = if path == bytes_of "y" then some ((k, names_section) ∷ []) else none

create_and_provide_example :
    (t : State skip hash listeners) × (mgr : C5StoreMgr
      (State skip hash listeners)
      Create.sections.Map)
    × (create_c5store skip hash listeners Create.sections kinds converts no_pem files paths none
        ≡ returned (t, mgr))
    × (let (result, u) =
          set_value_provider
            (file_values skip hash listeners disk)
            Create.sections
            (bytes_of "resources")
            (default_files kinds converts from_slice from_str no_json (bytes_of "r"))
            5
            (t, mgr) in
        (result ≡ returned tt) × (root_get skip hash listeners u.0 (dotted k (a ∷ [])) ≡ some one))
unfolding str_eq starts_with ends_with ValueMap.lookup ValueMap.insert ValueMap.contains_key
    merge_files merge build_flat_map join_keypath completed default_options default_secret_options
    secret_keys load_secret_key_files map_from_serde_yaml_valuemap map_entries
    serde_yaml_val_to_c5_value yaml_number final_key resolved sections
create_and_provide_example =
    create_and_provide skip skip-IsLawful hash listeners disk Create.sections
      (by_function-IsLawful C5DataValue) kinds kinds-IsLawful converts no_pem files from_slice
      from_str no_json paths none Secrets.new (bytes_of ".c5encval")
      (none ∷ some (field k (Value.map section) end) ∷ []) (bytes_of "r") (bytes_of "resources") k k
      (bytes_of "/x") (bytes_of "utf8") section (1 ∷ 2 ∷ []) document single 5 (a ∷ []) one refl
      refl (refl, tt) tt refl refl (record { path_is = refl; encoding_is = refl; format_is = refl })
      (record { file_path = bytes_of "/x"; found = refl; there = refl; readable = refl }) refl refl
      (one, refl, (refl, refl)) only_leaf_below (refl, tt, tt) (tt, tt)

-- `k: { .provider: "resources", path: "/x", encoding: "utf8" }`
abbrev raw_section : Fields
raw_section = field (bytes_of ".provider") (string (bytes_of "resources")) (
    field (bytes_of "path") (string (bytes_of "/x"))
      (field (bytes_of "encoding") (string (bytes_of "utf8")) end))

abbrev with_section : C5StoreMgr (State skip hash listeners) Create.sections.Map
with_section = Manager.new (
    Create.sections.insert (bytes_of "resources") (Value.map (with_place k k raw_section))
      Create.sections.new)

set_file_values_example :
    let (result, t) =
      set_value_provider
        (file_values skip hash listeners disk)
        Create.sections
        (bytes_of "resources")
        (provider_of (bytes_of "r") [] [])
        5
        (with_store empty_store, with_section) in
    (result ≡ returned tt)
    × (root_get skip hash listeners t.0 k ≡ some (bytes (1 ∷ 2 ∷ [])))
    × (is_some (HashMap.lookup (bytes_of "resources") t.1.value_providers) ≡ true)
unfolding str_eq ends_with starts_with ValueMap.lookup ValueMap.insert resolved with_place get_data
    find empty_store Manager.new
set_file_values_example =
    set_file_values skip skip-IsLawful hash listeners disk Create.sections (with_store empty_store)
      with_section (bytes_of "r") [] (bytes_of "resources") k k (bytes_of "/x") (bytes_of "utf8")
      raw_section (1 ∷ 2 ∷ []) 5 refl refl
      (record { path_is = refl; encoding_is = refl; format_is = refl })
      (record { file_path = bytes_of "/x"; found = refl; there = refl; readable = refl }) refl refl
