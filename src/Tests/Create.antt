-- ===== src/Tests/Create.antt =====
-- Runs of the start of a store from files.
use c5store.Base.{
  ℕ, ◌≡◌, refl, Bool, true, none, some, Option, List, [], ◌∷◌, ◌==◌, returned, if◌then◌else◌,
}
use c5store.Text.{Str, str_eq, bytes_of, starts_with, ends_with}
use c5store.Crates.ListMultiMap.{ListMultiMap}
use c5store.Crates.Documents.{YamlValue, YamlEntries}
use c5store.Fixtures.Listeners.{by_function}
use c5store.Fixtures.Numbers.{kinds, kinds-IsLawful, natural}
use c5store.Secrets as Secrets
use c5store.Secrets.Files.{load_secret_key_files}
use c5store.Value.{C5DataValue, end, field}
use c5store.Value.Map as ValueMap
use c5store.Merge.{merge, merge_files}
use c5store.Serialization.{serde_yaml_val_to_c5_value, yaml_number}
use c5store.Flatten.{build_flat_map, join_keypath}
use c5store.Flatten.Leaves.{dotted}
use c5store.Manager.{C5StoreMgr}
use c5store.C5Store.{State, root_get}
use c5store.C5Store.ConfigFiles.{Document, map_entries, map_from_serde_yaml_valuemap}
use c5store.C5Store.Create.{
  default_config_paths, create_c5store, completed, default_options, default_secret_options,
  secret_keys,
}
use c5store.Value.Path.{value_at}
use c5store.C5Store.Layers.{region_file_wins}
use c5store.Tests.Common.{skip, skip-IsLawful, listeners, hash}
use c5store.Tests.Config.{a, one, two, single, only_leaf}

abbrev pub sections : ListMultiMap C5DataValue
sections = by_function C5DataValue

abbrev pub converts : YamlEntries kinds.Number → Bool
converts es = true

-- The file `y`, `a: 1`, and no other.
abbrev files : Str → Option (Document kinds converts)
files path = if path == bytes_of "y" then some ((a, YamlValue.number (natural 1)) ∷ []) else none

abbrev pub paths : List Str
paths = bytes_of "x" ∷ bytes_of "y" ∷ []

abbrev pub no_pem : List ℕ → Option (List ℕ)
no_pem content = none

-- `a: 2` in `c/common.yaml`, `a: 1` in `c/e-r.yaml`, and no other file.
abbrev layered : Str → Option (Document kinds converts)
layered path =
    if path == bytes_of "c/common.yaml"
    then some ((a, YamlValue.number (natural 2)) ∷ [])
    else if path == bytes_of "c/e-r.yaml"
    then some ((a, YamlValue.number (natural 1)) ∷ [])
    else none

region_file_wins_example :
    (t : State skip hash listeners) × (mgr : C5StoreMgr (State skip hash listeners) sections.Map)
    × (create_c5store skip hash listeners sections kinds converts no_pem layered
          (default_config_paths (bytes_of "c") (bytes_of "p") (bytes_of "e") (bytes_of "r"))
          none
        ≡ returned (t, mgr))
    × (root_get skip hash listeners t (dotted [] (a ∷ [])) ≡ some one)
unfolding str_eq ends_with ValueMap.lookup ValueMap.insert merge_files build_flat_map join_keypath
    completed default_options default_secret_options secret_keys load_secret_key_files
    map_from_serde_yaml_valuemap map_entries serde_yaml_val_to_c5_value yaml_number starts_with
    value_at merge
region_file_wins_example =
    region_file_wins skip skip-IsLawful hash listeners sections kinds kinds-IsLawful converts no_pem
      layered (bytes_of "c") (bytes_of "p") (bytes_of "e") (bytes_of "r") none Secrets.new
      (bytes_of ".c5encval") (some (field a two end)) none none none single (a ∷ []) one refl refl
      (refl, (refl, tt)) refl refl (λ u e. tt) only_leaf (refl, tt, tt)
