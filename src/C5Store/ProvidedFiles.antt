-- ===== src/C5Store/ProvidedFiles.antt =====
-- From the configuration files to the values of a file that one of their sections names
-- (c5store_rust/src/lib.rs, c5store_rust/src/providers.rs): `create_c5store`, and then
-- `set_value_provider` with the provider of file values.
use c5store.Base.{ℕ, Bool, Option, none, some, List, [], ◌∷◌, map, ◌≡◌, returned, ◌∙◌, ap}
use c5store.Text.{Str}
use c5store.Crates.SkipMap.{SkipMap, IsLawful}
use c5store.Crates.ListMultiMap as ListMultiMap
use c5store.Crates.ListMultiMap.{ListMultiMap}
use c5store.Crates.Documents as Documents
use c5store.Crates.Documents.{Numbers, YamlValue, YamlEntries}
use c5store.Secrets.{SecretKeyStore}
use c5store.Value as Value
use c5store.Value.{C5DataValue, string, Fields, end, field}
use c5store.Value.Map as ValueMap
use c5store.Merge.{merge_files}
use c5store.Flatten.{take_provided, build_flat_map, with_place, config_key_provider}
use c5store.Flatten.Leaves.{dotted, LeafIn}
use c5store.Flatten.Sections.{sections, sections_for, with_more, get_vec-take_provided}
use c5store.Serialization.{serde_yaml_val_to_c5_value}
use c5store.Providers.{C5ValueDeserializer}
use c5store.DataStore as DataStore
use c5store.DataStore.{Store, get_data}
use c5store.Manager as Manager
use c5store.Manager.{C5StoreMgr, set_value_provider}
use c5store.C5Store.{State, root_get, set_entries}
use c5store.C5Store.ConfigFiles.{Document}
use c5store.C5Store.Documents.{AllHold}
use c5store.C5Store.Hydrate.{FileSystem}
use c5store.C5Store.Loading.{CanLoad, DiffersFromAll, set_entries-Loaded}
use c5store.C5Store.ProvidedOnce.{file_values}
use c5store.C5Store.YamlValues.{NamesYaml, IsReadable, default_files, set_yaml_values}
use c5store.C5Store.Create.{C5StoreOptions, completed, secret_keys, create_c5store}
use c5store.C5Store.Created.{IsLoadable, IsLoadable-CanLoad, start, flat_of, create_c5store_result}

module _ {L : Type 0} (s : SkipMap C5DataValue) (lawful : IsLawful s) (sha256 : List ℕ → List ℕ)
    (m : ListMultiMap L) where
  -- The store tells each key of the first entries from each of the second ones.
  abbrev pub AllDiffer : Fields → Fields → Type 0
  AllDiffer end others = Unit
  AllDiffer (field k v entries) others =
      DiffersFromAll s lawful sha256 m k others × AllDiffer entries others

  -- What can be loaded at first can be loaded behind other entries, from whose keys it differs.
  CanLoad-behind :
      (segment : Str) (keys : SecretKeyStore) (flat entries : Fields)
      → IsLoadable s lawful sha256 m segment flat
      → IsLoadable s lawful sha256 m segment entries
      → AllDiffer entries flat
      → CanLoad s lawful sha256 m
          (set_entries s sha256 m flat (start s sha256 m segment keys)).1.data_store
          entries
  unfolding DataStore.new get_data
  CanLoad-behind segment keys flat end first load differ = tt
  CanLoad-behind segment keys flat (field k v entries) first load differ =
      let loaded =
        set_entries-Loaded s lawful sha256 m flat (start s sha256 m segment keys)
          (IsLoadable-CanLoad s lawful sha256 m segment keys flat first) in
      (
        rw loaded.segment (load.0),
        loaded.others k differ.0 ∙ lawful.get-new k,
        load.1,
        CanLoad-behind segment keys flat entries first load.2 differ.1,
      )

module _ {L : Type 0} (s : SkipMap C5DataValue) (lawful : IsLawful s) (sha256 : List ℕ → List ℕ)
    (m : ListMultiMap L) (fs : FileSystem) (pm : ListMultiMap C5DataValue)
    (sections_lawful : ListMultiMap.IsLawful pm) (n : Numbers) (numbers : Documents.IsLawful n)
    (converts : YamlEntries n.Number → Bool) (parse : List ℕ → Option (List ℕ))
    (read_file : Str → Option (Document n converts))
    (from_slice : List ℕ → Option (YamlValue n.Number))
    (from_str : Str → Option (YamlValue n.Number)) (deserialize_json : C5ValueDeserializer) where
  -- A store is created from configuration files of which one section names a value provider and a
  -- YAML file, with an encoding or without, and then the default provider of file values is set
  -- under that name: each leaf of the document in the file is read from the root at the key path of
  -- the section followed by the dotted path of the leaf. This is so if the secret keys can be read,
  -- the options name a segment for secrets, no other section names the provider, the file can be
  -- found, read and parsed, its document is a mapping, no other leaf of it has the same dotted
  -- path, and neither the flat configuration nor the flat document below the key path holds a
  -- secret, or a key that the store takes for another of the two.
  pub create_and_provide :
      (paths : List Str) (options : Option C5StoreOptions) (keys : SecretKeyStore) (segment : Str)
      (files : List (Option Fields)) (base name key path file encoding : Str) (section : Fields)
      (content : List ℕ) (yaml : YamlValue n.Number) (document : Fields) (period : ℕ)
      (ks : List Str) (leaf : C5DataValue)
      → secret_keys parse (completed options).secret_opts ≡ returned keys
      → (completed options).secret_opts.secret_key_path_segment ≡ some segment
      → AllHold n converts (map read_file paths) files
      → IsLoadable s lawful sha256 m segment (flat_of files)
      → sections_for name (sections [] (merge_files end files))
        ≡ Value.map (with_place key path section) ∷ []
      → ValueMap.lookup config_key_provider section ≡ some (string name)
      → NamesYaml section file encoding
      → IsReadable fs base file content
      → from_slice content ≡ some yaml
      → serde_yaml_val_to_c5_value n converts yaml ≡ returned (Value.map document)
      → LeafIn ks document leaf
      → ((js : List Str) (other : C5DataValue)
          → LeafIn js document other
          → dotted path ks ≡ dotted path js
          → other ≡ leaf)
      → IsLoadable s lawful sha256 m segment (build_flat_map document end path).1
      → AllDiffer s lawful sha256 m (build_flat_map document end path).1 (flat_of files)
      → (a : State s sha256 m) × (mgr : C5StoreMgr (State s sha256 m) pm.Map) × (create_c5store s
            sha256 m pm n converts parse read_file paths options
          ≡ returned (a, mgr))
        × (let (result, t) =
              set_value_provider
                (file_values s sha256 m fs)
                pm
                name
                (default_files n converts from_slice from_str deserialize_json base)
                period
                (a, mgr) in
            (result ≡ returned tt) × (root_get s sha256 m t.0 (dotted path ks) ≡ some leaf))
  unfolding Manager.new
  create_and_provide paths options keys segment files base name key path file encoding section
        content yaml document period ks leaf hk hs hold load one provider names readable parses
        converted h unique below differ =
      let a₀ = start s sha256 m segment keys in
      let flat = flat_of files in
      let raw = merge_files end files in
      let loaded =
        set_entries-Loaded s lawful sha256 m flat a₀
          (IsLoadable-CanLoad s lawful sha256 m segment keys flat load) in
      let a = (set_entries s sha256 m flat a₀).1 in
      let provided = (take_provided pm.insert raw end pm.new []).2 in
      let listed =
        get_vec-take_provided pm sections_lawful name raw end [] ∙ ap (with_more none) one in
      let (finished, found, kept) =
        set_yaml_values s lawful sha256 m fs pm n numbers converts from_slice from_str
          deserialize_json a (Manager.new provided) base name key path file encoding section content
          yaml document period ks leaf listed provider names readable parses converted h unique
          (CanLoad-behind s lawful sha256 m segment keys flat (build_flat_map document end path).1
            load below differ) in
      (
        a,
        Manager.new provided,
        create_c5store_result s lawful sha256 m pm n numbers converts parse read_file paths options
            keys segment files hk hs hold loaded.finished,
        (finished, found),
      )
