-- ===== src/C5Store/YamlValues.antt =====
-- A YAML file under the provider of file values: from the section of the configuration that names it
-- to the leaves of the document in the store (c5store_rust/src/providers.rs,
-- c5store_rust/src/serialization.rs and c5store_rust/src/lib.rs).
use c5store.Base.{
  ℕ, ◌≡◌, refl, ap, subst, true, Bool, Option, some, is_some, List, [], ◌∷◌, returned,
}
use c5store.Text.{Str, str_eq, bytes_of}
use c5store.HashMap
use c5store.Crates.SkipMap.{SkipMap, IsLawful}
use c5store.Crates.ListMultiMap.{ListMultiMap}
use c5store.Crates.Documents as Documents
use c5store.Crates.Documents.{Numbers, YamlValue, YamlEntries}
use c5store.Value.{C5DataValue, string, map, Fields, end}
use c5store.Value.Map as ValueMap
use c5store.Value.Path.{IsWellFormed}
use c5store.Flatten.{with_place, config_key_provider, build_flat_map}
use c5store.Flatten.Leaves.{dotted, LeafIn}
use c5store.Flatten.Reads.{flat_complete}
use c5store.Serialization.{serde_yaml_val_to_c5_value, deserialize_yaml}
use c5store.Serialization.WellFormed.{serde_yaml_val_to_c5_value-IsWellFormed}
use c5store.Providers.{
  C5FileValueProvider, C5ValueDeserializer, raw_bytes, default_provider, text_or,
}
use c5store.Manager.{C5StoreMgr, set_value_provider}
use c5store.C5Store.{State, root_get, set_entries, push_value_to_data_store}
use c5store.C5Store.Hydrate.{FileSystem, resolved, deserialized, skip_none}
use c5store.C5Store.Hydration.{Holds}
use c5store.C5Store.Loading.{CanLoad, set_entries-Loaded}
use c5store.C5Store.ProvidedOnce.{
  Describes, described_file, placed, registered, register-with_place, file_values, hydrate_one,
  set_once,
}

-- The section names a YAML file, and this encoding, or none if that is `utf8`.
pub record NamesYaml (section : Fields) (file encoding : Str) : Type 0 where
  pub path_is : ValueMap.lookup (bytes_of "path") section ≡ some (string file)
  pub encoding_is :
      text_or (bytes_of "utf8") (ValueMap.lookup (bytes_of "encoding") section) ≡ some encoding
  pub format_is : ValueMap.lookup (bytes_of "format") section ≡ some (string (bytes_of "yaml"))

NamesYaml-Describes :
    (section : Fields) (file encoding : Str)
    → NamesYaml section file encoding
    → Describes section file encoding (bytes_of "yaml")
NamesYaml-Describes section file encoding names = record {
  path_is = names.path_is;
  encoding_is = names.encoding_is;
  format_is = rw names.format_is refl;
}

-- The file can be found below the directory of the provider, or at its absolute path, and read.
pub record IsReadable (fs : FileSystem) (base file : Str) (content : List ℕ) : Type 0 where
  pub file_path : Str
  pub found : resolved fs base file ≡ returned file_path
  pub there : fs.exists file_path ≡ true
  pub readable : fs.read file_path ≡ some content

module _ (n : Numbers) (converts : YamlEntries n.Number → Bool)
    (from_slice : List ℕ → Option (YamlValue n.Number))
    (from_str : Str → Option (YamlValue n.Number)) (deserialize_json : C5ValueDeserializer) where
  -- `C5FileValueProvider::default`
  abbrev pub default_files : Str → C5FileValueProvider
  default_files base =
      default_provider deserialize_json (deserialize_yaml n converts from_slice from_str) base

  deserialize_yaml-parsed :
      (content : List ℕ) (yaml : YamlValue n.Number) (value : C5DataValue)
      → from_slice content ≡ some yaml
      → serde_yaml_val_to_c5_value n converts yaml ≡ returned value
      → deserialize_yaml n converts from_slice from_str (raw_bytes content) ≡ returned value
  unfolding deserialize_yaml
  deserialize_yaml-parsed content yaml value parses converted =
      rw (parses, deserialize_yaml) (rw converted refl)

  table_of :
      (base name key path file encoding : Str)
      → (registered (default_files base) name key path file encoding (bytes_of "yaml")).key_data_map
        ≡ (path, described_file (placed name key path) file encoding (bytes_of "yaml")) ∷ []
  unfolding default_provider HashMap.insert
  table_of base name key path file encoding = refl

  Holds-default :
      (fs : FileSystem) (base name key path file encoding : Str) (content : List ℕ)
      (yaml : YamlValue n.Number) (value : C5DataValue)
      → IsReadable fs base file content
      → from_slice content ≡ some yaml
      → serde_yaml_val_to_c5_value n converts yaml ≡ returned value
      → Holds fs
          (registered (default_files base) name key path file encoding (bytes_of "yaml"))
          (described_file (placed name key path) file encoding (bytes_of "yaml"))
          (some value)
  unfolding default_provider deserialized HashMap.lookup HashMap.insert str_eq
  Holds-default fs base name key path file encoding content yaml value r parses converted = record {
    file_path = r.file_path;
    content = content;
    found = r.found;
    there = r.there;
    readable = r.readable;
    value_is = ap skip_none (deserialize_yaml-parsed content yaml value parses converted);
  }

module _ {L : Type 0} (s : SkipMap C5DataValue) (lawful : IsLawful s) (sha256 : List ℕ → List ℕ)
    (m : ListMultiMap L) (fs : FileSystem) (pm : ListMultiMap C5DataValue) (n : Numbers)
    (numbers : Documents.IsLawful n) (converts : YamlEntries n.Number → Bool)
    (from_slice : List ℕ → Option (YamlValue n.Number))
    (from_str : Str → Option (YamlValue n.Number)) (deserialize_json : C5ValueDeserializer) where
  -- A section of the configuration that names a YAML file for its value provider: once the default
  -- provider of file values is set under that name, each leaf of the document that the file holds is
  -- read from the root at the key path of the section followed by the dotted path of the leaf. This
  -- is so if the file can be found, read and parsed, its document is a mapping, no other leaf of it
  -- has the same dotted path, and its flat form can be loaded below the key path, with no secret, no
  -- key that is there already, and no two keys that the store takes for one. The provider is kept
  -- under its name, to be refreshed.
  pub set_yaml_values :
      (a : State s sha256 m) (mgr : C5StoreMgr (State s sha256 m) pm.Map)
      (base name key path file encoding : Str) (section : Fields) (content : List ℕ)
      (yaml : YamlValue n.Number) (document : Fields) (period : ℕ) (ks : List Str)
      (leaf : C5DataValue)
      → pm.get_vec name mgr.provided_data ≡ some (map (with_place key path section) ∷ [])
      → ValueMap.lookup config_key_provider section ≡ some (string name)
      → NamesYaml section file encoding
      → IsReadable fs base file content
      → from_slice content ≡ some yaml
      → serde_yaml_val_to_c5_value n converts yaml ≡ returned (map document)
      → LeafIn ks document leaf
      → ((js : List Str) (other : C5DataValue)
          → LeafIn js document other
          → dotted path ks ≡ dotted path js
          → other ≡ leaf)
      → CanLoad s lawful sha256 m a.data_store (build_flat_map document end path).1
      → let (result, t) =
          set_value_provider
            (file_values s sha256 m fs)
            pm
            name
            (default_files n converts from_slice from_str deserialize_json base)
            period
            (a, mgr) in
        (result ≡ returned tt)
        × (root_get s sha256 m t.0 (dotted path ks) ≡ some leaf)
        × (is_some (HashMap.lookup name t.1.value_providers) ≡ true)
  unfolding root_get push_value_to_data_store
  set_yaml_values a mgr base name key path file encoding section content yaml document period ks
        leaf listed provider names readable parses converted h unique can =
      let p = default_files n converts from_slice from_str deserialize_json base in
      let p' = registered p name key path file encoding (bytes_of "yaml") in
      let schema = described_file (placed name key path) file encoding (bytes_of "yaml") in
      let flat = (build_flat_map document end path).1 in
      let loaded = set_entries-Loaded s lawful sha256 m flat a can in
      let hydrated =
        hydrate_one s sha256 m fs a p' path schema (map document)
          (table_of n converts from_slice from_str deserialize_json base name key path file
            encoding)
          (Holds-default n converts from_slice from_str deserialize_json fs base name key path file
            encoding content yaml (map document) readable parses converted) in
      let (finished, same, kept) =
        set_once s sha256 m fs pm a (set_entries s sha256 m flat a).1 mgr p p' name
          (map (with_place key path section)) period listed
          (register-with_place p name key path file encoding (bytes_of "yaml") section provider
            (NamesYaml-Describes section file encoding names))
          (rw loaded.finished at hydrated) in
      let (w, e, wf) = serde_yaml_val_to_c5_value-IsWellFormed n numbers converts yaml in
      let whole : IsWellFormed (map document) =
        let same_value : w ≡ map document = cc in subst IsWellFormed same_value wf in
      (
        finished,
        rw same (
            loaded.reads (dotted path ks) leaf
              (flat_complete document path ks leaf whole h unique)),
        kept,
      )
