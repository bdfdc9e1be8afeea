-- ===== src/C5Store/FileValues.antt =====
-- The provider of file values under the manager: from the sections of the configuration to the values
-- in the store (c5store_rust/src/lib.rs, c5store_rust/src/providers.rs).
use c5store.Base.{
  ℕ, ◌≡◌, refl, ◌∙◌, true, false, none, some, is_some, List, [], ◌∷◌, returned, arith,
}
use c5store.Text.{Str, str_eq, bytes_of, ends_with}
use c5store.HashMap
use c5store.Crates.SkipMap.{SkipMap, IsLawful}
use c5store.Crates.ListMultiMap.{ListMultiMap}
use c5store.Value.{C5DataValue, string, bytes, map, Fields}
use c5store.Value.Map as ValueMap
use c5store.Flatten.{with_place, config_key_provider}
use c5store.Providers.{
  C5FileValueProvider, C5FileValueProviderSchema, C5ValueProviderSchema, C5ValueDeserializer,
}
use c5store.DataStore.{get_data, set_data}
use c5store.DataStore.Plain.{set_data_plain}
use c5store.Manager.{C5StoreMgr, set_value_provider}
use c5store.C5Store.{State, root_get, push_value_to_data_store}
use c5store.C5Store.Hydrate.{FileSystem, deserialized}
use c5store.C5Store.Hydration.{Holds}
use c5store.C5Store.Loading.{set_new}
use c5store.C5Store.YamlValues.{IsReadable}
use c5store.C5Store.ProvidedOnce.{
  Describes, described_file, placed, register-with_place, file_values, hydrate_one, set_once,
}

-- A provider with these deserializers and this table.
abbrev pub provider_of :
    Str
    → List (Str × C5ValueDeserializer)
    → List (Str × C5FileValueProviderSchema)
    → C5FileValueProvider
provider_of base deserializers table = record {
  base_dir_path = base;
  key_data_map = table;
  deserializer = deserializers;
}

-- The bytes of a raw file are its value.
Holds-raw :
    (fs : FileSystem) (base : Str) (deserializers : List (Str × C5ValueDeserializer))
    (table : List (Str × C5FileValueProviderSchema)) (value_schema : C5ValueProviderSchema)
    (file encoding : Str) (content : List ℕ)
    → IsReadable fs base file content
    → Holds fs
        (provider_of base deserializers table)
        (described_file value_schema file encoding (bytes_of "raw"))
        (some (bytes content))
unfolding deserialized str_eq
Holds-raw fs base deserializers table value_schema file encoding content r = record {
  file_path = r.file_path;
  content = content;
  found = r.found;
  there = r.there;
  readable = r.readable;
  value_is = refl;
}

module _ {L : Type 0} (s : SkipMap C5DataValue) (lawful : IsLawful s) (sha256 : List ℕ → List ℕ)
    (m : ListMultiMap L) (fs : FileSystem) (pm : ListMultiMap C5DataValue) where
  -- A section of the configuration that names a raw file, with an encoding or without, for its
  -- value provider: once the provider of file values is set under that name with an empty table of
  -- files, the bytes of the file are read from the root at the key path of the section, and the
  -- provider is kept under its name, to be refreshed. This is so if the section is the only one
  -- that names the provider, the file can be found and read, no value was at the key path, and it
  -- is none of a secret.
  pub set_file_values :
      (a : State s sha256 m) (mgr : C5StoreMgr (State s sha256 m) pm.Map) (base : Str)
      (deserializers : List (Str × C5ValueDeserializer)) (name key path file encoding : Str)
      (section : Fields) (content : List ℕ) (period : ℕ)
      → pm.get_vec name mgr.provided_data ≡ some (map (with_place key path section) ∷ [])
      → ValueMap.lookup config_key_provider section ≡ some (string name)
      → Describes section file encoding (bytes_of "raw")
      → IsReadable fs base file content
      → ends_with path a.data_store.secret_key_path_segment ≡ false
      → get_data s sha256 a.data_store path ≡ none
      → let (result, t) =
          set_value_provider
            (file_values s sha256 m fs)
            pm
            name
            (provider_of base deserializers [])
            period
            (a, mgr) in
        (result ≡ returned tt)
        × (root_get s sha256 m t.0 path ≡ some (bytes content))
        × (is_some (HashMap.lookup name t.1.value_providers) ≡ true)
  unfolding root_get push_value_to_data_store HashMap.insert
  set_file_values a mgr base deserializers name key path file encoding section content period listed
        provider names readable plain absent =
      let value = bytes content in
      let schema = described_file (placed name key path) file encoding (bytes_of "raw") in
      let p = provider_of base deserializers [] in
      let p' = provider_of base deserializers ((path, schema) ∷ []) in
      let hydrated = hydrate_one s sha256 m fs a p' path schema value refl (
        Holds-raw fs base deserializers ((path, schema) ∷ []) (placed name key path) file encoding
          content readable) in
      let pushed = rw (set_new s lawful sha256 m a path value plain absent) at hydrated in
      let (finished, same, kept) =
        set_once s sha256 m fs pm a
          (record a { data_store = (set_data s sha256 a.data_store path value).1 }) mgr p p' name
          (map (with_place key path section)) period listed
          (register-with_place p name key path file encoding (bytes_of "raw") section provider
            names)
          pushed in
      let (ret, reads, cache) = set_data_plain s lawful sha256 a.data_store path value plain in
      (finished, rw same (reads path ∙ ground (arith, lawful.same_key_refl path)), kept)
