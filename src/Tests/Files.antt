-- ===== src/Tests/Files.antt =====
-- Runs of the provider of file values.
use c5store.Base.{◌≡◌, refl, inr, panicked, none, some, List, [], ◌∷◌, ◌==◌, if◌then◌else◌}
use c5store.Text.{Str, str_eq, bytes_of, starts_with}
use c5store.Value.{bytes}
use c5store.Providers.{C5FileValueProvider, C5FileValueProviderSchema}
use c5store.C5Store.Hydrate.{FileSystem, hydrate, resolved, deserialized}
use c5store.C5Store.Hydration.{push_all, hydrate_stops}
use c5store.Tests.Common.{skip, listeners, hash, empty_store, with_store}

-- The file `/x` and no other; no path below a base directory can be found.
abbrev pub disk : FileSystem
disk = record {
  is_absolute = λ path. starts_with path (bytes_of "/");
  canonicalize = λ base path. none;
  exists = λ path. path == bytes_of "/x";
  read = λ path. if path == bytes_of "/x" then some (1 ∷ 2 ∷ []) else none;
}

abbrev pub raw_at : Str → C5FileValueProviderSchema
raw_at path = record {
  value_schema = record {
    value_provider = bytes_of "resources";
    value_key_path = bytes_of "k";
    value_key = bytes_of "k";
  };
  path = path;
  encoding = bytes_of "utf8";
  format = bytes_of "raw";
}

abbrev pub provider : List (Str × C5FileValueProviderSchema) → C5FileValueProvider
provider table = record { base_dir_path = bytes_of "r"; key_data_map = table; deserializer = [] }

-- A missing file in front of one that is there.
-- The second file is given by a path below the base directory, where it cannot be found.
abbrev second_missing : List (Str × C5FileValueProviderSchema)
second_missing = (bytes_of "a", raw_at (bytes_of "/x")) ∷ (bytes_of "b", raw_at (bytes_of "y")) ∷ []

hydrate_stops_example :
    hydrate skip hash listeners disk (provider second_missing) (with_store empty_store)
    ≡ push_all skip hash listeners disk
        ((bytes_of "a", raw_at (bytes_of "/x")) ∷ [])
        (some (bytes (1 ∷ 2 ∷ [])) ∷ [])
        (λ t. (panicked, t))
        (with_store empty_store)
unfolding str_eq starts_with resolved deserialized
hydrate_stops_example =
    hydrate_stops skip hash listeners disk (provider second_missing)
      ((bytes_of "a", raw_at (bytes_of "/x")) ∷ []) [] (some (bytes (1 ∷ 2 ∷ [])) ∷ [])
      (bytes_of "b") (raw_at (bytes_of "y")) (with_store empty_store) refl
      (
        record {
          file_path = bytes_of "/x";
          content = 1 ∷ 2 ∷ [];
          found = refl;
          there = refl;
          readable = refl;
          value_is = refl;
        },
        tt,
      )
      (inr (refl, refl))
