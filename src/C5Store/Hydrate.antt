-- ===== src/C5Store/Hydrate.antt =====
-- `hydrate` of the provider of file values (c5store_rust/src/providers.rs): the files that the
-- provider's table names are read and pushed into the store. `Path` and `fs` are the parameter
-- `FileSystem`; the warnings leave no trace.
use c5store.Base.{
  ℕ, Bool, not, Option, none, some, List, [], ◌∷◌, ◌==◌, Outcome, returned, panicked, unwrap_option,
  if◌then◌else◌,
}
use c5store.Base.Exec.{Exec, pure, lift, ◌>>=◌, ◌>>◌}
use c5store.Text.{Str, str_eq, bytes_of}
use c5store.HashMap
use c5store.Crates.SkipMap.{SkipMap}
use c5store.Crates.ListMultiMap.{ListMultiMap}
use c5store.Value.{C5DataValue, null, bytes}
use c5store.Providers.{C5FileValueProvider, C5FileValueProviderSchema, raw_bytes}
use c5store.C5Store.{State, set_data_fn, push_value_to_data_store}

-- `canonicalize` is that of the path below the base directory, and fails where there is no such
-- file; `read` fails where the file cannot be read.
pub record FileSystem : Type 0 where
  pub is_absolute : Str → Bool
  pub canonicalize : Str → Str → Option Str
  pub exists : Str → Bool
  pub read : Str → Option (List ℕ)

unfoldable pub resolved : FileSystem → Str → Str → Outcome Str
resolved fs base_dir_path path =
    if fs.is_absolute path
    then returned path
    else unwrap_option (fs.canonicalize base_dir_path path)

abbrev pub skip_none : Outcome C5DataValue → Outcome (Option C5DataValue)
skip_none (returned value) = returned (some value)
skip_none panicked = panicked

-- The value of a file, unless its format has no deserializer.
unfoldable pub deserialized :
    C5FileValueProvider → C5FileValueProviderSchema → List ℕ → Outcome (Option C5DataValue)
deserialized p schema file_bytes =
    if not (schema.format == bytes_of "raw")
    then elim (HashMap.lookup schema.format p.deserializer) [
      | none ↦ returned none
      | some deserializer ↦ skip_none (deserializer (raw_bytes file_bytes))
    ]
    else returned (some (bytes file_bytes))

module _ {L : Type 0} (s : SkipMap C5DataValue) (sha256 : List ℕ → List ℕ) (m : ListMultiMap L)
    (fs : FileSystem) where
  abbrev pub push_unless_skipped : Str → Option C5DataValue → Exec (State s sha256 m) (Unit {0})
  push_unless_skipped key_path none = pure tt
  push_unless_skipped key_path (some value) = push_value_to_data_store s sha256 m key_path value

  -- The body of the loop behind the resolved path, given what the rest of the loop does.
  abbrev pub hydrate_file :
      C5FileValueProvider
      → Str
      → C5FileValueProviderSchema
      → Exec (State s sha256 m) (Unit {0})
      → Str
      → Exec (State s sha256 m) (Unit {0})
  hydrate_file p key_path schema rest file_path =
      if not (fs.exists file_path) then set_data_fn s sha256 m key_path null else (do
        file_bytes ← lift (unwrap_option (fs.read file_path))
        deserialized_value ← lift (deserialized p schema file_bytes)
        push_unless_skipped key_path deserialized_value
        rest)

  -- A file that does not exist ends the loop.
  unfoldable pub hydrate_entries :
      C5FileValueProvider
      → List (Str × C5FileValueProviderSchema)
      → Exec (State s sha256 m) (Unit {0})
  hydrate_entries p [] = pure tt
  hydrate_entries p ((key_path, schema) ∷ entries) =
      let rest = hydrate_entries p entries in
      do
        file_path ← lift (resolved fs p.base_dir_path schema.path)
        hydrate_file p key_path schema rest file_path

  unfoldable pub hydrate : C5FileValueProvider → Exec (State s sha256 m) (Unit {0})
  unfolding hydrate_entries
  hydrate p = hydrate_entries p p.key_data_map
