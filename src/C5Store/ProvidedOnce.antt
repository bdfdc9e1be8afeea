-- ===== src/C5Store/ProvidedOnce.antt =====
-- `set_value_provider` (c5store_rust/src/lib.rs) with a provider of file values for which the files
-- have one section.
use c5store.Base.{
  ℕ, ◌≡◌, refl, subst, sym, ◌∙◌, zero, suc, true, some, is_some, List, [], ◌∷◌, returned,
}
use c5store.Base.Exec.{pure}
use c5store.Text.{Str, str_eq, bytes_of}
use c5store.HashMap
use c5store.Crates.SkipMap.{SkipMap}
use c5store.Crates.ListMultiMap.{ListMultiMap}
use c5store.Value.{C5DataValue, string, map, Fields}
use c5store.Value.Map as ValueMap
use c5store.Flatten.{with_place, config_key_provider}
use c5store.Providers.{
  C5FileValueProvider, C5FileValueProviderSchema, C5ValueProviderSchema, register, unregister,
  text_or,
}
use c5store.Providers.Schema.{from_map-with_place, lookup-with_place}
use c5store.Manager.{ValueProvider, C5StoreMgr, set_value_provider, schedule}
use c5store.C5Store.{State}
use c5store.C5Store.Hydrate.{FileSystem, hydrate}
use c5store.C5Store.Hydration.{Holds, AllHold, push_all, hydrate_lem}

-- A file as its section describes it.
abbrev pub described_file : C5ValueProviderSchema → Str → Str → Str → C5FileValueProviderSchema
described_file value_schema path encoding format = record {
  value_schema = value_schema;
  path = path;
  encoding = encoding;
  format = format;
}

-- The section names a file, its encoding and its format, `utf8` and `raw` if it names none.
pub record Describes (section : Fields) (file encoding format : Str) : Type 0 where
  pub path_is : ValueMap.lookup (bytes_of "path") section ≡ some (string file)
  pub encoding_is :
      text_or (bytes_of "utf8") (ValueMap.lookup (bytes_of "encoding") section) ≡ some encoding
  pub format_is :
      text_or (bytes_of "raw") (ValueMap.lookup (bytes_of "format") section) ≡ some format

-- The schema of a section that was found under this key at this key path.
abbrev pub placed : Str → Str → Str → C5ValueProviderSchema
placed name key path = record { value_provider = name; value_key_path = path; value_key = key }

abbrev pub registered :
    C5FileValueProvider → Str → Str → Str → Str → Str → Str → C5FileValueProvider
registered p name key path file encoding format = record p {
  key_data_map =
      HashMap.insert path (described_file (placed name key path) file encoding format)
        p.key_data_map;
}

-- A section is registered under the key path at which it was found.
pub register-with_place :
    (p : C5FileValueProvider) (name key path file encoding format : Str) (section : Fields)
    → ValueMap.lookup config_key_provider section ≡ some (string name)
    → Describes section file encoding format
    → register p (map (with_place key path section))
      ≡ returned (registered p name key path file encoding format)
unfolding register str_eq
register-with_place p name key path file encoding format section provider describes =
    rw (from_map-with_place key path section name provider) (
      rw (lookup-with_place key path section (bytes_of "path") refl refl, describes.path_is)
        (rw
          (
            lookup-with_place key path section (bytes_of "encoding") refl refl,
            describes.encoding_is,
          )
          (rw
            (lookup-with_place key path section (bytes_of "format") refl refl, describes.format_is)
            refl)))

providers-schedule :
    {S P : Type 0} (name : Str) (period : ℕ) (mgr : C5StoreMgr S P)
    → (schedule name period mgr).value_providers ≡ mgr.value_providers
providers-schedule name zero mgr = refl
providers-schedule name (suc period) mgr = refl

module _ {L : Type 0} (s : SkipMap C5DataValue) (sha256 : List ℕ → List ℕ) (m : ListMultiMap L)
    (fs : FileSystem) where
  -- `impl C5ValueProvider for C5FileValueProvider`
  abbrev pub file_values : ValueProvider (State s sha256 m) C5FileValueProvider
  file_values = record {
    register = register;
    unregister = unregister;
    hydrate = hydrate s sha256 m fs;
  }

  -- A table of one file, which can be found and read: its value is pushed.
  pub hydrate_one :
      (a : State s sha256 m) (p : C5FileValueProvider) (path : Str)
      (schema : C5FileValueProviderSchema) (value : C5DataValue)
      → p.key_data_map ≡ (path, schema) ∷ []
      → Holds fs p schema (some value)
      → hydrate s sha256 m fs p a
        ≡ push_all s sha256 m fs ((path, schema) ∷ []) (some value ∷ []) (pure tt) a
  hydrate_one a p path schema value e holds =
      hydrate_lem s sha256 m fs p (some value ∷ []) a
        (subst (λ l. AllHold fs p l (some value ∷ [])) (sym e) (holds, tt))
      ∙ (λ i. push_all s sha256 m fs (e i) (some value ∷ []) (pure tt) a)

module _ {L : Type 0} (s : SkipMap C5DataValue) (sha256 : List ℕ → List ℕ) (m : ListMultiMap L)
    (fs : FileSystem) (pm : ListMultiMap C5DataValue) where
  -- A provider for which there is one section: it is registered, hydrated and kept under its name.
  pub set_once :
      (a t : State s sha256 m) (mgr : C5StoreMgr (State s sha256 m) pm.Map)
      (p p' : C5FileValueProvider) (name : Str) (section : C5DataValue) (period : ℕ)
      → pm.get_vec name mgr.provided_data ≡ some (section ∷ [])
      → register p section ≡ returned p'
      → hydrate s sha256 m fs p' a ≡ (returned tt, t)
      → let r = set_value_provider (file_values s sha256 m fs) pm name p period (a, mgr) in
        (r.0 ≡ returned tt)
        × (r.1.0 ≡ t)
        × (is_some (HashMap.lookup name r.1.1.value_providers) ≡ true)
  unfolding set_value_provider
  set_once a t mgr p p' name section period listed registers hydrates =
      let after = record mgr {
        value_providers = HashMap.insert name (hydrate s sha256 m fs p') mgr.value_providers;
      } in
      rw listed (
        rw registers (
          rw hydrates (
            refl,
            refl,
            rw (providers-schedule name period after) (
                rw (HashMap.lookup-insert_self name (hydrate s sha256 m fs p') mgr.value_providers)
                  refl),
          )))
