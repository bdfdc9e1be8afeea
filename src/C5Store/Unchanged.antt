-- ===== src/C5Store/Unchanged.antt =====
-- The refresh of files that have not changed (c5store_rust/src/lib.rs, c5store_rust/src/providers.rs).
use c5store.Base.{ℕ, ◌≡◌, refl, true, some, none, Option, List, [], ◌∷◌, returned}
use c5store.Base.Exec.{pure}
use c5store.Text.{Str, str_eq}
use c5store.HashMap
use c5store.Crates.SkipMap.{SkipMap, IsLawful}
use c5store.Crates.ListMultiMap.{ListMultiMap}
use c5store.Value.{C5DataValue, map, Fields, end, field}
use c5store.Value.Equality.{value_eq}
use c5store.Flatten.{build_flat_map}
use c5store.Providers.{C5FileValueProvider, C5FileValueProviderSchema}
use c5store.Manager.{C5StoreMgr, run_refresh}
use c5store.C5Store.{State, set_data_fn, set_entries, root_get, push_value_to_data_store}
use c5store.C5Store.Hydrate.{FileSystem, hydrate}
use c5store.C5Store.Hydration.{AllHold, push_all, hydrate_lem}
use c5store.C5Store.SetData.{set_data_fn_same}
use c5store.C5Store.Refresh.{run_refresh_lem}

module _ {L : Type 0} (s : SkipMap C5DataValue) (lawful : IsLawful s) (sha256 : List ℕ → List ℕ)
    (m : ListMultiMap L) where
  -- The store has the value already.
  abbrev pub HasValue : State s sha256 m → Str → C5DataValue → Type 0
  HasValue a key value =
      (old : C5DataValue) × (root_get s sha256 m a key ≡ some old) × (value_eq old value ≡ true)

  abbrev pub HasEntries : State s sha256 m → Fields → Type 0
  HasEntries a end = Unit
  HasEntries a (field key value entries) = HasValue a key value × HasEntries a entries

  -- What the value of a file stands for is in the store, under its key path.
  abbrev pub HasPushed : State s sha256 m → Str → C5DataValue → Type 0
  HasPushed a key_path (map value) = HasEntries a (build_flat_map value end key_path).1
  HasPushed a key_path value = HasValue a key_path value

  abbrev pub HasAll :
      State s sha256 m → List (Str × C5FileValueProviderSchema) → List (Option C5DataValue) → Type 0
  HasAll a ((key_path, schema) ∷ entries) (some value ∷ values) =
      HasPushed a key_path value × HasAll a entries values
  HasAll a ((key_path, schema) ∷ entries) (none ∷ values) = HasAll a entries values
  HasAll a _ _ = Unit

  set_same :
      (a : State s sha256 m) (key : Str) (value : C5DataValue)
      → HasValue a key value
      → set_data_fn s sha256 m key value a ≡ (returned tt, a)
  unfolding root_get
  set_same a key value (old, there, same) =
      set_data_fn_same s lawful sha256 m a key value old there same

  entries_same :
      (a : State s sha256 m) (entries : Fields)
      → HasEntries a entries
      → set_entries s sha256 m entries a ≡ (returned tt, a)
  unfolding set_entries
  entries_same a end h = refl
  entries_same a (field key value entries) h =
      rw (set_same a key value h.0) (entries_same a entries h.1)

  push_same :
      (a : State s sha256 m) (key_path : Str) (value : C5DataValue)
      → HasPushed a key_path value
      → push_value_to_data_store s sha256 m key_path value a ≡ (returned tt, a)
  unfolding push_value_to_data_store
  push_same a key_path (map value) h = entries_same a (build_flat_map value end key_path).1 h
  push_same a key_path value h = set_same a key_path value h

  push_all-same :
      (fs : FileSystem) (a : State s sha256 m) (entries : List (Str × C5FileValueProviderSchema))
      (values : List (Option C5DataValue))
      → HasAll a entries values
      → push_all s sha256 m fs entries values (pure tt) a ≡ (returned tt, a)
  push_all-same fs a [] values h = refl
  push_all-same fs a (entry ∷ entries) [] h = refl
  push_all-same fs a ((key_path, schema) ∷ entries) (none ∷ values) h =
      push_all-same fs a entries values h
  push_all-same fs a ((key_path, schema) ∷ entries) (some value ∷ values) h =
      rw (push_same a key_path value h.0) (push_all-same fs a entries values h.1)

  -- The job of a provider whose files can be found and read, and stand for values that the store has
  -- already: it returns, and nothing changes.
  pub refresh_unchanged :
      {P : Type 0} (fs : FileSystem) (a : State s sha256 m) (mgr : C5StoreMgr (State s sha256 m) P)
      (name : Str) (p : C5FileValueProvider) (values : List (Option C5DataValue))
      → HashMap.lookup name mgr.value_providers ≡ some (hydrate s sha256 m fs p)
      → AllHold fs p p.key_data_map values
      → HasAll a p.key_data_map values
      → run_refresh name (a, mgr) ≡ (returned tt, (a, mgr))
  refresh_unchanged fs a mgr name p values there holds has =
      rw (run_refresh_lem name a mgr (hydrate s sha256 m fs p) there) (
        rw (hydrate_lem s sha256 m fs p values a holds)
          (rw (push_all-same fs a p.key_data_map values has) refl))
