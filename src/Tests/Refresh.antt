-- ===== src/Tests/Refresh.antt =====
-- A run of the job that refreshes a provider of file values.
use c5store.Base.{ℕ, ◌≡◌, refl, some, List, [], ◌∷◌, returned, panicked, if◌then◌else◌}
use c5store.Text.{Str, str_eq, bytes_of, starts_with, ends_with}
use c5store.HashMap
use c5store.Crates.SkipMap.{same_key}
use c5store.Fixtures.Sorted.{find, place}
use c5store.Fixtures.Order.{lower, lex}
use c5store.Value.{bytes}
use c5store.Value.Equality.{value_eq}
use c5store.Providers.{C5FileValueProviderSchema}
use c5store.DataStore as DataStore
use c5store.DataStore.{get_data}
use c5store.Manager.{C5StoreMgr, run_refresh}
use c5store.C5Store.{State, root_get}
use c5store.C5Store.SetData.{with_change}
use c5store.C5Store.Hydrate.{hydrate, resolved, deserialized}
use c5store.C5Store.Refresh.{refresh_stops}
use c5store.C5Store.Unchanged.{refresh_unchanged}
use c5store.C5Store.Hydration.{Holds}
use c5store.Tests.Common.{skip, skip-IsLawful, listeners, hash, empty_store, stored, with_store}
use c5store.Tests.Files.{disk, provider, raw_at}

-- Two keys with one file, which has changed.
abbrev twice : List (Str × C5FileValueProviderSchema)
twice = (bytes_of "k", raw_at (bytes_of "/x")) ∷ (bytes_of "j", raw_at (bytes_of "/x")) ∷ []

abbrev before : State skip hash listeners
before = with_store (stored (bytes_of "k") (bytes (9 ∷ [])) empty_store)

abbrev manager : C5StoreMgr (State skip hash listeners) ℕ
manager = record {
  value_providers = (bytes_of "p", hydrate skip hash listeners disk (provider twice)) ∷ [];
  scheduled_jobs = (0, bytes_of "p") ∷ [];
  next_job = 1;
  scheduled_provider_job_handles = 0 ∷ [];
  provided_data = 0;
}

twice-Holds : Holds disk (provider twice) (raw_at (bytes_of "/x")) (some (bytes (1 ∷ 2 ∷ [])))
unfolding str_eq starts_with resolved deserialized
twice-Holds = record {
  file_path = bytes_of "/x";
  content = 1 ∷ 2 ∷ [];
  found = refl;
  there = refl;
  readable = refl;
  value_is = refl;
}

refresh_stops_example :
    let (result, t) = run_refresh (bytes_of "p") (before, manager) in
    (result ≡ panicked)
    × (t.0.notifier ≡ with_change (bytes_of "k") before.notifier)
    × ((j : Str)
        → root_get skip hash listeners t.0 j ≡ (
            if same_key skip (bytes_of "k") j
            then some (bytes (1 ∷ 2 ∷ []))
            else root_get skip hash listeners before j))
unfolding empty_store str_eq starts_with ends_with find place lower lex HashMap.lookup resolved
    deserialized get_data DataStore.set_data value_eq root_get
refresh_stops_example =
    refresh_stops skip skip-IsLawful hash listeners disk before manager (bytes_of "p")
      (provider twice) (bytes_of "k") (raw_at (bytes_of "/x"))
      ((bytes_of "j", raw_at (bytes_of "/x")) ∷ []) (1 ∷ 2 ∷ []) (bytes (9 ∷ [])) refl refl
      twice-Holds (record { no_handle = refl; no_readers = refl; no_writer = refl }) refl refl refl

-- The store has what the file holds.
abbrev settled : State skip hash listeners
settled = with_store (
    stored (bytes_of "j") (bytes (1 ∷ 2 ∷ []))
      (stored (bytes_of "k") (bytes (1 ∷ 2 ∷ [])) empty_store))

refresh_unchanged_example :
    run_refresh (bytes_of "p") (settled, manager) ≡ (returned tt, (settled, manager))
unfolding empty_store str_eq starts_with ends_with find place lower lex HashMap.lookup resolved
    deserialized get_data DataStore.set_data value_eq root_get
refresh_unchanged_example =
    refresh_unchanged skip skip-IsLawful hash listeners disk settled manager (bytes_of "p")
      (provider twice) (some (bytes (1 ∷ 2 ∷ [])) ∷ some (bytes (1 ∷ 2 ∷ [])) ∷ []) refl
      (twice-Holds, (twice-Holds, tt))
      ((bytes (1 ∷ 2 ∷ []), refl, refl), ((bytes (1 ∷ 2 ∷ []), refl, refl), tt))
