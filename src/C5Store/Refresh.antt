-- ===== src/C5Store/Refresh.antt =====
-- The job that refreshes a provider of file values (c5store_rust/src/lib.rs,
-- c5store_rust/src/providers.rs), once a file has changed.
use c5store.Base.{
  ℕ, ◌≡◌, refl, sym, subst, ◌∙◌, false, some, List, ◌∷◌, Outcome, returned, panicked, if◌then◌else◌,
}
use c5store.Base.Exec.{Exec, continue}
use c5store.Text.{Str, str_eq, ends_with}
use c5store.HashMap
use c5store.Crates.SkipMap.{SkipMap, IsLawful, same_key}
use c5store.Crates.ListMultiMap.{ListMultiMap}
use c5store.Value.{C5DataValue, bytes}
use c5store.Value.Equality.{value_eq}
use c5store.Providers.{C5FileValueProvider, C5FileValueProviderSchema}
use c5store.Notifier.Debounce.{IsIdle}
use c5store.Manager.{C5StoreMgr, run_refresh}
use c5store.C5Store.{State, set_data_fn, root_get, push_value_to_data_store}
use c5store.C5Store.SetData.{with_change, set_data_fn_changed}
use c5store.C5Store.Hydrate.{FileSystem, hydrate, hydrate_entries}
use c5store.C5Store.Hydration.{Holds, one_file}

panicked_first :
    {S A B : Type 0} (r : Outcome A × S) (f : A → Exec S B)
    → r.0 ≡ panicked
    → continue r.0 f r.1 ≡ (panicked, r.1)
panicked_first (returned x, t) f e = cc
panicked_first (panicked, t) f e = refl

pub run_refresh_lem :
    {S P : Type 0} (name : Str) (store : S) (mgr : C5StoreMgr S P) (hydrated : Exec S (Unit {0}))
    → HashMap.lookup name mgr.value_providers ≡ some hydrated
    → run_refresh name (store, mgr) ≡ ((hydrated store).0, ((hydrated store).1, mgr))
unfolding run_refresh
run_refresh_lem name store mgr hydrated there = rw (there, run_refresh) refl

module _ {L : Type 0} (s : SkipMap C5DataValue) (lawful : IsLawful s) (sha256 : List ℕ → List ℕ)
    (m : ListMultiMap L) (fs : FileSystem) where
  hydrate_changed :
      (a : State s sha256 m) (p : C5FileValueProvider) (path : Str)
      (schema : C5FileValueProviderSchema) (more : List (Str × C5FileValueProviderSchema))
      (content : List ℕ)
      → p.key_data_map ≡ (path, schema) ∷ more
      → Holds fs p schema (some (bytes content))
      → (set_data_fn s sha256 m path (bytes content) a).0 ≡ panicked
      → hydrate s sha256 m fs p a ≡ (panicked, (set_data_fn s sha256 m path (bytes content) a).1)
  unfolding hydrate push_value_to_data_store
  hydrate_changed a p path schema more content e holds stopped =
      subst
        (λ l.
          hydrate_entries s sha256 m fs p l a
          ≡ (panicked, (set_data_fn s sha256 m path (bytes content) a).1))
        (sym e)
        (one_file s sha256 m fs p path schema (some (bytes content)) more a holds
          ∙ panicked_first (set_data_fn s sha256 m path (bytes content) a)
              (λ u. hydrate_entries s sha256 m fs p more) stopped)

  -- The job of a provider whose first file holds other bytes than the store: the bytes are stored and
  -- the change recorded, and then the job panics, and every key but that one has the value that it had,
  -- whatever the other files of the provider hold. This is so if no job handle is stored, no guard is
  -- alive, and the key is none of a secret.
  pub refresh_stops :
      {P : Type 0} (a : State s sha256 m) (mgr : C5StoreMgr (State s sha256 m) P) (name : Str)
      (p : C5FileValueProvider) (path : Str) (schema : C5FileValueProviderSchema)
      (more : List (Str × C5FileValueProviderSchema)) (content : List ℕ) (old : C5DataValue)
      → HashMap.lookup name mgr.value_providers ≡ some (hydrate s sha256 m fs p)
      → p.key_data_map ≡ (path, schema) ∷ more
      → Holds fs p schema (some (bytes content))
      → IsIdle a.notifier
      → ends_with path a.data_store.secret_key_path_segment ≡ false
      → root_get s sha256 m a path ≡ some old
      → value_eq old (bytes content) ≡ false
      → let (result, t) = run_refresh name (a, mgr) in
        (result ≡ panicked)
        × (t.0.notifier ≡ with_change path a.notifier)
        × ((j : Str)
            → root_get s sha256 m t.0 j
              ≡ (if same_key s path j then some (bytes content) else root_get s sha256 m a j))
  unfolding root_get
  refresh_stops a mgr name p path schema more content old there table holds idle plain has differs =
      let (stopped, note, values) =
        set_data_fn_changed s lawful sha256 m a path (bytes content) old idle plain has differs in
      rw (run_refresh_lem name a mgr (hydrate s sha256 m fs p) there)
        (rw (hydrate_changed a p path schema more content table holds stopped) (refl, note, values))
