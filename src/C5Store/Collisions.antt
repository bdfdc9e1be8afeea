-- ===== src/C5Store/Collisions.antt =====
-- Keys that differ in case alone, in one configuration (`read_config_data` of c5store_rust/src/lib.rs).
use c5store.Base.{ℕ, ◌≡◌, refl, sym, ◌∙◌, true, false, some, List, Outcome, returned, panicked}
use c5store.Base.Exec.{continue}
use c5store.Text.{Str, str_eq, ends_with}
use c5store.Crates.SkipMap.{SkipMap, IsLawful, same_key}
use c5store.Crates.ListMultiMap.{ListMultiMap}
use c5store.Value.{C5DataValue, Fields, end, field}
use c5store.Value.Map as ValueMap
use c5store.Value.Append.{append}
use c5store.Value.Equality.{value_eq}
use c5store.DataStore.{get_data}
use c5store.Notifier.Debounce.{IsIdle}
use c5store.C5Store.{State, set_data_fn, set_entries}
use c5store.C5Store.SetData.{set_data_fn_changed}
use c5store.C5Store.Loading.{CanLoad, set_entries-Loaded}

module _ {L : Type 0} (s : SkipMap C5DataValue) (lawful : IsLawful s) (sha256 : List ℕ → List ℕ)
    (m : ListMultiMap L) where
  after :
      (more : Fields) (r : Outcome (Unit {0}) × State s sha256 m)
      → Outcome (Unit {0}) × State s sha256 m
  after more r = continue r.0 (λ u. set_entries s sha256 m more) r.1

  set_entries-append :
      (entries more : Fields) (a : State s sha256 m)
      → set_entries s sha256 m (append entries more) a
        ≡ after more (set_entries s sha256 m entries a)
  unfolding set_entries after
  set_entries-append end more a = refl
  set_entries-append (field k v entries) more a =
      first (set_data_fn s sha256 m k v a) (set_entries-append entries more)
    where
      first :
          (r : Outcome (Unit {0}) × State s sha256 m)
          → ((t : State s sha256 m)
              → set_entries s sha256 m (append entries more) t
                ≡ after more (set_entries s sha256 m entries t))
          → continue r.0 (λ u. set_entries s sha256 m (append entries more)) r.1
            ≡ after more (continue r.0 (λ u. set_entries s sha256 m entries) r.1)
      first (returned u, t) h = h t
      first (panicked, t) h = refl

  -- A flat configuration with two keys that the store takes for one, and different values under
  -- them, panics as it is loaded, whatever stands behind the second: if what stands in front of it
  -- can be loaded, the second key is no secret, no job handle is stored and no guard is alive.
  pub set_entries_collide :
      (entries more : Fields) (k j : Str) (v w : C5DataValue) (a : State s sha256 m)
      → CanLoad s lawful sha256 m a.data_store entries
      → IsIdle a.notifier
      → ValueMap.lookup k entries ≡ some v
      → same_key s k j ≡ true
      → value_eq v w ≡ false
      → ends_with j a.data_store.secret_key_path_segment ≡ false
      → (set_entries s sha256 m (append entries (field j w more)) a).0 ≡ panicked
  unfolding set_entries after get_data
  set_entries_collide entries more k j v w a can idle there same differs plain =
      let loaded = set_entries-Loaded s lawful sha256 m entries a can in
      let a' = (set_entries s sha256 m entries a).1 in
      let old = sym (lawful.get_same k j a'.data_store.contents same) ∙ loaded.reads k v there in
      let (stopped, note, values) =
        set_data_fn_changed s lawful sha256 m a' j w v (rw loaded.notifier idle)
          (rw loaded.segment plain) old differs in
      rw (set_entries-append entries (field j w more) a) (rw loaded.finished (rw stopped))
