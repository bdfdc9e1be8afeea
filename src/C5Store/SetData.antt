-- ===== src/C5Store/SetData.antt =====
-- The closure `set_data_fn` of c5store_rust/src/lib.rs, case by case.
use c5store.Base.{
  ℕ, ◌+◌, ◌≡◌, true, false, none, some, List, returned, panicked, arith, if◌then◌else◌,
}
use c5store.Text.{Str, str_eq, ends_with}
use c5store.Crates.SkipMap.{SkipMap, IsLawful, same_key}
use c5store.Crates.ListMultiMap.{ListMultiMap}
use c5store.Value.{C5DataValue}
use c5store.Value.Equality.{value_eq}
use c5store.DataStore.{get_data, set_data}
use c5store.DataStore.Plain.{set_data_plain, exists_lem}
use c5store.MultiMap.{set_insert}
use c5store.Notifier.{ChangeNotifier}
use c5store.Notifier.Debounce.{IsIdle, notify_changed-idle}
use c5store.C5Store.{State, set_data_fn}

-- The notifier after a change of the key: the key path is recorded and a job scheduled.
abbrev pub with_change : Str → ChangeNotifier → ChangeNotifier
with_change key n = record n {
  changed_key_paths = set_insert key n.changed_key_paths;
  scheduled_jobs = n.scheduled_jobs + 1;
}

module _ {L : Type 0} (s : SkipMap C5DataValue) (lawful : IsLawful s) (sha256 : List ℕ → List ℕ)
    (m : ListMultiMap L) where
  -- A value under a key that is there already: an equal value changes nothing.
  pub set_data_fn_same :
      (a : State s sha256 m) (key : Str) (value old : C5DataValue)
      → get_data s sha256 a.data_store key ≡ some old
      → value_eq old value ≡ true
      → set_data_fn s sha256 m key value a ≡ (returned tt, a)
  unfolding set_data_fn
  set_data_fn_same a key value old h e =
      ground (arith, (exists_lem s lawful sha256 a.data_store key).0)

  -- Under a key that has no value the value is set, nobody is told, and the call returns exactly
  -- when setting the value does.
  pub set_data_fn_new :
      (a : State s sha256 m) (key : Str) (value : C5DataValue)
      → get_data s sha256 a.data_store key ≡ none
      → let r = set_data s sha256 a.data_store key value in
        set_data_fn s sha256 m key value a ≡ (
          elim r.0 [ returned old ↦ returned tt | panicked ↦ panicked ],
          record a { data_store = r.1 },
        )
  unfolding set_data_fn
  set_data_fn_new a key value h = ground (arith, (exists_lem s lawful sha256 a.data_store key).0)

  -- Another value for a plain key that is there, while no job handle is stored and no guard is
  -- alive: the value is stored under every spelling of the key and no other key changes, the change
  -- is recorded and a job scheduled, and the call panics.
  pub set_data_fn_changed :
      (a : State s sha256 m) (key : Str) (value old : C5DataValue)
      → IsIdle a.notifier
      → ends_with key a.data_store.secret_key_path_segment ≡ false
      → get_data s sha256 a.data_store key ≡ some old
      → value_eq old value ≡ false
      → let (result, a') = set_data_fn s sha256 m key value a in
        (result ≡ panicked)
        × (a'.notifier ≡ with_change key a.notifier)
        × ((j : Str)
            → get_data s sha256 a'.data_store j
              ≡ (if same_key s key j then some value else get_data s sha256 a.data_store j))
  unfolding set_data_fn
  set_data_fn_changed a key value old idle plain h e =
      let ex = (exists_lem s lawful sha256 a.data_store key).0 in
      let (ret, reads, cache) = set_data_plain s lawful sha256 a.data_store key value plain in
      let note = notify_changed-idle key a.notifier idle in
      (
        ground (arith, ex, ret, note),
        ground (arith, ex, ret, note),
        λ j. ground (arith, ex, ret, note, reads j),
      )
