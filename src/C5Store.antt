-- ===== src/C5Store.antt =====
-- c5store_rust/src/lib.rs: the store as its clients have it. The root, its branches, the manager and
-- the notifier share one data store and one table of subscriptions behind `Arc`s: the shared state is
-- `App`, and each operation takes it and returns it.
pub mod SetData
pub mod SecretEntry
pub mod Opening
pub mod Loading
pub mod AnyOrder
pub mod ConfigFiles
pub mod Documents
pub mod ProvidedOnce
pub mod FileValues
pub mod YamlValues
pub mod Refresh
pub mod Unchanged
pub mod Collisions
pub mod Changes
pub mod Threads
pub mod Startup
pub mod Create
pub mod Created
pub mod SameFiles
pub mod SecretFiles
pub mod ProvidedFiles
pub mod Layers
pub mod Hydrate
pub mod Hydration
pub mod Branches
pub mod Interface
use c5store.Base.{
  Bool, true, false, not, Option, none, some, List, [], ◌∷◌, ◌++◌, Outcome, returned, panicked,
  if◌then◌else◌, ℕ,
}
use c5store.Base.Exec.{Exec, pure, ◌>>=◌, ◌>>◌}
use c5store.Text.{Str, bytes_of}
use c5store.Crates.SkipMap.{SkipMap}
use c5store.Crates.ListMultiMap.{ListMultiMap}
use c5store.Value.{C5DataValue, map, Fields, end, field}
use c5store.Value.Equality.{value_eq}
use c5store.DataStore as DataStore
use c5store.DataStore.{Store}
use c5store.Subscriptions as Subscriptions
use c5store.Notifier.{ChangeNotifier, notify_changed}
use c5store.Merge.{merge_files}
use c5store.Flatten.{build_flat_map, take_provided}

pub record App (Data Listeners : Type 0) : Type 0 where
  pub data_store : DataStore.C5DataStore Data
  pub subscriptions : Listeners
  pub notifier : ChangeNotifier

module _ {L : Type 0} (s : SkipMap C5DataValue) (sha256 : List ℕ → List ℕ)
    (m : ListMultiMap L) where
  abbrev pub State : Type 0
  State = App s.Map m.Map

  -- An operation of the store, or of the notifier, on the shared state.
  abbrev pub on_store : {A : Type 0} → Exec (Store s sha256) A → Exec State A
  on_store f a = let (r, d) = f a.data_store in (r, record a { data_store = d })

  abbrev pub on_notifier : {A : Type 0} → Exec ChangeNotifier A → Exec State A
  on_notifier f a = let (r, n) = f a.notifier in (r, record a { notifier = n })

  abbrev pub set_value : Str → C5DataValue → Exec State (Option C5DataValue)
  set_value key value = on_store (λ d. DataStore.set_data s sha256 d key value)

  -- The branch for a key that exists: only another value is set, and told of.
  abbrev pub set_changed : Option C5DataValue → Str → C5DataValue → Exec State (Unit {0})
  set_changed none key value = pure tt
  set_changed (some old_value) key value =
      if value_eq old_value value
      then pure tt
      else (do old ← set_value key value; on_notifier (notify_changed key))

  -- The closure `set_data_fn` of `create_c5store`.
  unfoldable pub set_data_fn : Str → C5DataValue → Exec State (Unit {0})
  set_data_fn key value a =
      if DataStore.exists s sha256 a.data_store key
      then set_changed (DataStore.get_data s sha256 a.data_store key) key value a
      else (do old ← set_value key value; pure tt) a

  -- The loops that hand the entries of a flat map over.
  unfoldable pub set_entries : Fields → Exec State (Unit {0})
  set_entries end = pure tt
  set_entries (field key value entries) = do set_data_fn key value; set_entries entries

  -- `HydrateContext::push_value_to_data_store`
  unfoldable pub push_value_to_data_store : Str → C5DataValue → Exec State (Unit {0})
  unfolding set_entries
  push_value_to_data_store key (map value) = set_entries (build_flat_map value end key).1
  push_value_to_data_store key value = set_data_fn key value

  -- `read_config_data`, given what the files hold, in the order of the paths.
  unfoldable pub read_config_data :
      {P : Type 0} → (Str → C5DataValue → P → P) → List (Option Fields) → P → Exec State P
  unfolding set_entries
  read_config_data insert_provided files provided = do
    let raw_config_data = merge_files end files
    let taken = take_provided insert_provided raw_config_data end provided []
    set_entries taken.1
    pure taken.2

  -- `impl C5Store for C5StoreRoot`
  unfoldable pub root_get : State → Str → Option C5DataValue
  root_get a key_path = DataStore.get_data s sha256 a.data_store key_path

  unfoldable pub root_get_ref : State → Str → Option Str
  root_get_ref a key_path = DataStore.get_data_ref s sha256 a.data_store key_path

  unfoldable pub root_exists : State → Str → Bool
  root_exists a key_path = DataStore.exists s sha256 a.data_store key_path

  unfoldable pub root_subscribe : State → Str → L → State
  root_subscribe a key_path listener = record a {
    subscriptions = Subscriptions.add m a.subscriptions key_path listener;
  }

  unfoldable pub root_key_paths_with_prefix : State → Option Str → List Str
  root_key_paths_with_prefix a key_path = DataStore.keys_with_prefix s sha256 a.data_store key_path

abbrev pub root_current_key_path : Str
root_current_key_path = []

-- A branch shares the state of its root and adds a key path.
pub record C5StoreBranch : Type 0 where
  pub key_path : Str

unfoldable pub root_branch : Str → C5StoreBranch
root_branch key_path = record { key_path = key_path }

unfoldable pub merge_key_path : C5StoreBranch → Str → Str
merge_key_path b key_path = b.key_path ++ (b'.' ∷ key_path)

unfoldable pub branch : C5StoreBranch → Str → C5StoreBranch
unfolding merge_key_path
branch b key_path = record { key_path = merge_key_path b key_path }

module _ {L : Type 0} (s : SkipMap C5DataValue) (sha256 : List ℕ → List ℕ)
    (m : ListMultiMap L) where
  -- `impl C5Store for C5StoreBranch`
  unfoldable pub branch_get : State s sha256 m → C5StoreBranch → Str → Option C5DataValue
  branch_get a b key_path = root_get s sha256 m a (merge_key_path b key_path)

  unfoldable pub branch_get_ref : State s sha256 m → C5StoreBranch → Str → Option Str
  branch_get_ref a b key_path = root_get_ref s sha256 m a (merge_key_path b key_path)

  unfoldable pub branch_exists : State s sha256 m → C5StoreBranch → Str → Bool
  branch_exists a b key_path = root_exists s sha256 m a (merge_key_path b key_path)

  unfoldable pub branch_subscribe : State s sha256 m → C5StoreBranch → Str → L → State s sha256 m
  branch_subscribe a b key_path listener =
      root_subscribe s sha256 m a (merge_key_path b key_path) listener

  -- Without a key path the search is one of the root.
  unfoldable pub branch_key_paths_with_prefix :
      State s sha256 m → C5StoreBranch → Option Str → List Str
  branch_key_paths_with_prefix a b (some key_path) =
      root_key_paths_with_prefix s sha256 m a (some (merge_key_path b key_path))
  branch_key_paths_with_prefix a b none = root_key_paths_with_prefix s sha256 m a none

-- `current_key_path`
unfoldable pub branch_current_key_path : C5StoreBranch → Str
branch_current_key_path b = b.key_path
