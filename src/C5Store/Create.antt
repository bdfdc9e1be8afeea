-- ===== src/C5Store/Create.antt =====
-- `create_c5store`, its options and `default_config_paths` of c5store_rust/src/lib.rs. What the paths
-- lead to is the parameter `read_file`; the delay of the notifier, the logger and the recorder of
-- statistics leave no trace in the state.
use c5store.Base.{
  ℕ, Bool, Option, none, some, List, [], ◌∷◌, ◌++◌, map, Outcome, returned, panicked, unwrap_option,
  ◌>>=◌,
}
use c5store.Text.{Str, bytes_of}
use c5store.Crates.SkipMap.{SkipMap}
use c5store.Crates.ListMultiMap.{ListMultiMap}
use c5store.Crates.Documents.{Numbers, YamlEntries}
use c5store.Secrets as Secrets
use c5store.Secrets.{SecretKeyStore}
use c5store.Secrets.Files.{KeysPath, load_secret_key_files}
use c5store.Value.{C5DataValue}
use c5store.DataStore as DataStore
use c5store.Notifier as Notifier
use c5store.Manager as Manager
use c5store.Manager.{C5StoreMgr}
use c5store.C5Store.{State}
use c5store.C5Store.ConfigFiles.{Document, IterationOrder, as_inserted, read_config_files_in}

abbrev pub default_change_delay_period : ℕ
default_change_delay_period = 500

-- The path of the secret keys stands with what `read_dir` finds there.
pub record SecretOptions : Type 0 where
  pub secret_key_path_segment : Option Str
  pub secret_keys_path : Option KeysPath
  pub secret_key_store_configure_fn : Option (SecretKeyStore → Outcome SecretKeyStore)

unfoldable pub default_secret_options : SecretOptions
default_secret_options = record {
  secret_key_path_segment = some (bytes_of ".c5encval");
  secret_keys_path = none;
  secret_key_store_configure_fn = none;
}

pub record C5StoreOptions : Type 0 where
  pub change_delay_period : Option ℕ
  pub secret_opts : SecretOptions

unfoldable pub default_options : C5StoreOptions
unfolding default_secret_options
default_options = record {
  change_delay_period = some default_change_delay_period;
  secret_opts = default_secret_options;
}

abbrev pub or_else : {A : Type 0} → Option A → A → A
or_else none a = a
or_else (some b) a = b

-- The options with the defaults that are filled in.
unfoldable pub completed : Option C5StoreOptions → C5StoreOptions
unfolding default_options
completed none = default_options
completed (some options) = record options {
  change_delay_period = some (or_else options.change_delay_period default_change_delay_period);
}

abbrev pub configured : Option (SecretKeyStore → Outcome SecretKeyStore) → Outcome SecretKeyStore
configured none = returned Secrets.new
configured (some configure_fn) = configure_fn Secrets.new

abbrev pub then_state : {A S : Type 0} → Outcome A × S → Outcome S
then_state (returned a, s) = returned s
then_state (panicked, s) = panicked

-- The configured store, with the keys of the files.
unfoldable pub secret_keys : (List ℕ → Option (List ℕ)) → SecretOptions → Outcome SecretKeyStore
secret_keys parse secret_opts = do
  store ← configured secret_opts.secret_key_store_configure_fn
  then_state (load_secret_key_files parse secret_opts.secret_keys_path store)

unfoldable pub default_config_paths : Str → Str → Str → Str → List Str
default_config_paths config_dir release_env env region =
    (config_dir ++ bytes_of "/common.yaml")
    ∷ (config_dir ++ (b'/' ∷ (release_env ++ bytes_of ".yaml")))
    ∷ (config_dir ++ (b'/' ∷ (env ++ bytes_of ".yaml")))
    ∷ (config_dir ++ (b'/' ∷ (region ++ bytes_of ".yaml")))
    ∷ (config_dir ++ (b'/' ∷ (env ++ (b'-' ∷ (region ++ bytes_of ".yaml")))))
    ∷ []

module _ {L : Type 0} (s : SkipMap C5DataValue) (sha256 : List ℕ → List ℕ) (m : ListMultiMap L)
    (pm : ListMultiMap C5DataValue) (n : Numbers) (converts : YamlEntries n.Number → Bool)
    (parse : List ℕ → Option (List ℕ)) (read_file : Str → Option (Document n converts)) where
  -- The root and the manager.
  abbrev pub Created : Type 0
  Created = State s sha256 m × C5StoreMgr (State s sha256 m) pm.Map

  abbrev pub with_manager : Outcome pm.Map × State s sha256 m → Outcome Created
  with_manager (returned provided_data, store) = returned (store, Manager.new provided_data)
  with_manager (panicked, store) = panicked

  -- The call in a run that iterates over its maps in this order.
  unfoldable pub create_c5store_in :
      IterationOrder → List Str → Option C5StoreOptions → Outcome Created
  unfolding completed secret_keys
  create_c5store_in order config_file_paths options_option = do
    let options = completed options_option
    secret_key_store ← secret_keys parse options.secret_opts
    segment ← unwrap_option options.secret_opts.secret_key_path_segment
    delay ← unwrap_option options.change_delay_period
    with_manager (
        read_config_files_in s sha256 m n converts pm.insert order (map read_file config_file_paths)
          pm.new
          (record {
            data_store = DataStore.new s sha256 segment secret_key_store;
            subscriptions = m.new;
            notifier = Notifier.new;
          }))

  -- The run that iterates in the order of the insertions.
  unfoldable pub create_c5store : List Str → Option C5StoreOptions → Outcome Created
  unfolding create_c5store_in
  create_c5store config_file_paths options_option =
      create_c5store_in as_inserted config_file_paths options_option
