-- ===== src/C5Store/Created.antt =====
-- The store that `create_c5store` of c5store_rust/src/lib.rs returns.
use c5store.Base.{ℕ, Bool, false, Option, none, some, List, [], ◌∷◌, map, ◌≡◌, refl, returned}
use c5store.Text.{Str, ends_with}
use c5store.Crates.SkipMap.{SkipMap, IsLawful}
use c5store.Crates.ListMultiMap.{ListMultiMap}
use c5store.Crates.Documents as Documents
use c5store.Crates.Documents.{Numbers, YamlEntries}
use c5store.Secrets.{SecretKeyStore}
use c5store.Value.{C5DataValue, Fields, end, field}
use c5store.Merge.{merge_files}
use c5store.Flatten.{take_provided, build_flat_map}
use c5store.Flatten.Leaves.{dotted, LeafIn}
use c5store.DataStore as DataStore
use c5store.DataStore.{Store, get_data}
use c5store.Notifier as Notifier
use c5store.Manager as Manager
use c5store.C5Store.{State, root_get, set_entries}
use c5store.C5Store.ConfigFiles.{Document, IterationOrder, as_inserted}
use c5store.C5Store.Documents.{AllHold, read_config_files_in-AllHold, AllHold-AllWellFormed}
use c5store.C5Store.Loading.{CanLoad, DiffersFromAll, set_entries-Loaded}
use c5store.Flatten.Walks.{take_provided-build_flat_map}
use c5store.Merge.WellFormed.{merge_files-IsWellFormed}
use c5store.Flatten.Reads.{flat_complete}
use c5store.C5Store.Create.{
  C5StoreOptions, completed, secret_keys, create_c5store, create_c5store_in, default_options,
  or_else, default_change_delay_period,
}

module _ {L : Type 0} (s : SkipMap C5DataValue) (lawful : IsLawful s) (sha256 : List ℕ → List ℕ)
    (m : ListMultiMap L) where
  -- A store for secrets with this segment can load the entries: none of them is a secret, and it tells
  -- their keys apart.
  abbrev pub IsLoadable : Str → Fields → Type 0
  IsLoadable segment end = Unit
  IsLoadable segment (field k v entries) =
      (ends_with k (b'.' ∷ segment) ≡ false)
      × DiffersFromAll s lawful sha256 m k entries
      × IsLoadable segment entries

  pub IsLoadable-CanLoad :
      (segment : Str) (keys : SecretKeyStore) (entries : Fields)
      → IsLoadable segment entries
      → CanLoad s lawful sha256 m (DataStore.new s sha256 segment keys) entries
  unfolding DataStore.new get_data
  IsLoadable-CanLoad segment keys end h = tt
  IsLoadable-CanLoad segment keys (field k v entries) h =
      (h.0, lawful.get-new k, h.1, IsLoadable-CanLoad segment keys entries h.2)

-- The flat configuration of the merged files.
abbrev pub flat_of : List (Option Fields) → Fields
flat_of files = (build_flat_map (merge_files end files) end []).1

-- The same, as it is handed over by a run that iterates over its maps in this order.
abbrev pub flat_in : IterationOrder → List (Option Fields) → Fields
flat_in order files = order.flat (build_flat_map (order.merged (merge_files end files)) end []).1

module _ {L : Type 0} (s : SkipMap C5DataValue) (sha256 : List ℕ → List ℕ)
    (m : ListMultiMap L) where
  -- The state of a store before the files are read.
  abbrev pub start : Str → SecretKeyStore → State s sha256 m
  start segment keys = record {
    data_store = DataStore.new s sha256 segment keys;
    subscriptions = m.new;
    notifier = Notifier.new;
  }

delay_there :
    (options : Option C5StoreOptions)
    → (delay : ℕ) × ((completed options).change_delay_period ≡ some delay)
unfolding completed default_options
delay_there none = (default_change_delay_period, refl)
delay_there (some options) = (or_else options.change_delay_period default_change_delay_period, refl)

module _ {L : Type 0} (s : SkipMap C5DataValue) (lawful : IsLawful s) (sha256 : List ℕ → List ℕ)
    (m : ListMultiMap L) (pm : ListMultiMap C5DataValue) (n : Numbers)
    (numbers : Documents.IsLawful n) (converts : YamlEntries n.Number → Bool)
    (parse : List ℕ → Option (List ℕ)) (read_file : Str → Option (Document n converts)) where
  -- The call in a run that iterates over its maps in this order.
  pub create_c5store_in_result :
      (order : IterationOrder) (paths : List Str) (options : Option C5StoreOptions)
      (keys : SecretKeyStore) (segment : Str) (files : List (Option Fields))
      → secret_keys parse (completed options).secret_opts ≡ returned keys
      → (completed options).secret_opts.secret_key_path_segment ≡ some segment
      → AllHold n converts (map read_file paths) files
      → (set_entries s sha256 m (flat_in order files) (start s sha256 m segment keys)).0
        ≡ returned tt
      → create_c5store_in s sha256 m pm n converts parse read_file order paths options
        ≡ returned (
          (set_entries s sha256 m (flat_in order files) (start s sha256 m segment keys)).1,
          Manager.new
              (take_provided pm.insert (order.merged (merge_files end files)) end pm.new []).2,
        )
  unfolding create_c5store_in
  create_c5store_in_result order paths options keys segment files hk hs hold finished =
      let a₀ = start s sha256 m segment keys in
      let raw = order.merged (merge_files end files) in
      let (delay, e) = delay_there options in
      let same =
        read_config_files_in-AllHold s sha256 m n converts pm.insert order (map read_file paths)
          files pm.new a₀ hold in
      let walk = take_provided-build_flat_map pm.insert raw end pm.new [] in
      rw hk (rw hs (rw e (rw same (rw walk (rw finished)))))

  pub create_c5store_result :
      (paths : List Str) (options : Option C5StoreOptions) (keys : SecretKeyStore) (segment : Str)
      (files : List (Option Fields))
      → secret_keys parse (completed options).secret_opts ≡ returned keys
      → (completed options).secret_opts.secret_key_path_segment ≡ some segment
      → AllHold n converts (map read_file paths) files
      → (set_entries s sha256 m (flat_of files) (start s sha256 m segment keys)).0 ≡ returned tt
      → create_c5store s sha256 m pm n converts parse read_file paths options
        ≡ returned (
          (set_entries s sha256 m (flat_of files) (start s sha256 m segment keys)).1,
          Manager.new (take_provided pm.insert (merge_files end files) end pm.new []).2,
        )
  unfolding create_c5store
  create_c5store_result = create_c5store_in_result as_inserted

  -- A store is created from the files at the paths: each leaf of the merged files is read from its
  -- root at the dotted path of the leaf, nobody has been told of a change, and its manager has what
  -- the files say of value providers. This is so if the secret keys can be read, the options name a
  -- segment for secrets, no other leaf has the same dotted path, and the flat configuration holds
  -- no secret and no two keys that the store takes for one.
  pub create_c5store_reads :
      (paths : List Str) (options : Option C5StoreOptions) (keys : SecretKeyStore) (segment : Str)
      (files : List (Option Fields)) (ks : List Str) (leaf : C5DataValue)
      → secret_keys parse (completed options).secret_opts ≡ returned keys
      → (completed options).secret_opts.secret_key_path_segment ≡ some segment
      → AllHold n converts (map read_file paths) files
      → LeafIn ks (merge_files end files) leaf
      → ((js : List Str) (other : C5DataValue)
          → LeafIn js (merge_files end files) other
          → dotted [] ks ≡ dotted [] js
          → other ≡ leaf)
      → IsLoadable s lawful sha256 m segment (build_flat_map (merge_files end files) end []).1
      → (a : State s sha256 m) × (create_c5store s sha256 m pm n converts parse read_file paths
            options
          ≡ returned
              (a, Manager.new (take_provided pm.insert (merge_files end files) end pm.new []).2))
        × (root_get s sha256 m a (dotted [] ks) ≡ some leaf)
        × (a.notifier ≡ Notifier.new)
  unfolding root_get
  create_c5store_reads paths options keys segment files ks leaf hk hs hold h unique load =
      let a₀ = start s sha256 m segment keys in
      let flat = flat_of files in
      let w = AllHold-AllWellFormed n numbers converts (map read_file paths) files hold in
      let can = IsLoadable-CanLoad s lawful sha256 m segment keys flat load in
      let loaded = set_entries-Loaded s lawful sha256 m flat a₀ can in
      let whole = merge_files-IsWellFormed files end (tt, tt) w in
      (
        (set_entries s sha256 m flat a₀).1,
        create_c5store_result paths options keys segment files hk hs hold loaded.finished,
        loaded.reads (dotted [] ks) leaf
            (flat_complete (merge_files end files) [] ks leaf whole h unique),
        loaded.notifier,
      )
