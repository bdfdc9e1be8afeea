-- ===== src/C5Store/Layers.antt =====
-- A store created from the files of `default_config_paths` (c5store_rust/src/lib.rs).
use c5store.Base.{
  ℕ, Bool, false, ◌≡◌, inl, inr, Option, Option-cases, none, some, List, [], ◌∷◌, ◌++◌, map,
  returned,
}
use c5store.Text.{Str, bytes_of}
use c5store.Crates.SkipMap.{SkipMap, IsLawful}
use c5store.Crates.ListMultiMap.{ListMultiMap}
use c5store.Crates.Documents as Documents
use c5store.Crates.Documents.{Numbers, YamlEntries}
use c5store.Secrets.{SecretKeyStore}
use c5store.Value as Value
use c5store.Value.{C5DataValue, Fields, end}
use c5store.Value.Map as ValueMap
use c5store.Value.Path.{is_map, value_at, IsWellFormed}
use c5store.Merge.{merge_files}
use c5store.Merge.WellFormed.{AllWellFormed}
use c5store.Merge.Files.{last_file_wins}
use c5store.Flatten.{take_provided, build_flat_map, config_key_provider}
use c5store.Flatten.Leaves.{dotted, LeafAt, LeafIn}
use c5store.Manager as Manager
use c5store.Manager.{C5StoreMgr}
use c5store.C5Store.{State, root_get}
use c5store.C5Store.ConfigFiles.{Document}
use c5store.C5Store.Documents.{AllHold, AllHold-AllWellFormed}
use c5store.C5Store.Create.{
  C5StoreOptions, completed, secret_keys, create_c5store, default_config_paths,
}
use c5store.C5Store.Created.{IsLoadable, create_c5store_reads}

-- No map on the way along the keys is a section of a value provider.
abbrev pub IsClear : List Str → C5DataValue → Type 0
IsClear [] v = Unit
IsClear (k ∷ ks) (Value.map m) =
    (ValueMap.contains_key config_key_provider m ≡ false)
    × ((u : C5DataValue) → ValueMap.lookup k m ≡ some u → IsClear ks u)
IsClear (k ∷ ks) v = Unit

-- The root is walked whether or not it names a provider.
abbrev pub IsClearBelow : List Str → Fields → Type 0
IsClearBelow [] m = ⊥
IsClearBelow (k ∷ ks) m = (u : C5DataValue) → ValueMap.lookup k m ≡ some u → IsClear ks u

LeafAt-of :
    (ks : List Str) (v leaf : C5DataValue)
    → value_at ks v ≡ some leaf
    → is_map leaf ≡ false
    → IsClear ks v
    → LeafAt ks v leaf
unfolding value_at
LeafAt-of [] v leaf e n c = let same : v ≡ leaf = cc in (rw same n, same)
LeafAt-of (k ∷ ks) (Value.map m) leaf e n c = elim (Option-cases (ValueMap.lookup k m)) [
  | inl gone ↦ cc
  | inr (u, there) ↦ (c.0, (u, there, LeafAt-of ks u leaf (rw there at e) n (c.1 u there)))
]
LeafAt-of (k ∷ ks) v leaf e n c = cc

LeafIn-of :
    (ks : List Str) (m : Fields) (leaf : C5DataValue)
    → value_at ks (Value.map m) ≡ some leaf
    → is_map leaf ≡ false
    → IsClearBelow ks m
    → LeafIn ks m leaf
unfolding value_at
LeafIn-of [] m leaf e n c = elim c [ ]
LeafIn-of (k ∷ ks) m leaf e n c = elim (Option-cases (ValueMap.lookup k m)) [
  | inl gone ↦ cc
  | inr (u, there) ↦ (u, there, LeafAt-of ks u leaf (rw there at e) n (c u there))
]

-- The file of the configuration with this name.
abbrev pub in_dir : Str → Str → Str
in_dir config_dir name = config_dir ++ (b'/' ∷ (name ++ bytes_of ".yaml"))

-- What the five files hold, the last of which can be read.
abbrev pub layers :
    Option Fields → Option Fields → Option Fields → Option Fields → Fields → List (Option Fields)
layers common_file release_file env_file region_file src =
    common_file ∷ release_file ∷ env_file ∷ region_file ∷ some src ∷ []

AllWellFormed-last :
    (earlier : List (Option Fields)) (src : Fields)
    → AllWellFormed (earlier ++ (some src ∷ []))
    → IsWellFormed (Value.map src)
AllWellFormed-last [] src w = w.0
AllWellFormed-last (none ∷ earlier) src w = AllWellFormed-last earlier src w
AllWellFormed-last (some file ∷ earlier) src w = AllWellFormed-last earlier src w.1

module _ {L : Type 0} (s : SkipMap C5DataValue) (lawful : IsLawful s) (sha256 : List ℕ → List ℕ)
    (m : ListMultiMap L) (pm : ListMultiMap C5DataValue) (n : Numbers)
    (numbers : Documents.IsLawful n) (converts : YamlEntries n.Number → Bool)
    (parse : List ℕ → Option (List ℕ)) (read_file : Str → Option (Document n converts)) where
  -- Of the five files of default_config_paths the one that is named after the environment and the
  -- region has the last word: each leaf of it is read at its dotted path from the root of a store
  -- that is created from them. This is so if no section of a value provider lies on the way in the
  -- merged files, no other leaf has the same dotted path, the secret keys can be read, the options
  -- name a segment for secrets, and the flat configuration holds no secret and no two keys that the
  -- store takes for one.
  pub region_file_wins :
      (config_dir release_env env region : Str) (options : Option C5StoreOptions)
      (keys : SecretKeyStore) (segment : Str)
      (common_file release_file env_file region_file : Option Fields) (src : Fields) (ks : List Str)
      (leaf : C5DataValue)
      → secret_keys parse (completed options).secret_opts ≡ returned keys
      → (completed options).secret_opts.secret_key_path_segment ≡ some segment
      → AllHold n converts
          (read_file (in_dir config_dir (bytes_of "common"))
            ∷ read_file (in_dir config_dir release_env)
            ∷ read_file (in_dir config_dir env)
            ∷ read_file (in_dir config_dir region)
            ∷ read_file (config_dir ++ (b'/' ∷ (env ++ (b'-' ∷ (region ++ bytes_of ".yaml")))))
            ∷ [])
          (layers common_file release_file env_file region_file src)
      → value_at ks (Value.map src) ≡ some leaf
      → is_map leaf ≡ false
      → IsClearBelow ks (merge_files end (layers common_file release_file env_file region_file src))
      → ((js : List Str) (other : C5DataValue)
          → LeafIn js
              (merge_files end (layers common_file release_file env_file region_file src))
              other
          → dotted [] ks ≡ dotted [] js
          → other ≡ leaf)
      → IsLoadable s lawful sha256 m segment
          (build_flat_map
            (merge_files end (layers common_file release_file env_file region_file src))
            end
            []).1
      → (a : State s sha256 m) × (mgr : C5StoreMgr (State s sha256 m) pm.Map) × (create_c5store s
            sha256 m pm n converts parse read_file
            (default_config_paths config_dir release_env env region)
            options
          ≡ returned (a, mgr))
        × (root_get s sha256 m a (dotted [] ks) ≡ some leaf)
  unfolding default_config_paths
  region_file_wins config_dir release_env env region options keys segment common_file release_file
        env_file region_file src ks leaf hk hs hold found scalar clear unique load =
      let earlier = common_file ∷ release_file ∷ env_file ∷ region_file ∷ [] in
      let files = layers common_file release_file env_file region_file src in
      let paths = default_config_paths config_dir release_env env region in
      let w = AllHold-AllWellFormed n numbers converts (map read_file paths) files hold in
      let wins =
        last_file_wins ks earlier [] src end leaf (AllWellFormed-last earlier src w) found scalar
          tt in
      let (a, result, reads, quiet) =
        create_c5store_reads s lawful sha256 m pm n numbers converts parse read_file paths options
          keys segment files ks leaf hk hs hold
          (LeafIn-of ks (merge_files end files) leaf wins scalar clear) unique load in
      (
        a,
        Manager.new (take_provided pm.insert (merge_files end files) end pm.new []).2,
        result,
        reads,
      )
