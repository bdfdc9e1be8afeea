-- ===== src/C5Store/SameFiles.antt =====
-- Two stores that `create_c5store` (c5store_rust/src/lib.rs) returns for files with the same maps, of
-- which each run may iterate in an order of its own.
use c5store.Base.{ℕ, Bool, Option, some, List, [], ◌∷◌, map, ◌≡◌, refl, sym, ◌∙◌, returned}
use c5store.Text.{Str}
use c5store.Crates.SkipMap.{SkipMap, IsLawful}
use c5store.Crates.ListMultiMap.{ListMultiMap}
use c5store.Crates.Documents as Documents
use c5store.Crates.Documents.{Numbers, YamlEntries}
use c5store.Secrets.{SecretKeyStore}
use c5store.Value as Value
use c5store.Value.{C5DataValue, Fields, end}
use c5store.Value.Path.{IsWellFormed}
use c5store.Value.Map as ValueMap
use c5store.Value.Seen.{SameMap}
use c5store.Merge.{merge_files}
use c5store.Merge.Config.{AllSame, merge_files-SameMap}
use c5store.Merge.WellFormed.{AllWellFormed, merge_files-IsWellFormed}
use c5store.Flatten.{take_provided, build_flat_map}
use c5store.Flatten.Leaves.{leaves, insert_all}
use c5store.Flatten.Walks.{flat_walk}
use c5store.Flatten.AnyOrder.{HasDistinctPaths, build_flat_map-SameMap}
use c5store.Manager as Manager
use c5store.C5Store.{State, root_get, set_entries}
use c5store.C5Store.ConfigFiles.{Document, IterationOrder}
use c5store.C5Store.Documents.{AllHold, AllHold-AllWellFormed}
use c5store.C5Store.Loading.{set_entries-Loaded}
use c5store.C5Store.AnyOrder.{SameEntries, set_entries-SameEntries, CanLoad-SameEntries}
use c5store.C5Store.Create.{C5StoreOptions, completed, secret_keys, create_c5store_in}
use c5store.C5Store.Created.{
  IsLoadable, IsLoadable-CanLoad, start, flat_of, flat_in, create_c5store_in_result,
}

insert_all-HasDistinctKeys :
    (l : List (Str × C5DataValue)) (config : Fields)
    → ValueMap.HasDistinctKeys config
    → ValueMap.HasDistinctKeys (insert_all l config)
unfolding insert_all
insert_all-HasDistinctKeys [] config h = h
insert_all-HasDistinctKeys ((k, v) ∷ l) config h =
    insert_all-HasDistinctKeys l (ValueMap.insert k v config)
      (ValueMap.insert-HasDistinctKeys k v config h)

build_flat_map-HasDistinctKeys :
    (raw : Fields) (keypath : Str) → ValueMap.HasDistinctKeys (build_flat_map raw end keypath).1
build_flat_map-HasDistinctKeys raw keypath =
    rw (flat_walk raw end keypath) (insert_all-HasDistinctKeys (leaves keypath raw) end tt)

-- An iteration over a `HashMap` comes to each of its entries: a reordered map shows what it showed.
pub record IsLawfulOrder (order : IterationOrder) : Type 0 where
  pub merged_same : (m : Fields) → IsWellFormed (Value.map m) → SameMap m (order.merged m)
  pub merged_ok :
      (m : Fields) → IsWellFormed (Value.map m) → IsWellFormed (Value.map (order.merged m))
  pub flat_same : (m : Fields) → ValueMap.HasDistinctKeys m → SameEntries m (order.flat m)
  pub flat_ok : (m : Fields) → ValueMap.HasDistinctKeys m → ValueMap.HasDistinctKeys (order.flat m)

-- The flat configuration of a map has the entries of that of a map which is seen alike, however a run
-- iterates over the latter.
flat-SameEntries :
    (order : IterationOrder) (raw raw' : Fields)
    → IsLawfulOrder order
    → IsWellFormed (Value.map raw)
    → IsWellFormed (Value.map raw')
    → SameMap raw raw'
    → HasDistinctPaths [] raw
    → SameEntries
        (build_flat_map raw end []).1
        (order.flat (build_flat_map (order.merged raw') end []).1)
flat-SameEntries order raw raw' o w w' same distinct k =
    build_flat_map-SameMap raw (order.merged raw') [] k w (o.merged_ok raw' w')
      (λ ks. same ks ∙ o.merged_same raw' w' ks) distinct
    ∙ o.flat_same (build_flat_map (order.merged raw') end []).1
        (build_flat_map-HasDistinctKeys (order.merged raw') []) k

module _ {L : Type 0} (s : SkipMap C5DataValue) (lawful : IsLawful s) (sha256 : List ℕ → List ℕ)
    (m : ListMultiMap L) (pm : ListMultiMap C5DataValue) (n : Numbers)
    (numbers : Documents.IsLawful n) (converts : YamlEntries n.Number → Bool)
    (parse : List ℕ → Option (List ℕ)) where
  -- A run that is given files with the same maps creates a store with the values of the flat
  -- configuration, whichever way it iterates.
  one_run :
      (order : IterationOrder) (read_file : Str → Option (Document n converts)) (paths : List Str)
      (options : Option C5StoreOptions) (keys : SecretKeyStore) (segment : Str)
      (files files' : List (Option Fields))
      → IsLawfulOrder order
      → secret_keys parse (completed options).secret_opts ≡ returned keys
      → (completed options).secret_opts.secret_key_path_segment ≡ some segment
      → AllWellFormed files
      → AllHold n converts (map read_file paths) files'
      → SameMap (merge_files end files) (merge_files end files')
      → HasDistinctPaths [] (merge_files end files)
      → IsLoadable s lawful sha256 m segment (flat_of files)
      → (a : State s sha256 m) × (provided : pm.Map) × (create_c5store_in s sha256 m pm n converts
            parse read_file order paths options
          ≡ returned (a, Manager.new provided))
        × ((key : Str)
            → root_get s sha256 m
                (set_entries s sha256 m (flat_of files) (start s sha256 m segment keys)).1
                key
              ≡ root_get s sha256 m a key)
  unfolding root_get
  one_run order read_file paths options keys segment files files' o hk hs w hold same distinct
        load =
      let w' = AllHold-AllWellFormed n numbers converts (map read_file paths) files' hold in
      let raw = merge_files end files in
      let raw' = merge_files end files' in
      let flat' = flat_in order files' in
      let a₀ = start s sha256 m segment keys in
      let entries =
        flat-SameEntries order raw raw' o (merge_files-IsWellFormed files end (tt, tt) w)
          (merge_files-IsWellFormed files' end (tt, tt) w') same distinct in
      let d' =
        o.flat_ok (build_flat_map (order.merged raw') end []).1
          (build_flat_map-HasDistinctKeys (order.merged raw') []) in
      let can = IsLoadable-CanLoad s lawful sha256 m segment keys (flat_of files) load in
      let can' =
        CanLoad-SameEntries s lawful sha256 m a₀.data_store (flat_of files) flat' d' entries can in
      (
        (set_entries s sha256 m flat' a₀).1,
        (take_provided pm.insert (order.merged raw') end pm.new []).2,
        create_c5store_in_result s lawful sha256 m pm n numbers converts parse read_file order paths
            options keys segment files' hk hs hold
            (set_entries-Loaded s lawful sha256 m flat' a₀ can').finished,
        λ key.
            set_entries-SameEntries s lawful sha256 m (flat_of files) flat' a₀ key d' entries can,
      )

  -- Two runs that are given files with the same maps create stores that have the same value at
  -- every key, whatever the order in which each of them comes to the entries of the maps in the
  -- files (except inside arrays, which nothing iterates over), of the merged map and the maps in
  -- it, and of the flat configuration: if the secret keys can be read, the options name a segment
  -- for secrets, no two leaves of the merged files have one dotted path, and the flat configuration
  -- holds no secret and no two keys that the store takes for one.
  pub create_c5store_any_order :
      (order order' : IterationOrder) (read_file read_file' : Str → Option (Document n converts))
      (paths : List Str) (options : Option C5StoreOptions) (keys : SecretKeyStore) (segment : Str)
      (files files' : List (Option Fields))
      → IsLawfulOrder order
      → IsLawfulOrder order'
      → secret_keys parse (completed options).secret_opts ≡ returned keys
      → (completed options).secret_opts.secret_key_path_segment ≡ some segment
      → AllHold n converts (map read_file paths) files
      → AllHold n converts (map read_file' paths) files'
      → AllSame files files'
      → HasDistinctPaths [] (merge_files end files)
      → IsLoadable s lawful sha256 m segment (flat_of files)
      → (a : State s sha256 m) × (a' : State s sha256 m) × (provided : pm.Map)
        × (provided' : pm.Map) × (create_c5store_in s sha256 m pm n converts parse read_file order
              paths options
            ≡ returned (a, Manager.new provided))
        × (create_c5store_in s sha256 m pm n converts parse read_file' order' paths options
            ≡ returned (a', Manager.new provided'))
        × ((key : Str) → root_get s sha256 m a key ≡ root_get s sha256 m a' key)
  create_c5store_any_order order order' read_file read_file' paths options keys segment files files'
        o o' hk hs hold hold' same distinct load =
      let w = AllHold-AllWellFormed n numbers converts (map read_file paths) files hold in
      let w' = AllHold-AllWellFormed n numbers converts (map read_file' paths) files' hold' in
      let alike = merge_files-SameMap files files' end end w w' (λ ks. refl) same in
      let (a, provided, e, reads) =
        one_run order read_file paths options keys segment files files o hk hs w hold (λ ks. refl)
          distinct load in
      let (a', provided', e', reads') =
        one_run order' read_file' paths options keys segment files files' o' hk hs w hold' alike
          distinct load in
      (a, a', provided, provided', e, e', λ key. sym (reads key) ∙ reads' key)
