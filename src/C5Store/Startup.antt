-- ===== src/C5Store/Startup.antt =====
-- `read_config_data` from the files to the store: the merge, the walk over the merged configuration
-- and the hand-over of its entries together.
use c5store.Base.{ℕ, ◌≡◌, refl, Option, some, List, [], returned}
use c5store.Text.{Str}
use c5store.Crates.SkipMap.{SkipMap, IsLawful}
use c5store.Crates.ListMultiMap.{ListMultiMap}
use c5store.Value.{C5DataValue, Fields, end}
use c5store.Merge.{merge_files}
use c5store.Merge.WellFormed.{AllWellFormed, merge_files-IsWellFormed}
use c5store.Flatten.{take_provided, build_flat_map}
use c5store.Flatten.Leaves.{dotted, LeafIn}
use c5store.Flatten.Reads.{flat_complete}
use c5store.Flatten.Walks.{take_provided-build_flat_map}
use c5store.C5Store.{State, read_config_data, root_get, set_entries}
use c5store.C5Store.Loading.{CanLoad, set_entries-Loaded}

module _ {L : Type 0} (s : SkipMap C5DataValue) (sha256 : List ℕ → List ℕ)
    (m : ListMultiMap L) where
  pub read_config_data_result :
      {P : Type 0} (insert_provided : Str → C5DataValue → P → P) (files : List (Option Fields))
      (provided : P) (a : State s sha256 m)
      → (set_entries s sha256 m (build_flat_map (merge_files end files) end []).1 a).0 ≡ returned tt
      → read_config_data s sha256 m insert_provided files provided a ≡ (
        returned (take_provided insert_provided (merge_files end files) end provided []).2,
        (set_entries s sha256 m (build_flat_map (merge_files end files) end []).1 a).1,
      )
  unfolding read_config_data
  read_config_data_result insert_provided files provided a finished =
      rw (take_provided-build_flat_map insert_provided (merge_files end files) end provided [])
        (rw finished refl)

module _ {L P : Type 0} (s : SkipMap C5DataValue) (lawful : IsLawful s) (sha256 : List ℕ → List ℕ)
    (m : ListMultiMap L) (insert_provided : Str → C5DataValue → P → P) where
  -- A leaf of the merged configuration files is read from the root at its dotted path once they have
  -- been read, the call returns what the walk took out for the value providers, and nobody is told
  -- of a change: if the files have no key twice in a map, no other leaf has the same dotted path, and
  -- the flat configuration can be loaded, with no secret, no key that is there already, and no two
  -- keys that the store takes for one.
  pub read_config_data_reads :
      (files : List (Option Fields)) (provided : P) (a : State s sha256 m) (ks : List Str)
      (leaf : C5DataValue)
      → AllWellFormed files
      → LeafIn ks (merge_files end files) leaf
      → ((js : List Str) (other : C5DataValue)
          → LeafIn js (merge_files end files) other
          → dotted [] ks ≡ dotted [] js
          → other ≡ leaf)
      → CanLoad s lawful sha256 m a.data_store (build_flat_map (merge_files end files) end []).1
      → let (result, a') = read_config_data s sha256 m insert_provided files provided a in
        (result
          ≡ returned (take_provided insert_provided (merge_files end files) end provided []).2)
        × (root_get s sha256 m a' (dotted [] ks) ≡ some leaf)
        × (a'.notifier ≡ a.notifier)
  unfolding root_get
  read_config_data_reads files provided a ks leaf w h unique can =
      let raw = merge_files end files in
      let whole = merge_files-IsWellFormed files end (tt, tt) w in
      let found = flat_complete raw [] ks leaf whole h unique in
      let loaded = set_entries-Loaded s lawful sha256 m (build_flat_map raw end []).1 a can in
      rw (read_config_data_result s sha256 m insert_provided files provided a loaded.finished)
        (refl, loaded.reads (dotted [] ks) leaf found, loaded.notifier)
