-- ===== src/C5Store/SecretFiles.antt =====
-- A store created from configuration files with secrets in them (`create_c5store` of
-- c5store_rust/src/lib.rs).
use c5store.Base.{
  ℕ, eq_iff, Bool, Option, some, List, [], ◌∷◌, map, ◌≡◌, returned, inl, inr, Bool-cases, ◌==◌,
}
use c5store.Text.{Str, str_eq}
use c5store.Crates.SkipMap.{SkipMap, IsLawful}
use c5store.Crates.ListMultiMap.{ListMultiMap}
use c5store.Crates.Documents as Documents
use c5store.Crates.Documents.{Numbers, YamlEntries}
use c5store.Secrets.{SecretKeyStore}
use c5store.Value.{C5DataValue, Fields, end, field}
use c5store.Value.Map as ValueMap
use c5store.Merge.{merge_files}
use c5store.Merge.WellFormed.{merge_files-IsWellFormed}
use c5store.Flatten.{take_provided}
use c5store.Flatten.Leaves.{dotted, LeafIn}
use c5store.Flatten.Reads.{flat_complete}
use c5store.DataStore as DataStore
use c5store.DataStore.{Store}
use c5store.DataStore.Opens.{EntryOpens}
use c5store.Notifier as Notifier
use c5store.Manager as Manager
use c5store.C5Store.{State, root_get, set_entries}
use c5store.C5Store.ConfigFiles.{Document}
use c5store.C5Store.Documents.{AllHold, AllHold-AllWellFormed}
use c5store.C5Store.Loading.{DiffersFromAll}
use c5store.C5Store.Opening.{CanOpen, set_entries-opens}
use c5store.C5Store.AnyOrder.{DiffersFromAll-lookup}
use c5store.C5Store.Create.{C5StoreOptions, completed, secret_keys, create_c5store}
use c5store.C5Store.Created.{start, flat_of, create_c5store_result}

module _ {L : Type 0} (s : SkipMap C5DataValue) (lawful : IsLawful s) (sha256 : List ℕ → List ℕ)
    (m : ListMultiMap L) where
  lookup-differing :
      (i j : Str) (u w : C5DataValue) (e : Fields)
      → DiffersFromAll s lawful sha256 m i e
      → ValueMap.lookup j e ≡ some w
      → ValueMap.lookup j (field i u e) ≡ some w
  unfolding ValueMap.lookup
  lookup-differing i j u w e differs h = elim (Bool-cases (i == j)) [
    | inl here ↦
        let ij : i ≡ j = (eq_iff i j).0 here in
        let apart = DiffersFromAll-lookup s lawful sha256 m i j w e differs h in
        cc (lawful.same_key_refl i)
    | inr there ↦ rw there h
  ]

  -- The entry is found among the opened ones.
  opened_entry :
      (d : Store s sha256) (entries opened : Fields) (k : Str) (v : C5DataValue)
      → CanOpen s lawful sha256 m d entries opened
      → ValueMap.lookup k entries ≡ some v
      → (base : Str) × (w : C5DataValue) × EntryOpens d.secret_key_path_segment d.secret_key_store k
          v base w
        × (ValueMap.lookup base opened ≡ some w)
  opened_entry d end end k v can found = absurd (ValueMap.lookup-end k found)
  opened_entry d (field j u entries) (field base w opened) k v can found =
      elim (Bool-cases (j == k)) [
        | inl here ↦
            let (jk, uv) = ValueMap.lookup-field_head j k u v entries here found in
            (base, w, rw (← jk, ← uv) (can.0), ValueMap.lookup-field_self base w opened)
        | inr there ↦
            let (base', w', opens, found') =
              opened_entry d entries opened k v can.6
                (ValueMap.lookup-field_tail j k u v entries there found) in
            (base', w', opens, lookup-differing base base' w w' opened can.5 found')
      ]
  opened_entry d _ _ k v can found = elim can [ ]

module _ {L : Type 0} (s : SkipMap C5DataValue) (lawful : IsLawful s) (sha256 : List ℕ → List ℕ)
    (m : ListMultiMap L) (pm : ListMultiMap C5DataValue) (n : Numbers)
    (numbers : Documents.IsLawful n) (converts : YamlEntries n.Number → Bool)
    (parse : List ℕ → Option (List ℕ)) (read_file : Str → Option (Document n converts)) where
  -- A store is created from the files at the paths, with secrets in them: each leaf of the merged
  -- files is read from its root at the dotted path of the leaf, or is a secret, whose plain text is
  -- read at that path without the segment; nobody has been told of a change, and its manager has
  -- what the files say of value providers. This is so if the
  -- secret keys can be read, the options name a segment for secrets, no other leaf has the same
  -- dotted path, and every secret of the flat configuration can be decrypted, with no two keys or
  -- opened keys in it that the store takes for one.
  pub create_c5store_opens :
      (paths : List Str) (options : Option C5StoreOptions) (keys : SecretKeyStore) (segment : Str)
      (files : List (Option Fields)) (opened : Fields) (ks : List Str) (leaf : C5DataValue)
      → secret_keys parse (completed options).secret_opts ≡ returned keys
      → (completed options).secret_opts.secret_key_path_segment ≡ some segment
      → AllHold n converts (map read_file paths) files
      → LeafIn ks (merge_files end files) leaf
      → ((js : List Str) (other : C5DataValue)
          → LeafIn js (merge_files end files) other
          → dotted [] ks ≡ dotted [] js
          → other ≡ leaf)
      → CanOpen s lawful sha256 m (start s sha256 m segment keys).data_store (flat_of files) opened
      → (a : State s sha256 m) × (create_c5store s sha256 m pm n converts parse read_file paths
            options
          ≡ returned
              (a, Manager.new (take_provided pm.insert (merge_files end files) end pm.new []).2))
        × ((base : Str) × (w : C5DataValue) × EntryOpens
              (b'.' ∷ segment)
              keys
              (dotted [] ks)
              leaf
              base
              w
            × (root_get s sha256 m a base ≡ some w))
        × (a.notifier ≡ Notifier.new)
  unfolding root_get DataStore.new
  create_c5store_opens paths options keys segment files opened ks leaf hk hs hold h unique can =
      let a₀ = start s sha256 m segment keys in
      let flat = flat_of files in
      let w = AllHold-AllWellFormed n numbers converts (map read_file paths) files hold in
      let whole = merge_files-IsWellFormed files end (tt, tt) w in
      let loaded = set_entries-opens s lawful sha256 m flat opened a₀ can in
      let found = flat_complete (merge_files end files) [] ks leaf whole h unique in
      let (base, value, opens, there) =
        opened_entry s lawful sha256 m a₀.data_store flat opened (dotted [] ks) leaf can found in
      (
        (set_entries s sha256 m flat a₀).1,
        create_c5store_result s lawful sha256 m pm n numbers converts parse read_file paths options
            keys segment files hk hs hold loaded.finished,
        (base, value, opens, loaded.reads base value there),
        loaded.notifier,
      )
