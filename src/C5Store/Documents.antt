-- ===== src/C5Store/Documents.antt =====
-- The documents of the configuration files and the values that they stand for (c5store_rust/src/lib.rs).
use c5store.Base.{
  ℕ, Bool, Option, none, some, List, [], ◌∷◌, ◌≡◌, refl, subst, returned, Returns, Returns-result,
}
use c5store.Text.{Str}
use c5store.Crates.SkipMap.{SkipMap}
use c5store.Crates.ListMultiMap.{ListMultiMap}
use c5store.Crates.Documents.{Numbers, IsLawful, YamlEntries}
use c5store.Value.{C5DataValue, map, Fields, end}
use c5store.Value.Map as ValueMap
use c5store.Value.Path.{IsWellFormed}
use c5store.Merge.{merge, merge_files}
use c5store.Merge.WellFormed.{AllWellFormed}
use c5store.Serialization.WellFormed.{serde_yaml_val_to_c5_value-IsWellFormed, insert-IsWellFormed}
use c5store.C5Store.{State, read_config_data}
use c5store.C5Store.ConfigFiles.{
  Document, map_entries, map_from_serde_yaml_valuemap, merge_documents, read_config_files,
  IterationOrder, read_config_files_in, take_and_set,
}

module _ (n : Numbers) (converts : YamlEntries n.Number → Bool) where
  -- The files hold these maps, one after the other.
  abbrev pub AllHold : List (Option (Document n converts)) → List (Option Fields) → Type 0
  AllHold [] [] = Unit
  AllHold (none ∷ documents) (none ∷ files) = AllHold documents files
  AllHold (some document ∷ documents) (some file ∷ files) =
      (map_from_serde_yaml_valuemap n converts document ≡ returned file) × AllHold documents files
  AllHold _ _ = ⊥

  merge_documents-AllHold :
      (documents : List (Option (Document n converts))) (files : List (Option Fields))
      (raw : Fields)
      → AllHold documents files
      → merge_documents n converts raw documents ≡ returned (merge_files raw files)
  unfolding merge_documents merge_files
  merge_documents-AllHold [] [] raw h = refl
  merge_documents-AllHold (none ∷ documents) (none ∷ files) raw h =
      merge_documents-AllHold documents files raw h
  merge_documents-AllHold (some document ∷ documents) (some file ∷ files) raw h =
      rw h.0 (merge_documents-AllHold documents files (merge raw file) h.1)
  merge_documents-AllHold _ _ raw h = elim h [ ]

module _ (n : Numbers) (lawful : IsLawful n) (converts : YamlEntries n.Number → Bool) where
  map_entries-Returns :
      (document : Document n converts) (result : Fields)
      → IsWellFormed (map result)
      → Returns (λ m. IsWellFormed (map m)) (map_entries n converts document result)
  unfolding map_entries
  map_entries-Returns [] result h = h
  map_entries-Returns ((key, value) ∷ document) result h =
      let (v, e, w) = serde_yaml_val_to_c5_value-IsWellFormed n lawful converts value in
      rw e (
        map_entries-Returns document (ValueMap.insert key v result)
          (insert-IsWellFormed key v result w h))

  -- Whatever the files hold, they stand for maps none of which has a key twice.
  pub documents-AllHold :
      (documents : List (Option (Document n converts)))
      → (files : List (Option Fields)) × AllHold n converts documents files × AllWellFormed files
  unfolding map_from_serde_yaml_valuemap
  documents-AllHold [] = ([], tt, tt)
  documents-AllHold (none ∷ documents) =
      let (files, h, w) = documents-AllHold documents in (none ∷ files, h, w)
  documents-AllHold (some document ∷ documents) =
      let (files, h, w) = documents-AllHold documents in
      let (file, e, wf) =
        Returns-result (λ m. IsWellFormed (map m)) (map_entries n converts document end)
          (map_entries-Returns document end (tt, tt)) in
      (some file ∷ files, (e, h), (wf, w))

  pub AllHold-AllWellFormed :
      (documents : List (Option (Document n converts))) (files : List (Option Fields))
      → AllHold n converts documents files
      → AllWellFormed files
  unfolding map_from_serde_yaml_valuemap
  AllHold-AllWellFormed [] [] h = tt
  AllHold-AllWellFormed (none ∷ documents) (none ∷ files) h =
      AllHold-AllWellFormed documents files h
  AllHold-AllWellFormed (some document ∷ documents) (some file ∷ files) h =
      let good = map_entries-Returns document end (tt, tt) in
      (
        subst (Returns (λ m. IsWellFormed (map m))) h.0 good,
        AllHold-AllWellFormed documents files h.1,
      )
  AllHold-AllWellFormed _ _ h = elim h [ ]

module _ {L P : Type 0} (s : SkipMap C5DataValue) (sha256 : List ℕ → List ℕ) (m : ListMultiMap L)
    (n : Numbers) (converts : YamlEntries n.Number → Bool)
    (insert_provided : Str → C5DataValue → P → P) where
  -- Reading the files is merging the maps that their documents stand for, and taking them apart.
  pub read_config_files_in-AllHold :
      (order : IterationOrder) (documents : List (Option (Document n converts)))
      (files : List (Option Fields)) (provided : P) (a : State s sha256 m)
      → AllHold n converts documents files
      → read_config_files_in s sha256 m n converts insert_provided order documents provided a
        ≡ take_and_set s sha256 m n converts insert_provided order provided
            (merge_files end files)
            a
  unfolding read_config_files_in
  read_config_files_in-AllHold order documents files provided a h =
      rw (merge_documents-AllHold n converts documents files end h)

  -- Reading the files is reading the maps that their documents stand for.
  pub read_config_files-AllHold :
      (documents : List (Option (Document n converts))) (files : List (Option Fields))
      (provided : P) (a : State s sha256 m)
      → AllHold n converts documents files
      → read_config_files s sha256 m n converts insert_provided documents provided a
        ≡ read_config_data s sha256 m insert_provided files provided a
  unfolding read_config_files read_config_data
  read_config_files-AllHold documents files provided a h =
      rw (merge_documents-AllHold n converts documents files end h)
