-- ===== src/Flatten/Walks.antt =====
-- The two walks, of c5store_rust/src/util.rs and c5store_rust/src/lib.rs, compared with the leaves.
use c5store.Base.{◌≡◌, refl, sym, ◌∙◌, Bool-cases, inl, inr, List, [], ◌∷◌, ◌++◌}
use c5store.Text.{Str, str_eq}
use c5store.Value.{C5DataValue, map, Fields, end, field}
use c5store.Value.Map as ValueMap
use c5store.Flatten.{
  join_keypath, config_key_provider, build_flat_map, flat_value, take_provided, take_value,
}
use c5store.Flatten.Leaves.{leaves, leaves_of, insert_all}

insert_all-append :
    (l r : List (Str × C5DataValue)) (config : Fields)
    → insert_all (l ++ r) config ≡ insert_all r (insert_all l config)
unfolding insert_all
insert_all-append [] r config = refl
insert_all-append ((p, v) ∷ l) r config = insert_all-append l r (ValueMap.insert p v config)

mutual
  unfolding build_flat_map leaves insert_all

  pub flat_walk :
      (m config : Fields) (keypath : Str)
      → (build_flat_map m config keypath).1 ≡ insert_all (leaves keypath m) config
  flat_walk end config keypath = refl
  flat_walk (field key value m) config keypath =
      let path = join_keypath keypath key in
      simp (flat_walk m, flat_value_walk value config path, insert_all-append)

  flat_value_walk :
      (v : C5DataValue) (config : Fields) (path : Str)
      → (flat_value v config path).1 ≡ insert_all (leaves_of path v) config
  flat_value_walk (map m) config path =
      elim (Bool-cases (ValueMap.contains_key config_key_provider m)) [
        | inl section ↦ rw section
        | inr open_map ↦ rw open_map (flat_walk m config path)
      ]
  flat_value_walk v config path = refl

module _ {P : Type 0} (insert_provided : Str → C5DataValue → P → P) where
  mutual
    unfolding take_provided leaves insert_all

    take_walk :
        (m config : Fields) (provided : P) (keypath : Str)
        → (take_provided insert_provided m config provided keypath).1
          ≡ insert_all (leaves keypath m) config
    take_walk end config provided keypath = refl
    take_walk (field key value m) config provided keypath =
        let path = join_keypath keypath key in
        simp (take_walk m, take_value_walk value config provided key path, insert_all-append)

    take_value_walk :
        (v : C5DataValue) (config : Fields) (provided : P) (key path : Str)
        → (take_value insert_provided v config provided key path).1
          ≡ insert_all (leaves_of path v) config
    take_value_walk (map m) config provided key path =
        elim (Bool-cases (ValueMap.contains_key config_key_provider m)) [
          | inl section ↦ rw section
          | inr open_map ↦ rw open_map (take_walk m config provided path)
        ]
    take_value_walk v config provided key path = refl

  -- The walk over the configuration files and the walk over the data of a provider write the same
  -- entries.
  pub take_provided-build_flat_map :
      (m config : Fields) (provided : P) (keypath : Str)
      → (take_provided insert_provided m config provided keypath).1
        ≡ (build_flat_map m config keypath).1
  take_provided-build_flat_map m config provided keypath =
      take_walk m config provided keypath ∙ sym (flat_walk m config keypath)
