-- ===== src/Flatten.antt =====
-- The two walks that turn nested maps into dotted key paths: `build_flat_map` of
-- c5store_rust/src/util.rs, for the data of a provider, and `_take_provided_data` of
-- c5store_rust/src/lib.rs, for the configuration files, which also takes the sections of the value
-- providers out. `provided_data` is a `MultiMap` of the multimap crate: its `insert` is a parameter.
pub mod Leaves
pub mod Walks
pub mod Reads
pub mod AnyOrder
pub mod Sections
use c5store.Base.{
  ℕ, Bool, true, false, Option, none, some, List, [], ◌∷◌, ◌++◌, ◌==◌, nat_eq, if◌then◌else◌,
}
use c5store.Text.{Str, bytes_of, is_empty}
use c5store.Value.{
  C5DataValue, null, bytes, boolean, integer, uinteger, float, string, array, map, Fields, end,
  field,
}
use c5store.Value.Map as ValueMap

-- The constants of c5store_rust/src/providers.rs.
abbrev pub config_key_keyname : Str
config_key_keyname = bytes_of ".key"

abbrev pub config_key_keypath : Str
config_key_keypath = bytes_of ".keyPath"

abbrev pub config_key_provider : Str
config_key_provider = bytes_of ".provider"

-- `new_keypath`
unfoldable pub join_keypath : Str → Str → Str
join_keypath keypath key = if is_empty keypath then key else keypath ++ (b'.' ∷ key)

-- What is left of an entry of the raw data: it is dropped, or kept with its new value.
abbrev pub keep : Str → Option C5DataValue → Fields → Fields
keep key none rest = rest
keep key (some value) rest = field key value rest

-- The map of an entry after the walk below it, which is removed if nothing is left.
abbrev pub unless_empty : Fields → Option C5DataValue
unless_empty data_map = if ValueMap.len data_map == 0 then none else some (map data_map)

-- The walk over the keys changes `raw_config_data` and `config_data`, and returns both. Each key is
-- looked up once, before its own entry is removed, so a walk over the entries is the same.
unfoldable mutual
  pub build_flat_map : Fields → Fields → Str → Fields × Fields
  build_flat_map end config_data keypath = (end, config_data)
  build_flat_map (field key value raw) config_data keypath =
      let (kept, config') = flat_value value config_data (join_keypath keypath key) in
      let (raw', config'') = build_flat_map raw config' keypath in (keep key kept raw', config'')

  pub flat_value : C5DataValue → Fields → Str → Option C5DataValue × Fields
  flat_value (map data_map) config_data new_keypath =
      let below = build_flat_map data_map config_data new_keypath in
      if ValueMap.contains_key config_key_provider data_map
      then (some (map data_map), config_data)
      else (unless_empty below.0, below.1)
  flat_value value config_data new_keypath =
      (some value, ValueMap.insert new_keypath value config_data)

-- A section with its place written into it, as it is handed to its value provider.
unfoldable pub with_place : Str → Str → Fields → Fields
with_place key new_keypath data_map =
    ValueMap.insert config_key_keyname (string key)
      (ValueMap.insert config_key_keypath (string new_keypath) data_map)

module _ {P : Type 0} (insert_provided : Str → C5DataValue → P → P) where
  -- A section whose provider's name is no string is dropped.
  unfoldable pub provide : Fields → P → P
  provide section provided_data = elim (ValueMap.lookup config_key_provider section) [
    | some (string provider_name) ↦ insert_provided provider_name (map section) provided_data
    | _ ↦ provided_data
  ]

  unfoldable mutual
    pub take_provided : Fields → Fields → P → Str → Fields × Fields × P
    take_provided end config_data provided_data keypath = (end, config_data, provided_data)
    take_provided (field key value raw) config_data provided_data keypath =
        let (kept, config', provided') =
          take_value value config_data provided_data key (join_keypath keypath key) in
        let (raw', config'', provided'') = take_provided raw config' provided' keypath in
        (keep key kept raw', config'', provided'')

    pub take_value : C5DataValue → Fields → P → Str → Str → Option C5DataValue × Fields × P
    take_value (map data_map) config_data provided_data key new_keypath =
        let below = take_provided data_map config_data provided_data new_keypath in
        if ValueMap.contains_key config_key_provider data_map
        then (none, config_data, provide (with_place key new_keypath data_map) provided_data)
        else (unless_empty below.0, below.1, below.2)
    take_value value config_data provided_data key new_keypath =
        (some value, ValueMap.insert new_keypath value config_data, provided_data)
