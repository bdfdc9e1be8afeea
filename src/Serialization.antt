-- ===== src/Serialization.antt =====
-- c5store_rust/src/serialization.rs: documents of the `serde_yaml` and `serde_json` crates turned into
-- values. The parsers, and whether `from_value` makes a `HashMap` of a mapping, are parameters; an
-- `unwrap` of a number that is not there is a panic.
pub mod WellFormed
pub mod RoundTrip
pub mod Kinds
use c5store.Base.{
  ℕ, Bool, true, false, Option, none, some, List, [], ◌∷◌, Outcome, returned, panicked,
  unwrap_option, ◌>>=◌, if◌then◌else◌,
}
use c5store.Text.{Str, bytes_of}
use c5store.Crates.Documents.{
  Numbers, YamlValue, YamlItems, YamlEntries, no_entries, entry, JsonValue, JsonItems, JsonMembers,
  no_members, member,
}
use c5store.Value.{
  C5DataValue, null, boolean, integer, uinteger, float, string, array, map, Items, nil, cons,
  Fields, end,
}
use c5store.Value.Map as ValueMap
use c5store.Providers.{C5RawValue, raw_bytes, raw_string}

-- `bool::to_string`
abbrev pub text_of : Bool → Str
text_of true = bytes_of "true"
text_of false = bytes_of "false"

-- The value of a mapping of which `from_value` makes a `HashMap`, and that of any other.
abbrev pub map_or_null : Bool → Outcome Fields → Outcome C5DataValue
map_or_null false new_map = returned null
map_or_null true new_map = do m ← new_map; returned (map m)

-- The body of the loop over the entries, given what is done with the map behind it: an entry whose
-- key is no scalar is passed over.
abbrev pub insert_or_skip :
    Option Str → Outcome C5DataValue → (Fields → Outcome Fields) → Fields → Outcome Fields
insert_or_skip none value rest new_map = rest new_map
insert_or_skip (some final_key) value rest new_map = do
  c5_value ← value
  rest (ValueMap.insert final_key c5_value new_map)

module _ (n : Numbers) (converts : YamlEntries n.Number → Bool) where
  unfoldable pub yaml_number : n.Number → Outcome C5DataValue
  yaml_number value =
      if n.is_f64 value
      then (do f ← unwrap_option (n.as_f64 value); returned (float f))
      else if n.is_u64 value
      then (do u ← unwrap_option (n.as_u64 value); returned (uinteger u))
      else (do i ← unwrap_option (n.as_i64 value); returned (integer i))

  -- The key of an entry, unless the entry is passed over.
  unfoldable pub final_key : YamlValue n.Number → Option Str
  final_key (YamlValue.string key_str) = some key_str
  final_key (YamlValue.number key_num) = some (n.to_string key_num)
  final_key (YamlValue.bool key_num) = some (text_of key_num)
  final_key YamlValue.null = some (bytes_of "null")
  final_key _ = none

  unfoldable mutual
    pub serde_yaml_val_to_c5_value : YamlValue n.Number → Outcome C5DataValue
    serde_yaml_val_to_c5_value YamlValue.null = returned null
    serde_yaml_val_to_c5_value (YamlValue.bool value) = returned (boolean value)
    serde_yaml_val_to_c5_value (YamlValue.string value) = returned (string value)
    serde_yaml_val_to_c5_value (YamlValue.number value) = yaml_number value
    serde_yaml_val_to_c5_value (YamlValue.sequence value) = do
      items ← yaml_items value
      returned (array items)
    serde_yaml_val_to_c5_value (YamlValue.mapping value) =
        map_or_null (converts value) (yaml_entries value end)

    pub yaml_items : YamlItems n.Number → Outcome Items
    yaml_items YamlItems.no_items = returned nil
    yaml_items (YamlItems.item value values) = do
      c5_value ← serde_yaml_val_to_c5_value value
      rest ← yaml_items values
      returned (cons c5_value rest)

    -- The loop over the entries, with `new_map` as it is so far.
    pub yaml_entries : YamlEntries n.Number → Fields → Outcome Fields
    yaml_entries no_entries new_map = returned new_map
    yaml_entries (entry key value entries) new_map =
        insert_or_skip (final_key key) (serde_yaml_val_to_c5_value value) (yaml_entries entries)
          new_map

  unfoldable pub deserialize_yaml :
      (List ℕ → Option (YamlValue n.Number))
      → (Str → Option (YamlValue n.Number))
      → C5RawValue
      → Outcome C5DataValue
  deserialize_yaml from_slice from_str raw_value =
      let value_result : Option (YamlValue n.Number) = elim raw_value [
        | raw_bytes content ↦ from_slice content
        | raw_string content ↦ from_str content
      ] in
      elim value_result [ none ↦ returned null | some value ↦ serde_yaml_val_to_c5_value value ]

module _ (n : Numbers) (converts : JsonMembers n.Number → Bool) where
  unfoldable pub json_number : n.Number → Outcome C5DataValue
  json_number value =
      if n.is_f64 value
      then (do f ← unwrap_option (n.as_f64 value); returned (float f))
      else if n.is_i64 value
      then (do i ← unwrap_option (n.as_i64 value); returned (integer i))
      else (do u ← unwrap_option (n.as_u64 value); returned (uinteger u))

  unfoldable mutual
    pub serde_json_val_to_c5_value : JsonValue n.Number → Outcome C5DataValue
    serde_json_val_to_c5_value JsonValue.null = returned null
    serde_json_val_to_c5_value (JsonValue.bool value) = returned (boolean value)
    serde_json_val_to_c5_value (JsonValue.string value) = returned (string value)
    serde_json_val_to_c5_value (JsonValue.number value) = json_number value
    serde_json_val_to_c5_value (JsonValue.array value) = do
      items ← json_items value
      returned (array items)
    serde_json_val_to_c5_value (JsonValue.object value) =
        map_or_null (converts value) (json_members value end)

    pub json_items : JsonItems n.Number → Outcome Items
    json_items JsonItems.no_items = returned nil
    json_items (JsonItems.item value values) = do
      c5_value ← serde_json_val_to_c5_value value
      rest ← json_items values
      returned (cons c5_value rest)

    pub json_members : JsonMembers n.Number → Fields → Outcome Fields
    json_members no_members new_map = returned new_map
    json_members (member key value members) new_map = do
      c5_value ← serde_json_val_to_c5_value value
      json_members members (ValueMap.insert key c5_value new_map)

  unfoldable pub deserialize_json :
      (List ℕ → Option (JsonValue n.Number))
      → (Str → Option (JsonValue n.Number))
      → C5RawValue
      → Outcome C5DataValue
  deserialize_json from_slice from_str raw_value =
      let value_result : Option (JsonValue n.Number) = elim raw_value [
        | raw_bytes content ↦ from_slice content
        | raw_string content ↦ from_str content
      ] in
      elim value_result [ none ↦ returned null | some value ↦ serde_json_val_to_c5_value value ]
