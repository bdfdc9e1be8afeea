-- ===== src/Serialization/WellFormed.antt =====
-- Documents turned into values (c5store_rust/src/serialization.rs): that the conversion returns, and
-- the keys of the maps that it makes.
use c5store.Base.{
  Bool, true, false, ◌≡◌, Option, none, some, Outcome, returned, Returns, Returns-bind,
  Returns-result, arith,
}
use c5store.Text.{Str}
use c5store.Crates.Documents.{
  Numbers, IsLawful, YamlValue, YamlItems, YamlEntries, no_entries, entry, JsonValue, JsonItems,
  JsonMembers, no_members, member,
}
use c5store.Value.{C5DataValue, map, Fields, end}
use c5store.Value.Map as ValueMap
use c5store.Value.Path.{IsWellFormed, AreWellFormed-insert}
use c5store.Value.Distinct.{IsDistinct, ItemsDistinct, AreDistinct-insert, IsDistinct-IsWellFormed}
use c5store.Serialization.{
  map_or_null, insert_or_skip, yaml_number, final_key, serde_yaml_val_to_c5_value, yaml_items,
  yaml_entries, json_number, serde_json_val_to_c5_value, json_items, json_members,
}

abbrev pub ReturnsDistinct : Outcome C5DataValue → Type 0
ReturnsDistinct o = Returns IsDistinct o

abbrev ReturnsMap : Outcome Fields → Type 0
ReturnsMap o = Returns (λ m. IsDistinct (map m)) o

pub insert-IsDistinct :
    (k : Str) (v : C5DataValue) (m : Fields)
    → IsDistinct v
    → IsDistinct (map m)
    → IsDistinct (map (ValueMap.insert k v m))
insert-IsDistinct k v m hv h =
    (ValueMap.insert-HasDistinctKeys k v m h.0, AreDistinct-insert k v m hv h.1)

pub insert-IsWellFormed :
    (k : Str) (v : C5DataValue) (m : Fields)
    → IsWellFormed v
    → IsWellFormed (map m)
    → IsWellFormed (map (ValueMap.insert k v m))
insert-IsWellFormed k v m hv h =
    (ValueMap.insert-HasDistinctKeys k v m h.0, AreWellFormed-insert k v m hv h.1)

map_or_null-Returns :
    (b : Bool) (o : Outcome Fields) → ReturnsMap o → ReturnsDistinct (map_or_null b o)
map_or_null-Returns false o h = tt
map_or_null-Returns true o h = Returns-bind _ _ o h (λ m hm. hm)

insert_or_skip-Returns :
    (k : Option Str) (o : Outcome C5DataValue) (rest : Fields → Outcome Fields) (m : Fields)
    → ReturnsDistinct o
    → ((r : Fields) → IsDistinct (map r) → ReturnsMap (rest r))
    → IsDistinct (map m)
    → ReturnsMap (insert_or_skip k o rest m)
insert_or_skip-Returns none o rest m ho hrest h = hrest m h
insert_or_skip-Returns (some k) o rest m ho hrest h =
    Returns-bind _ _ o ho (λ v hv. hrest (ValueMap.insert k v m) (insert-IsDistinct k v m hv h))

module _ (n : Numbers) (lawful : IsLawful n) (converts : YamlEntries n.Number → Bool) where
  yaml_number-Returns : (v : n.Number) → ReturnsDistinct (yaml_number n converts v)
  unfolding yaml_number
  yaml_number-Returns v =
      ground (arith, lawful.f64_there v, lawful.u64_there v, lawful.one_kind v, lawful.i64_there v)

  mutual
    unfolding serde_yaml_val_to_c5_value yaml_items yaml_entries

    value-Returns :
        (v : YamlValue n.Number) → ReturnsDistinct (serde_yaml_val_to_c5_value n converts v)
    value-Returns YamlValue.null = tt
    value-Returns (YamlValue.bool b) = tt
    value-Returns (YamlValue.string s) = tt
    value-Returns (YamlValue.number v) = yaml_number-Returns v
    value-Returns (YamlValue.sequence vs) =
        Returns-bind _ _ (yaml_items n converts vs) (items-Returns vs) (λ r h. h)
    value-Returns (YamlValue.mapping es) =
        map_or_null-Returns (converts es) (yaml_entries n converts es end)
          (entries-Returns es end (tt, tt))

    items-Returns : (vs : YamlItems n.Number) → Returns ItemsDistinct (yaml_items n converts vs)
    items-Returns YamlItems.no_items = tt
    items-Returns (YamlItems.item v vs) =
        Returns-bind _ _ (serde_yaml_val_to_c5_value n converts v) (value-Returns v)
          (λ r h. Returns-bind _ _ (yaml_items n converts vs) (items-Returns vs) (λ rs hs. (h, hs)))

    entries-Returns :
        (es : YamlEntries n.Number) (m : Fields)
        → IsDistinct (map m)
        → ReturnsMap (yaml_entries n converts es m)
    entries-Returns no_entries m h = h
    entries-Returns (entry k v es) m h =
        insert_or_skip-Returns (final_key n converts k) (serde_yaml_val_to_c5_value n converts v)
          (yaml_entries n converts es) m (value-Returns v) (λ r hr. entries-Returns es r hr) h

  -- Every YAML document is turned into a value, without a panic, and no map of the value, inside
  -- arrays too, has a key twice.
  pub serde_yaml_val_to_c5_value-IsDistinct :
      (v : YamlValue n.Number)
      → (w : C5DataValue) × (serde_yaml_val_to_c5_value n converts v ≡ returned w) × IsDistinct w
  serde_yaml_val_to_c5_value-IsDistinct v =
      Returns-result IsDistinct (serde_yaml_val_to_c5_value n converts v) (value-Returns v)

  pub serde_yaml_val_to_c5_value-IsWellFormed :
      (v : YamlValue n.Number)
      → (w : C5DataValue) × (serde_yaml_val_to_c5_value n converts v ≡ returned w) × IsWellFormed w
  serde_yaml_val_to_c5_value-IsWellFormed v =
      let (w, e, h) = serde_yaml_val_to_c5_value-IsDistinct v in (w, e, IsDistinct-IsWellFormed w h)

module _ (n : Numbers) (lawful : IsLawful n) (converts : JsonMembers n.Number → Bool) where
  json_number-Returns : (v : n.Number) → ReturnsDistinct (json_number n converts v)
  unfolding json_number
  json_number-Returns v =
      ground (arith, lawful.f64_there v, lawful.u64_there v, lawful.one_kind v, lawful.i64_there v)

  mutual
    unfolding serde_json_val_to_c5_value json_items json_members

    json-Returns :
        (v : JsonValue n.Number) → ReturnsDistinct (serde_json_val_to_c5_value n converts v)
    json-Returns JsonValue.null = tt
    json-Returns (JsonValue.bool b) = tt
    json-Returns (JsonValue.string s) = tt
    json-Returns (JsonValue.number v) = json_number-Returns v
    json-Returns (JsonValue.array vs) =
        Returns-bind _ _ (json_items n converts vs) (json_items-Returns vs) (λ r h. h)
    json-Returns (JsonValue.object es) =
        map_or_null-Returns (converts es) (json_members n converts es end)
          (members-Returns es end (tt, tt))

    json_items-Returns :
        (vs : JsonItems n.Number) → Returns ItemsDistinct (json_items n converts vs)
    json_items-Returns JsonItems.no_items = tt
    json_items-Returns (JsonItems.item v vs) =
        Returns-bind _ _ (serde_json_val_to_c5_value n converts v) (json-Returns v) (λ r h.
          Returns-bind _ _ (json_items n converts vs) (json_items-Returns vs) (λ rs hs. (h, hs)))

    members-Returns :
        (es : JsonMembers n.Number) (m : Fields)
        → IsDistinct (map m)
        → ReturnsMap (json_members n converts es m)
    members-Returns no_members m h = h
    members-Returns (member k v es) m h =
        Returns-bind _ _ (serde_json_val_to_c5_value n converts v) (json-Returns v)
          (λ r hr. members-Returns es (ValueMap.insert k r m) (insert-IsDistinct k r m hr h))

  -- Every JSON document is turned into a value, without a panic, and no map of the value, inside
  -- arrays too, has a key twice.
  pub serde_json_val_to_c5_value-IsDistinct :
      (v : JsonValue n.Number)
      → (w : C5DataValue) × (serde_json_val_to_c5_value n converts v ≡ returned w) × IsDistinct w
  serde_json_val_to_c5_value-IsDistinct v =
      Returns-result IsDistinct (serde_json_val_to_c5_value n converts v) (json-Returns v)
