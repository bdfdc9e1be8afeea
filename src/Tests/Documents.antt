-- ===== src/Tests/Documents.antt =====
-- Runs of the conversions from documents to values.
use c5store.Base.{◌≡◌, refl, true, false, returned}
use c5store.Base.Int.{negsuc}
use c5store.Text.{str_eq, bytes_of}
use c5store.Crates.Documents.{
  YamlValue, YamlItems, no_entries, entry, JsonValue, no_members, member,
}
use c5store.Fixtures.Numbers.{kinds, kinds-IsLawful, Num, natural, negative}
use c5store.Value.{C5DataValue, integer, uinteger, array, map, nil, cons, end, field}
use c5store.Value.Map as ValueMap
use c5store.Value.Distinct.{IsDistinct}
use c5store.Serialization.{serde_yaml_val_to_c5_value, serde_json_val_to_c5_value}
use c5store.Serialization.WellFormed.{
  serde_yaml_val_to_c5_value-IsDistinct, serde_json_val_to_c5_value-IsDistinct,
}
use c5store.Serialization.RoundTrip.{to_yaml, serde_yaml_val_to_c5_value-to_yaml}

-- `{1: -1, "k": [{"k": true, "k": ~}], "k": ~}`
abbrev document : YamlValue Num
document = YamlValue.mapping (
    entry (YamlValue.number (natural 1)) (YamlValue.number (negative 0)) (
      entry (YamlValue.string (bytes_of "k"))
        (YamlValue.sequence (
          YamlItems.item
            (YamlValue.mapping (
              entry (YamlValue.string (bytes_of "k")) (YamlValue.bool true)
                (entry (YamlValue.string (bytes_of "k")) YamlValue.null no_entries)))
            YamlItems.no_items))
        (entry (YamlValue.string (bytes_of "k")) YamlValue.null no_entries)))

serde_yaml_val_to_c5_value-IsDistinct_example :
    (w : C5DataValue) × (serde_yaml_val_to_c5_value kinds (λ es. true) document ≡ returned w)
    × IsDistinct w
serde_yaml_val_to_c5_value-IsDistinct_example =
    serde_yaml_val_to_c5_value-IsDistinct kinds kinds-IsLawful (λ es. true) document

abbrev members : JsonValue Num
members = JsonValue.object (
    member (bytes_of "k") (JsonValue.number (natural 1))
      (member (bytes_of "k") (JsonValue.bool false) no_members))

serde_json_val_to_c5_value-IsDistinct_example :
    (w : C5DataValue) × (serde_json_val_to_c5_value kinds (λ es. true) members ≡ returned w)
    × IsDistinct w
serde_json_val_to_c5_value-IsDistinct_example =
    serde_json_val_to_c5_value-IsDistinct kinds kinds-IsLawful (λ es. true) members

-- `{"k": [-1, 2], "j": 0.5}`
abbrev written : C5DataValue
written = map (
    field (bytes_of "k") (array (cons (integer (negsuc 0)) (cons (uinteger 2) nil)))
      (field (bytes_of "j") (C5DataValue.float 7) end))

serde_yaml_val_to_c5_value-to_yaml_example :
    serde_yaml_val_to_c5_value kinds (λ es. true) (to_yaml kinds written) ≡ returned written
unfolding str_eq ValueMap.lookup
serde_yaml_val_to_c5_value-to_yaml_example =
    serde_yaml_val_to_c5_value-to_yaml kinds kinds-IsLawful (λ es. true) (λ es. refl) written
      ((refl, (refl, tt)), ((tt, (tt, tt)), (tt, tt)))
