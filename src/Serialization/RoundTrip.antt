-- ===== src/Serialization/RoundTrip.antt =====
-- YAML documents of values, and what reading them gives (c5store_rust/src/serialization.rs).
use c5store.Base.{Bool, true, ◌≡◌, refl, ap, sym, ◌∙◌, returned, arith}
use c5store.Base.Int.{pos, negsuc}
use c5store.Crates.Documents.{
  Numbers, IsLawful, YamlValue, YamlItems, YamlEntries, no_entries, entry,
}
use c5store.Value.{
  C5DataValue, null, bytes, boolean, integer, uinteger, float, string, array, map, Items, nil, cons,
  Fields, end, field,
}
use c5store.Value.Map as ValueMap
use c5store.Value.Append.{append, append_end, append_assoc, insert_new, lookup_before}
use c5store.Serialization.{
  yaml_number, final_key, serde_yaml_val_to_c5_value, yaml_items, yaml_entries,
}

-- The value has a document that is read as it: it holds no bytes, its `Integer`s are negative, and no
-- map of it has a key twice.
abbrev mutual
  pub IsWritable : C5DataValue → Type 0
  IsWritable (bytes b) = ⊥
  IsWritable (integer (pos a)) = ⊥
  IsWritable (array vs) = AreWritable vs
  IsWritable (map m) = ValueMap.HasDistinctKeys m × AreWritableFields m
  IsWritable _ = Unit

  pub AreWritable : Items → Type 0
  AreWritable nil = Unit
  AreWritable (cons v vs) = IsWritable v × AreWritable vs

  pub AreWritableFields : Fields → Type 0
  AreWritableFields end = Unit
  AreWritableFields (field k v m) = IsWritable v × AreWritableFields m

module _ (n : Numbers) where
  -- The document of a value. Bytes have none.
  abbrev mutual
    pub to_yaml : C5DataValue → YamlValue n.Number
    to_yaml null = YamlValue.null
    to_yaml (bytes b) = YamlValue.null
    to_yaml (boolean b) = YamlValue.bool b
    to_yaml (integer z) = YamlValue.number (n.from_i64 z)
    to_yaml (uinteger a) = YamlValue.number (n.from_u64 a)
    to_yaml (float b) = YamlValue.number (n.from_f64 b)
    to_yaml (string s) = YamlValue.string s
    to_yaml (array vs) = YamlValue.sequence (to_yaml_items vs)
    to_yaml (map m) = YamlValue.mapping (to_yaml_entries m)

    pub to_yaml_items : Items → YamlItems n.Number
    to_yaml_items nil = YamlItems.no_items
    to_yaml_items (cons v vs) = YamlItems.item (to_yaml v) (to_yaml_items vs)

    pub to_yaml_entries : Fields → YamlEntries n.Number
    to_yaml_entries end = no_entries
    to_yaml_entries (field k v m) = entry (YamlValue.string k) (to_yaml v) (to_yaml_entries m)

module _ (n : Numbers) (lawful : IsLawful n) (converts : YamlEntries n.Number → Bool)
    (all_convert : (es : YamlEntries n.Number) → converts es ≡ true) where
  mutual
    unfolding serde_yaml_val_to_c5_value yaml_items yaml_entries yaml_number final_key

    read_back :
        (v : C5DataValue)
        → IsWritable v
        → serde_yaml_val_to_c5_value n converts (to_yaml n v) ≡ returned v
    read_back null w = refl
    read_back (bytes b) w = elim w [ ]
    read_back (boolean b) w = refl
    read_back (integer (pos a)) w = elim w [ ]
    read_back (integer (negsuc a)) w = ground (arith, lawful.of_negative a)
    read_back (uinteger a) w = ground (arith, lawful.of_u64 a)
    read_back (float b) w = ground (arith, lawful.of_f64 b)
    read_back (string s) w = refl
    read_back (array vs) w = rw (read_items vs w)
    read_back (map m) w = rw (all_convert (to_yaml_entries n m)) (rw (read_entries m end w.0 w.1))

    read_items :
        (vs : Items) → AreWritable vs → yaml_items n converts (to_yaml_items n vs) ≡ returned vs
    read_items nil w = refl
    read_items (cons v vs) w = rw (read_back v w.0) (rw (read_items vs w.1))

    read_entries :
        (m acc : Fields)
        → ValueMap.HasDistinctKeys (append acc m)
        → AreWritableFields m
        → yaml_entries n converts (to_yaml_entries n m) acc ≡ returned (append acc m)
    read_entries end acc d w = ap returned (sym (append_end acc))
    read_entries (field k v m) acc d w =
        let whole = append_assoc acc (field k v end) m in
        rw (read_back v w.0) (
          rw (insert_new k v acc (lookup_before k v acc m d))
            (read_entries m (append acc (field k v end)) (rw whole d) w.1 ∙ ap returned whole))

  -- A value without bytes, with no `Integer` that is not negative and no key twice in a map, is what
  -- its YAML document is turned into, if every mapping can be made a `HashMap`.
  pub serde_yaml_val_to_c5_value-to_yaml :
      (v : C5DataValue)
      → IsWritable v
      → serde_yaml_val_to_c5_value n converts (to_yaml n v) ≡ returned v
  serde_yaml_val_to_c5_value-to_yaml v w = read_back v w
