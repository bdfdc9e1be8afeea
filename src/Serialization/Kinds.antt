-- ===== src/Serialization/Kinds.antt =====
-- The kinds of integers that the two formats are read as (c5store_rust/src/serialization.rs).
use c5store.Base.{ℕ, ◌<◌, ◌≡◌, refl, Bool, returned, ok, err, arith}
use c5store.Base.Int.{pos}
use c5store.Crates.Documents.{Numbers, IsLawful, YamlValue, YamlEntries, JsonValue, JsonMembers}
use c5store.Value.{integer, uinteger}
use c5store.Value.Casts.{i64_bound}
use c5store.Value.Convert.{try_into_i64}
use c5store.Serialization.{
  yaml_number, json_number, serde_yaml_val_to_c5_value, serde_json_val_to_c5_value,
}

-- A natural number that an i64 can hold becomes a UInteger in YAML, which is read back as an i64,
-- and an Integer in JSON, which is not.
pub natural_kinds :
    (y j : Numbers) (y_lawful : IsLawful y) (j_lawful : IsLawful j)
    (converts_y : YamlEntries y.Number → Bool) (converts_j : JsonMembers j.Number → Bool) (a : ℕ)
    → a < i64_bound
    → (serde_yaml_val_to_c5_value y converts_y (YamlValue.number (y.from_u64 a))
        ≡ returned (uinteger a))
      × (serde_json_val_to_c5_value j converts_j (JsonValue.number (j.from_u64 a))
          ≡ returned (integer (pos a)))
      × (try_into_i64 (uinteger a) ≡ ok (pos a))
      × (try_into_i64 (integer (pos a)) ≡ err tt)
unfolding serde_yaml_val_to_c5_value serde_json_val_to_c5_value yaml_number json_number try_into_i64
natural_kinds y j y_lawful j_lawful converts_y converts_j a small = (
  ground (arith, y_lawful.of_u64 a),
  ground (arith, j_lawful.of_u64 a, j_lawful.of_small a),
  ground arith,
  refl,
)
