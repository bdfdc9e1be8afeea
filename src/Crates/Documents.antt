-- ===== src/Crates/Documents.antt =====
-- The documents of the `serde_yaml` and `serde_json` crates, as far as the program reads them: the
-- variants of `Value` that it matches on, and the methods of `Number` that it calls.
use c5store.Base.{ℕ, ◌<◌, ◌≡◌, Bool, true, false, Option, some, is_some}
use c5store.Base.Int.{ℤ, pos, negsuc}
use c5store.Text.{Str}
use c5store.Value.Casts.{i64_bound}

-- `Number`, with its conversions from Rust's numbers. An `f64` is its bit pattern.
pub record Numbers : Type 1 where
  pub Number : Type 0
  pub is_f64 : Number → Bool
  pub is_u64 : Number → Bool
  pub is_i64 : Number → Bool
  pub as_f64 : Number → Option ℕ
  pub as_u64 : Number → Option ℕ
  pub as_i64 : Number → Option ℤ
  pub to_string : Number → Str
  pub from_f64 : ℕ → Number
  pub from_u64 : ℕ → Number
  pub from_i64 : ℤ → Number

-- Each test guarantees its accessor, a number passes one of the tests, and what is made from one of
-- Rust's numbers is read back: a negative one as an `i64` alone, any other integer as a `u64`, and
-- as an `i64` too where it is in the range.
pub record IsLawful (n : Numbers) : Type 0 where
  pub f64_there : (v : n.Number) → n.is_f64 v ≡ true → is_some (n.as_f64 v) ≡ true
  pub u64_there : (v : n.Number) → n.is_u64 v ≡ true → is_some (n.as_u64 v) ≡ true
  pub i64_there : (v : n.Number) → n.is_i64 v ≡ true → is_some (n.as_i64 v) ≡ true
  pub one_kind : (v : n.Number) → n.is_f64 v ≡ false → n.is_u64 v ≡ false → n.is_i64 v ≡ true
  pub of_f64 : (b : ℕ) → (n.is_f64 (n.from_f64 b) ≡ true) × (n.as_f64 (n.from_f64 b) ≡ some b)
  pub of_u64 :
      (a : ℕ)
      → (n.is_f64 (n.from_u64 a) ≡ false)
        × (n.is_u64 (n.from_u64 a) ≡ true)
        × (n.as_u64 (n.from_u64 a) ≡ some a)
  pub of_small :
      (a : ℕ)
      → a < i64_bound
      → (n.is_i64 (n.from_u64 a) ≡ true) × (n.as_i64 (n.from_u64 a) ≡ some (pos a))
  pub of_negative :
      (a : ℕ)
      → (n.is_f64 (n.from_i64 (negsuc a)) ≡ false)
        × (n.is_u64 (n.from_i64 (negsuc a)) ≡ false)
        × (n.is_i64 (n.from_i64 (negsuc a)) ≡ true)
        × (n.as_i64 (n.from_i64 (negsuc a)) ≡ some (negsuc a))

-- `serde_yaml::Value`. The entries of a mapping are listed in the order in which the `HashMap` made
-- of it happens to be iterated.
mutual
  pub data YamlValue (N : Type 0) : Type 0 where
    null : YamlValue N
    bool : Bool → YamlValue N
    number : N → YamlValue N
    string : Str → YamlValue N
    sequence : YamlItems N → YamlValue N
    mapping : YamlEntries N → YamlValue N

  pub data YamlItems (N : Type 0) : Type 0 where
    no_items : YamlItems N
    item : YamlValue N → YamlItems N → YamlItems N

  pub data YamlEntries (N : Type 0) : Type 0 where
    no_entries : YamlEntries N
    entry : YamlValue N → YamlValue N → YamlEntries N → YamlEntries N

-- `serde_json::Value`, with the members of an object in the same way.
mutual
  pub data JsonValue (N : Type 0) : Type 0 where
    null : JsonValue N
    bool : Bool → JsonValue N
    number : N → JsonValue N
    string : Str → JsonValue N
    array : JsonItems N → JsonValue N
    object : JsonMembers N → JsonValue N

  pub data JsonItems (N : Type 0) : Type 0 where
    no_items : JsonItems N
    item : JsonValue N → JsonItems N → JsonItems N

  pub data JsonMembers (N : Type 0) : Type 0 where
    no_members : JsonMembers N
    member : Str → JsonValue N → JsonMembers N → JsonMembers N
