-- ===== src/Value.antt =====
-- c5store_rust/src/value.rs: the values of a configuration.
pub mod Map
pub mod Append
pub mod Path
pub mod Distinct
pub mod Seen
pub mod Roundtrip
pub mod Equality
pub mod Convert
pub mod Casts
pub mod Bytes
use c5store.Base.{ℕ, Bool, List}
use c5store.Base.Int.{ℤ}
use c5store.Text.{Str}

-- `enum C5DataValue`. An `f64` is its bit pattern. `Items` is a `Vec<C5DataValue>`, `Fields` a
-- `HashMap<String, C5DataValue>` with the order in which it happens to be iterated.
mutual
  pub data C5DataValue : Type 0 where
    null : C5DataValue
    bytes : List ℕ → C5DataValue
    boolean : Bool → C5DataValue
    integer : ℤ → C5DataValue
    uinteger : ℕ → C5DataValue
    float : ℕ → C5DataValue
    string : Str → C5DataValue
    array : Items → C5DataValue
    map : Fields → C5DataValue

  pub data Items : Type 0 where
    nil : Items
    cons : C5DataValue → Items → Items

  pub data Fields : Type 0 where
    end : Fields
    field : Str → C5DataValue → Fields → Fields
