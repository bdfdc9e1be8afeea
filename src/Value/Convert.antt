-- ===== src/Value/Convert.antt =====
-- The `From` and `TryInto` impls of value.rs, by value and by reference: a reference is converted as
-- the value that it shows. The macros' impls are functions of the type that they are run at. What
-- an `as` cast does to an `f64` and an `f32` is left to the parameters `narrow` and `widen`.
use c5store.Base.{ℕ, Bool, List, [], ◌∷◌, Result, ok, err, if◌then◌else◌, leb, ◌-◌}
use c5store.Base.{Outcome, returned, ◌>>=◌, unwrap}
use c5store.Base.Int.{ℤ, pos, negsuc}
use c5store.Text.{Str}
use c5store.Value.{
  C5DataValue, null, bytes, boolean, integer, uinteger, float, string, array, map, Items, nil, cons,
  Fields,
}
use c5store.Value.Casts.{SignedType, UnsignedType, as_signed, as_unsigned, i64_bound}

-- `Result<A, ()>`
abbrev pub Try : Type 0 → Type 0
Try A = Result A (Unit {0})

abbrev pub from_unit : Unit {0} → C5DataValue
from_unit u = null

unfoldable pub try_into_unit : C5DataValue → Try (Unit {0})
try_into_unit null = ok tt
try_into_unit _ = err tt

abbrev pub from_bytes : List ℕ → C5DataValue
from_bytes value = bytes value

unfoldable pub try_into_bytes : C5DataValue → Try (List ℕ)
try_into_bytes (bytes value) = ok value
try_into_bytes _ = err tt

abbrev pub from_bool : Bool → C5DataValue
from_bool value = boolean value

unfoldable pub try_into_bool : C5DataValue → Try Bool
try_into_bool (boolean value) = ok value
try_into_bool _ = err tt

-- From `String`, `&str` and `Box<str>`
abbrev pub from_string : Str → C5DataValue
from_string value = string value

-- Into `String` and `Box<str>`
unfoldable pub try_into_string : C5DataValue → Try Str
try_into_string (string value) = ok value
try_into_string _ = err tt

abbrev pub from_i64 : ℤ → C5DataValue
from_i64 value = integer value

-- Only a `UInteger` is tried: `i64::MAX` is `i64_bound - 1`.
unfoldable pub try_into_i64 : C5DataValue → Try ℤ
try_into_i64 (uinteger u64_val) = if leb u64_val (i64_bound - 1) then ok (pos u64_val) else err tt
try_into_i64 _ = err tt

abbrev pub from_u64 : ℕ → C5DataValue
from_u64 value = uinteger value

unfoldable pub try_into_u64 : C5DataValue → Try ℕ
try_into_u64 (uinteger value) = ok value
try_into_u64 (integer (pos i64_val)) = ok i64_val
try_into_u64 (integer (negsuc i64_val)) = err tt
try_into_u64 _ = err tt

abbrev pub from_f64 : ℕ → C5DataValue
from_f64 value = float value

unfoldable pub try_into_f64 : C5DataValue → Try ℕ
try_into_f64 (float value) = ok value
try_into_f64 _ = err tt

abbrev pub from_vec : Items → C5DataValue
from_vec value = array value

unfoldable pub try_into_vec : C5DataValue → Try Items
try_into_vec (array value) = ok value
try_into_vec _ = err tt

abbrev pub from_hash_map : Fields → C5DataValue
from_hash_map value = map value

unfoldable pub try_into_hash_map : C5DataValue → Try Fields
try_into_hash_map (map value) = ok value
try_into_hash_map _ = err tt

-- `value as i64` widens, so the integer is the same.
abbrev pub from_signed : SignedType → ℤ → C5DataValue
from_signed ty value = integer value

unfoldable pub try_into_signed : SignedType → C5DataValue → Try ℤ
try_into_signed ty (integer value) = ok (as_signed ty value)
try_into_signed ty _ = err tt

abbrev pub from_unsigned : UnsignedType → ℕ → C5DataValue
from_unsigned ty value = uinteger value

unfoldable pub try_into_unsigned : UnsignedType → C5DataValue → Try ℕ
try_into_unsigned ty (uinteger value) = ok (as_unsigned ty value)
try_into_unsigned ty _ = err tt

abbrev pub from_f32 : (ℕ → ℕ) → ℕ → C5DataValue
from_f32 widen value = float (widen value)

unfoldable pub try_into_f32 : (ℕ → ℕ) → C5DataValue → Try ℕ
try_into_f32 narrow (float value) = ok (narrow value)
try_into_f32 narrow _ = err tt

-- `into_iter().map(|item| item.try_into().unwrap()).collect()`
unfoldable pub collect : {A : Type 0} → (C5DataValue → Try A) → Items → Outcome (List A)
collect f nil = returned []
collect f (cons item items) = do a ← unwrap (f item); rest ← collect f items; returned (a ∷ rest)

-- `TryInto<Vec<A>>`: an item of another kind is no error but a panic.
unfoldable pub try_into_vec_of :
    {A : Type 0} → (C5DataValue → Try A) → C5DataValue → Outcome (Try (List A))
try_into_vec_of f (array items) = do l ← collect f items; returned (ok l)
try_into_vec_of f _ = returned (err tt)

-- `to_vec_i8` and its like: the two `unwrap`s panic.
unfoldable pub to_vec : {A : Type 0} → (C5DataValue → Try A) → C5DataValue → Outcome (List A)
to_vec f value = do items ← unwrap (try_into_vec value); collect f items
