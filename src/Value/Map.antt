-- ===== src/Value/Map.antt =====
-- `HashMap<String, C5DataValue>` of value.rs, util.rs and lib.rs: the standard library's map, with
-- string keys and configuration values.
use c5store.Base.{
  ℕ, suc, Bool, ◌≡◌, refl, Option, true, false, none, some, arith, ◌==◌, eq_iff, eq_refl, is_some,
  if◌then◌else◌,
}
use c5store.Text.{Str, str_eq}
use c5store.Value.{C5DataValue, Fields, end, field}

unfoldable pub lookup : Str → Fields → Option C5DataValue
lookup k end = none
lookup k (field j v m) = if j == k then some v else lookup k m

unfoldable pub insert : Str → C5DataValue → Fields → Fields
insert k v end = field k v end
insert k v (field j w m) = if j == k then field j v m else field j w (insert k v m)

unfoldable pub contains_key : Str → Fields → Bool
contains_key k m = is_some (lookup k m)

unfoldable pub len : Fields → ℕ
len end = 0
len (field k v m) = suc (len m)

-- `insert` is an update at one key.
pub lookup-insert :
    (k j : Str) (v : C5DataValue) (m : Fields)
    → lookup j (insert k v m) ≡ (if k == j then some v else lookup j m)
unfolding lookup insert
lookup-insert k j v end = refl
lookup-insert k j v (field i w m) =
    ground (arith, eq_iff k j, eq_iff i k, eq_iff i j, lookup-insert k j v m)

-- No key stands twice.
abbrev pub HasDistinctKeys : Fields → Type 0
HasDistinctKeys end = Unit
HasDistinctKeys (field j v m) = (lookup j m ≡ none) × HasDistinctKeys m

pub insert-HasDistinctKeys :
    (k : Str) (v : C5DataValue) (m : Fields) → HasDistinctKeys m → HasDistinctKeys (insert k v m)
unfolding lookup insert
insert-HasDistinctKeys k v end d = (refl, tt)
insert-HasDistinctKeys k v (field i w m) d =
    ground (arith, eq_iff i k, eq_iff k i, lookup-insert k i v m, insert-HasDistinctKeys k v m)

pub lookup-field_self : (k : Str) (v : C5DataValue) (m : Fields) → lookup k (field k v m) ≡ some v
unfolding lookup
lookup-field_self k v m = rw (eq_refl k)

pub lookup-end : (k : Str) {v : C5DataValue} → lookup k end ≡ some v → ⊥
unfolding lookup
lookup-end k h = cc

-- The entry in front, and the entries behind it.
pub lookup-field_head :
    (j k : Str) (v u : C5DataValue) (m : Fields)
    → (j == k) ≡ true
    → lookup k (field j v m) ≡ some u
    → (j ≡ k) × (v ≡ u)
unfolding lookup
lookup-field_head j k v u m t h = ((eq_iff j k).0 t, ground arith)

pub lookup-field_tail :
    (j k : Str) (v u : C5DataValue) (m : Fields)
    → (j == k) ≡ false
    → lookup k (field j v m) ≡ some u
    → lookup k m ≡ some u
unfolding lookup
lookup-field_tail j k v u m t h = ground arith
