-- ===== src/Value/Append.antt =====
-- The entries of one map behind those of another: what inserting new keys one by one leaves.
use c5store.Base.{none, ◌≡◌, refl, ap, arith, eq_iff, eq_refl}
use c5store.Text.{Str, str_eq}
use c5store.Value.{C5DataValue, Fields, end, field}
use c5store.Value.Map.{lookup, insert, HasDistinctKeys}

abbrev pub append : Fields → Fields → Fields
append end m = m
append (field k v l) m = field k v (append l m)

pub append_end : (l : Fields) → append l end ≡ l
append_end end = refl
append_end (field k v l) = ap (field k v) (append_end l)

pub append_assoc : (l m r : Fields) → append (append l m) r ≡ append l (append m r)
append_assoc end m r = refl
append_assoc (field k v l) m r = ap (field k v) (append_assoc l m r)

-- A new key goes to the end.
pub insert_new :
    (k : Str) (v : C5DataValue) (l : Fields)
    → lookup k l ≡ none
    → insert k v l ≡ append l (field k v end)
unfolding lookup insert
insert_new k v end h = refl
insert_new k v (field j w l) h = ground (arith, insert_new k v l)

lookup_middle :
    (k : Str) (v : C5DataValue) (l m : Fields) → lookup k (append l (field k v m)) ≡ none → ⊥
unfolding lookup
lookup_middle k v end m h = ground (arith, eq_refl k)
lookup_middle k v (field j w l) m h = ground (arith, lookup_middle k v l m)

-- In a map with distinct keys a key does not stand before its entry.
pub lookup_before :
    (k : Str) (v : C5DataValue) (l m : Fields)
    → HasDistinctKeys (append l (field k v m))
    → lookup k l ≡ none
unfolding lookup
lookup_before k v end m h = refl
lookup_before k v (field j w l) m h =
    ground (arith, eq_iff j k, lookup_middle k v l m, lookup_before k v l m)
