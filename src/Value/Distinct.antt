-- ===== src/Value/Distinct.antt =====
-- Values of c5store_rust/src/value.rs without a key that stands twice in a map, at any depth: such are
-- the values of the source, whose maps are `HashMap`s.
use c5store.Base.{arith}
use c5store.Text.{Str}
use c5store.Value.{C5DataValue, array, Items, nil, cons, map, Fields, end, field}
use c5store.Value.Map as ValueMap
use c5store.Value.Path.{IsWellFormed, AreWellFormed}

-- No map of the value has a key twice, those inside its arrays included.
abbrev mutual
  pub IsDistinct : C5DataValue → Type 0
  IsDistinct (map m) = ValueMap.HasDistinctKeys m × AreDistinct m
  IsDistinct (array items) = ItemsDistinct items
  IsDistinct _ = Unit

  pub AreDistinct : Fields → Type 0
  AreDistinct end = Unit
  AreDistinct (field k v m) = IsDistinct v × AreDistinct m

  pub ItemsDistinct : Items → Type 0
  ItemsDistinct nil = Unit
  ItemsDistinct (cons v items) = IsDistinct v × ItemsDistinct items

pub AreDistinct-insert :
    (k : Str) (v : C5DataValue) (m : Fields)
    → IsDistinct v
    → AreDistinct m
    → AreDistinct (ValueMap.insert k v m)
unfolding ValueMap.insert
AreDistinct-insert k v end hv h = (hv, tt)
AreDistinct-insert k v (field j w m) hv h = ground (arith, AreDistinct-insert k v m hv h.1)

mutual
  pub IsDistinct-IsWellFormed : (v : C5DataValue) → IsDistinct v → IsWellFormed v
  IsDistinct-IsWellFormed (map m) h = (h.0, AreDistinct-AreWellFormed m h.1)
  IsDistinct-IsWellFormed _ h = tt

  pub AreDistinct-AreWellFormed : (m : Fields) → AreDistinct m → AreWellFormed m
  AreDistinct-AreWellFormed end h = tt
  AreDistinct-AreWellFormed (field k v m) h =
      (IsDistinct-IsWellFormed v h.0, AreDistinct-AreWellFormed m h.1)
