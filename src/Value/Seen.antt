-- ===== src/Value/Seen.antt =====
-- What is seen of a nested map along a path of keys: a `HashMap` shows that much whatever the order of
-- its iteration.
use c5store.Base.{◌≡◌, Option, none, some, List}
use c5store.Text.{Str}
use c5store.Value.{C5DataValue, map, Fields}
use c5store.Value.Path.{value_at}

-- Nothing, a map that the path may lead further into, or a value that is none.
pub data Seen : Type 0 where
  nothing : Seen
  a_map : Seen
  leaf : C5DataValue → Seen

abbrev pub seen_of : Option C5DataValue → Seen
seen_of none = nothing
seen_of (some (map m)) = a_map
seen_of (some v) = leaf v

abbrev pub seen : List Str → C5DataValue → Seen
seen ks v = seen_of (value_at ks v)

-- The same is seen of both along every path.
abbrev pub SameMap : Fields → Fields → Type 0
SameMap m m' = (ks : List Str) → seen ks (map m) ≡ seen ks (map m')

C5DataValue-set : IsSet C5DataValue
C5DataValue-set = hlevel

pub Seen-set : IsSet Seen
Seen-set = hlevel
