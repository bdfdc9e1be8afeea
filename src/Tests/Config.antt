-- ===== src/Tests/Config.antt =====
-- Runs of the merge of configuration files and of the walks that flatten them.
use c5store.Base.{arith, ◌≡◌, refl, none, List, [], ◌∷◌}
use c5store.Text.{Str, str_eq, bytes_of}
use c5store.Value.{C5DataValue, uinteger, string, map, Fields, end, field}
use c5store.Value.Map as ValueMap
use c5store.Value.Path.{value_at, IsWellFormed}
use c5store.Merge.{merge}
use c5store.Flatten.{join_keypath, build_flat_map, take_provided, with_place}
use c5store.Fixtures.Listeners.{by_function, by_function-IsLawful}
use c5store.Flatten.Sections.{sections, sections_for, with_more, get_vec-take_provided}
use c5store.Flatten.Leaves.{dotted, LeafIn}
use c5store.Flatten.Walks.{take_provided-build_flat_map}
use c5store.Flatten.Reads.{flat_sound}
use c5store.Providers.Sections.{HasSchema, take_provided-HasSchema}

abbrev pub one : C5DataValue
one = uinteger 1

abbrev pub two : C5DataValue
two = uinteger 2

abbrev pub a : Str
a = bytes_of "a"

abbrev pub b : Str
b = bytes_of "b"

abbrev c : Str
c = bytes_of "c"

computes : Unit {0}
unfolding str_eq join_keypath value_at ValueMap.lookup ValueMap.insert ValueMap.contains_key
    ValueMap.len merge build_flat_map take_provided with_place
computes = tt

-- Two files: `a: { b: 1 }` and `a: { b: 2, c: 1 }`.
abbrev base : Fields
base = field a (map (field b one end)) end

abbrev local : Fields
local = field a (map (field b two (field c one end))) end

base_ok : IsWellFormed (map base)
unfolding computes
base_ok = ((refl, tt), (((refl, tt), (tt, tt)), tt))

local_ok : IsWellFormed (map local)
unfolding computes
local_ok = ((refl, tt), (((refl, (refl, tt)), (tt, (tt, tt))), tt))

flat_sound_example : (ks : List Str) × (bytes_of "a.b" ≡ dotted [] ks) × LeafIn ks local two
unfolding computes
flat_sound_example = flat_sound local [] (bytes_of "a.b") two local_ok refl

abbrev pub single : Fields
single = field a one end

pub only_leaf :
    (js : List Str) (other : C5DataValue)
    → LeafIn js single other
    → dotted [] (a ∷ []) ≡ dotted [] js
    → other ≡ one
unfolding ValueMap.lookup
only_leaf [] other h e = elim h [ ]
only_leaf (k ∷ []) other (u, e, h) eq = ground arith
only_leaf (k ∷ j ∷ js) other (u, e, h) eq = let q : u ≡ one = ground arith in elim (rw q at h) [ ]

-- Below a key path, too.
pub only_leaf_below :
    (js : List Str) (other : C5DataValue)
    → LeafIn js single other
    → dotted (bytes_of "k") (a ∷ []) ≡ dotted (bytes_of "k") js
    → other ≡ one
unfolding ValueMap.lookup
only_leaf_below [] other h e = elim h [ ]
only_leaf_below (k ∷ []) other (u, e, h) eq = ground arith
only_leaf_below (k ∷ j ∷ js) other (u, e, h) eq =
    let q : u ≡ one = ground arith in elim (rw q at h) [ ]

take_provided-build_flat_map_example :
    (take_provided (λ name value l. name ∷ l) local end [] []).1 ≡ (build_flat_map local end []).1
take_provided-build_flat_map_example =
    take_provided-build_flat_map (λ name value l. name ∷ l) local end [] []

flat_local :
    (build_flat_map local end []).1 ≡ field (bytes_of "a.b") two (field (bytes_of "a.c") one end)
unfolding computes
flat_local = refl

-- `a: { .provider: "resources", path: "x" }`
abbrev section : Fields
section =
    field (bytes_of ".provider") (string (bytes_of "resources"))
      (field (bytes_of "path") (string (bytes_of "x")) end)

abbrev AllHaveSchema : List (Str × C5DataValue) → Type 0
AllHaveSchema [] = Unit
AllHaveSchema ((name, value) ∷ l) = HasSchema name value × AllHaveSchema l

abbrev pub push : Str → C5DataValue → List (Str × C5DataValue) → List (Str × C5DataValue)
push name value l = (name, value) ∷ l

take_provided-HasSchema_example :
    AllHaveSchema (take_provided push (field a (map section) end) end [] []).2
take_provided-HasSchema_example =
    take_provided-HasSchema push AllHaveSchema (λ name value q h i. (h, i))
      (field a (map section) end) end [] [] tt

get_vec-take_provided_example :
    (by_function C5DataValue).get_vec
      (bytes_of "resources")
      (take_provided
        (by_function C5DataValue).insert
        (field a (map section) end)
        end
        (by_function C5DataValue).new
        []).2
    ≡ with_more none (sections_for (bytes_of "resources") (sections [] (field a (map section) end)))
get_vec-take_provided_example =
    get_vec-take_provided (by_function C5DataValue) (by_function-IsLawful C5DataValue)
      (bytes_of "resources") (field a (map section) end) end []
