-- ===== src/Tests/AnyOrder.antt =====
-- Maps that are iterated in one order and in the other.
use c5store.Base.{
  ◌≡◌, refl, Bool-cases, inl, inr, false, Option, none, some, List, [], ◌∷◌, ◌==◌, eq_iff, arith,
  returned, if◌then◌else◌,
}
use c5store.Text.{Str, str_eq, bytes_of, starts_with, ends_with}
use c5store.Fixtures.Sorted.{find}
use c5store.Fixtures.Order.{lower, lex}
use c5store.Fixtures.Numbers.{kinds, kinds-IsLawful, natural}
use c5store.Crates.Documents.{YamlValue}
use c5store.Secrets as Secrets
use c5store.Secrets.Files.{load_secret_key_files}
use c5store.Value.{C5DataValue, map, Fields, end, field}
use c5store.Value.Map as ValueMap
use c5store.Value.Path.{is_map, value_at, IsWellFormed}
use c5store.Value.Seen.{seen, SameMap}
use c5store.Merge.{merge, merge_files}
use c5store.Merge.Overlay.{overlay_files, seen-merge_files}
use c5store.Merge.Config.{of_map, merge_configs, merge_configs_again}
use c5store.Serialization.{serde_yaml_val_to_c5_value, yaml_number}
use c5store.Flatten.{join_keypath, build_flat_map}
use c5store.Flatten.Leaves.{LeafAt}
use c5store.Flatten.AnyOrder.{HasDistinctPaths}
use c5store.Manager as Manager
use c5store.C5Store.{State, root_get}
use c5store.C5Store.ConfigFiles.{
  Document, IterationOrder, as_inserted, map_entries, map_from_serde_yaml_valuemap,
}
use c5store.C5Store.Create.{
  create_c5store_in, completed, default_options, default_secret_options, secret_keys,
}
use c5store.C5Store.SameFiles.{IsLawfulOrder, create_c5store_any_order}
use c5store.Tests.Common.{skip, skip-IsLawful, listeners, hash}
use c5store.Tests.Config.{a, b, one, two, single}
use mathlib.Core.Quot
use c5store.Tests.Create.{sections, converts, no_pem, paths}

-- `{ a: 1, b: 2 }` and `{ b: 2, a: 1 }`.
abbrev forth : Fields
forth = field a one (field b two end)

abbrev back : Fields
back = field b two (field a one end)

lookup_swapped : (k : Str) → ValueMap.lookup k forth ≡ ValueMap.lookup k back
unfolding ValueMap.lookup str_eq
lookup_swapped k = elim (Bool-cases (a == k)) [
  | inl here ↦ let e : a ≡ k = (eq_iff a k).0 here in rw (← e) refl
  | inr other ↦ rw other refl
]

swapped : SameMap forth back
unfolding value_at
swapped [] = refl
swapped (k ∷ ks) = rw (lookup_swapped k) refl

forth_ok : IsWellFormed (map forth)
unfolding ValueMap.lookup str_eq
forth_ok = ((refl, (refl, tt)), (tt, (tt, tt)))

back_ok : IsWellFormed (map back)
unfolding ValueMap.lookup str_eq
back_ok = ((refl, (refl, tt)), (tt, (tt, tt)))

single_ok : IsWellFormed (map single)
unfolding ValueMap.lookup
single_ok = ((refl, tt), (tt, tt))

forth_scalar : (k : Str) (u : C5DataValue) → ValueMap.lookup k forth ≡ some u → is_map u ≡ false
unfolding ValueMap.lookup
forth_scalar k u e = elim (Bool-cases (a == k)) [
  | inl at_a ↦ let q : one ≡ u = ground arith in rw (← q) refl
  | inr off_a ↦ elim (Bool-cases (b == k)) [
    | inl at_b ↦ let q : two ≡ u = ground arith in rw (← q) refl
    | inr off_b ↦ let clash : none ≡ some u = rw (off_a, off_b) at e in cc
  ]
]

-- Below a scalar there is nothing.
LeafAt-scalar :
    (ks : List Str) (u l : C5DataValue) → is_map u ≡ false → LeafAt ks u l → (ks ≡ []) × (u ≡ l)
LeafAt-scalar [] u l n h = (refl, h.1)
LeafAt-scalar (k ∷ ks) (map m) l n h = cc
LeafAt-scalar (k ∷ ks) u l n h = elim h [ ]

forth_distinct : HasDistinctPaths [] forth
unfolding join_keypath
forth_distinct [] js l other h h' e = elim h [ ]
forth_distinct (k ∷ ks) [] l other h h' e = elim h' [ ]
forth_distinct (k ∷ ks) (j ∷ js) l other (u, eu, h) (w, ew, h') e =
    let (nk, ul) = LeafAt-scalar ks u l (forth_scalar k u eu) h in
    let (nj, wo) = LeafAt-scalar js w other (forth_scalar j w ew) h' in
    let kj : k ≡ j = rw (nk, nj) at e in let again = rw kj at eu in cc

merge_configs_again_example :
    merge_configs
      (merge_configs (of_map (single, single_ok)) (of_map (back, back_ok)))
      (of_map (back, back_ok))
    ≡ merge_configs (of_map (single, single_ok)) (of_map (back, back_ok))
merge_configs_again_example =
    merge_configs_again (of_map (single, single_ok)) (of_map (back, back_ok))

seen-merge_files_example :
    seen (a ∷ []) (map (merge_files single (some forth ∷ none ∷ some back ∷ [])))
    ≡ overlay_files (λ js. seen js (map single)) (some forth ∷ none ∷ some back ∷ []) (a ∷ [])
seen-merge_files_example =
    seen-merge_files (some forth ∷ none ∷ some back ∷ []) single (a ∷ []) (forth_ok, (back_ok, tt))

-- In the quotient the two orders are one configuration.
one_config : of_map (forth, forth_ok) ≡ of_map (back, back_ok)
one_config = Quot.sound swapped

-- A run that comes to the second entry of a map before the first.
abbrev swap_two : Fields → Fields
swap_two (field k u (field j v m)) = field j v (field k u m)
swap_two m = m

abbrev swapping : IterationOrder
swapping = record { merged = swap_two; flat = swap_two }

lookup-swap_two :
    (m : Fields) (i : Str)
    → ValueMap.HasDistinctKeys m
    → ValueMap.lookup i m ≡ ValueMap.lookup i (swap_two m)
unfolding ValueMap.lookup
lookup-swap_two end i h = refl
lookup-swap_two (field k u end) i h = refl
lookup-swap_two (field k u (field j v m)) i h =
    ground (arith, eq_iff k i, eq_iff j i, eq_iff j k, h.0)

swap_two-HasDistinctKeys :
    (m : Fields) → ValueMap.HasDistinctKeys m → ValueMap.HasDistinctKeys (swap_two m)
unfolding ValueMap.lookup
swap_two-HasDistinctKeys end h = h
swap_two-HasDistinctKeys (field k u end) h = h
swap_two-HasDistinctKeys (field k u (field j v m)) h =
    (ground (arith, eq_iff k j, eq_iff j k, h.0, h.1.0), (ground (arith, h.0), h.1.1))

swap_two-IsWellFormed : (m : Fields) → IsWellFormed (map m) → IsWellFormed (map (swap_two m))
swap_two-IsWellFormed end h = h
swap_two-IsWellFormed (field k u end) h = h
swap_two-IsWellFormed (field k u (field j v m)) h =
    (swap_two-HasDistinctKeys (field k u (field j v m)) h.0, (h.1.1.0, (h.1.0, h.1.1.1)))

swap_two-SameMap : (m : Fields) → ValueMap.HasDistinctKeys m → SameMap m (swap_two m)
unfolding value_at
swap_two-SameMap m h [] = refl
swap_two-SameMap m h (k ∷ ks) = rw (lookup-swap_two m k h) refl

swapping-IsLawful : IsLawfulOrder swapping
swapping-IsLawful = record {
  merged_same = λ m h. swap_two-SameMap m h.0;
  merged_ok = swap_two-IsWellFormed;
  flat_same = λ m h k. lookup-swap_two m k h;
  flat_ok = swap_two-HasDistinctKeys;
}

as_inserted-IsLawful : IsLawfulOrder as_inserted
as_inserted-IsLawful = record {
  merged_same = λ m h ks. refl;
  merged_ok = λ m h. h;
  flat_same = λ m h k. refl;
  flat_ok = λ m h. h;
}

-- The file `y` is iterated in the one order, and in the other.
abbrev run : List (Str × YamlValue kinds.Number) → Str → Option (Document kinds converts)
run document path = if path == bytes_of "y" then some document else none

abbrev forth_run : Str → Option (Document kinds converts)
forth_run = run ((a, YamlValue.number (natural 1)) ∷ (b, YamlValue.number (natural 2)) ∷ [])

abbrev back_run : Str → Option (Document kinds converts)
back_run = run ((b, YamlValue.number (natural 2)) ∷ (a, YamlValue.number (natural 1)) ∷ [])

create_c5store_any_order_example :
    (t : State skip hash listeners) × (t' : State skip hash listeners) × (provided : sections.Map)
    × (provided' : sections.Map) × (create_c5store_in skip hash listeners sections kinds converts
          no_pem forth_run as_inserted paths none
        ≡ returned (t, Manager.new provided))
    × (create_c5store_in skip hash listeners sections kinds converts no_pem back_run swapping paths
          none
        ≡ returned (t', Manager.new provided'))
    × ((key : Str) → root_get skip hash listeners t key ≡ root_get skip hash listeners t' key)
unfolding str_eq ends_with ValueMap.lookup ValueMap.insert merge_files merge build_flat_map
    join_keypath completed default_options default_secret_options secret_keys load_secret_key_files
    map_from_serde_yaml_valuemap map_entries serde_yaml_val_to_c5_value yaml_number starts_with
    lower lex find
create_c5store_any_order_example =
    create_c5store_any_order skip skip-IsLawful hash listeners sections kinds kinds-IsLawful
      converts no_pem as_inserted swapping forth_run back_run paths none Secrets.new
      (bytes_of ".c5encval") (none ∷ some forth ∷ []) (none ∷ some back ∷ []) as_inserted-IsLawful
      swapping-IsLawful refl refl (refl, tt) (refl, tt) (swapped, tt) forth_distinct
      (refl, (refl, tt), (refl, tt, tt))

-- Two leaves with the dotted path `a.b`: of the two the one that is walked last is read.
abbrev dotted_last : Fields
dotted_last = field a (map (field b two end)) (field (bytes_of "a.b") one end)

abbrev nested_last : Fields
nested_last = field (bytes_of "a.b") one (field a (map (field b two end)) end)

last_walked :
    (ValueMap.lookup (bytes_of "a.b") (build_flat_map dotted_last end []).1 ≡ some one)
    × (ValueMap.lookup (bytes_of "a.b") (build_flat_map nested_last end []).1 ≡ some two)
unfolding str_eq ValueMap.lookup ValueMap.insert ValueMap.contains_key build_flat_map join_keypath
last_walked = (refl, refl)
