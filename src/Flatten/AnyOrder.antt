-- ===== src/Flatten/AnyOrder.antt =====
-- The flat configuration of maps that differ in the order of their iteration alone
-- (`build_flat_map` of c5store_rust/src/util.rs).
use c5store.Base.{
  ◌≡◌, refl, sym, ◌∙◌, ap, Option, Option-cases, inl, inr, false, none, some, List, [], ◌∷◌,
}
use c5store.Text.{Str}
use c5store.Value.{C5DataValue, map, Fields, end}
use c5store.Value.Map as ValueMap
use c5store.Value.Path.{is_map, value_at, IsWellFormed}
use c5store.Value.Seen.{nothing, a_map, leaf, seen_of, seen, SameMap}
use c5store.Flatten.{build_flat_map, config_key_provider}
use c5store.Flatten.Leaves.{dotted, LeafAt, LeafIn}
use c5store.Flatten.Reads.{flat_sound, flat_complete}

-- The same is seen of both values along every path.
abbrev SameValue : C5DataValue → C5DataValue → Type 0
SameValue v v' = (ks : List Str) → seen ks v ≡ seen ks v'

seen_of-leaf : (v : C5DataValue) → is_map v ≡ false → seen_of (some v) ≡ leaf v
seen_of-leaf (map m) h = cc
seen_of-leaf v h = refl

leaf_of_seen : (v v' : C5DataValue) → seen_of (some v') ≡ leaf v → (is_map v' ≡ false) × (v' ≡ v)
leaf_of_seen v (map m) h = cc
leaf_of_seen v v' h = (refl, cc)

map_of_seen : (v : C5DataValue) → seen_of (some v) ≡ a_map → (m : Fields) × (v ≡ map m)
map_of_seen (map m) h = (m, refl)
map_of_seen v h = cc

nothing_of_seen : (o : Option C5DataValue) → seen_of o ≡ nothing → o ≡ none
nothing_of_seen none h = refl
nothing_of_seen (some (map m)) h = cc
nothing_of_seen (some v) h = cc

some_of_seen :
    (o : Option C5DataValue) (v : C5DataValue)
    → seen_of o ≡ seen_of (some v)
    → (v' : C5DataValue) × (o ≡ some v')
some_of_seen none (map m) h = cc
some_of_seen none v h = cc
some_of_seen (some v') v h = (v', refl)

seen_at_key : (k : Str) (m : Fields) → seen (k ∷ []) (map m) ≡ seen_of (ValueMap.lookup k m)
unfolding value_at
seen_at_key k m = elim (Option-cases (ValueMap.lookup k m)) [
  | inl e ↦ rw e refl
  | inr (v, e) ↦ rw e refl
]

lookup-SameMap :
    (k : Str) (m m' : Fields) (u : C5DataValue)
    → SameMap m m'
    → ValueMap.lookup k m ≡ some u
    → (u' : C5DataValue) × (ValueMap.lookup k m' ≡ some u') × SameValue u u'
unfolding value_at
lookup-SameMap k m m' u same e =
    let (u', e') =
      some_of_seen (ValueMap.lookup k m') u
        (sym (seen_at_key k m') ∙ sym (same (k ∷ [])) ∙ seen_at_key k m ∙ ap seen_of e) in
    (u', e', λ ks. rw (e, e') at (same (k ∷ ks)))

contains_key-SameMap :
    (k : Str) (m m' : Fields)
    → SameMap m m'
    → ValueMap.contains_key k m ≡ false
    → ValueMap.contains_key k m' ≡ false
unfolding ValueMap.contains_key
contains_key-SameMap k m m' same h = elim (Option-cases (ValueMap.lookup k m')) [
  | inl e ↦ rw e refl
  | inr (u, e) ↦
      let (u', e', s) = lookup-SameMap k m' m u (λ ks. sym (same ks)) e in
      let clash = rw e' at h in cc
]

LeafAt-SameValue :
    (ks : List Str) (v v' l : C5DataValue) → SameValue v v' → LeafAt ks v l → LeafAt ks v' l
unfolding value_at
LeafAt-SameValue [] v v' l same h =
    let (scalar, e) = leaf_of_seen v v' (sym (same []) ∙ seen_of-leaf v h.0) in (scalar, e ∙ h.1)
LeafAt-SameValue (k ∷ ks) (map m) v' l same (open_map, (u, e, h)) =
    let (m', ev) = map_of_seen v' (sym (same [])) in
    let same_map : SameMap m m' = λ js. same js ∙ ap (seen js) ev in
    let (u', e', s) = lookup-SameMap k m m' u same_map e in
    rw ev (
      contains_key-SameMap config_key_provider m m' same_map open_map,
      (u', e', LeafAt-SameValue ks u u' l s h),
    )
LeafAt-SameValue (k ∷ ks) v v' l same h = elim h [ ]

-- A leaf of the one map is a leaf of the other, along the same keys.
pub LeafIn-SameMap :
    (ks : List Str) (m m' : Fields) (l : C5DataValue)
    → SameMap m m'
    → LeafIn ks m l
    → LeafIn ks m' l
LeafIn-SameMap [] m m' l same h = elim h [ ]
LeafIn-SameMap (k ∷ ks) m m' l same (u, e, h) =
    let (u', e', s) = lookup-SameMap k m m' u same e in (u', e', LeafAt-SameValue ks u u' l s h)

-- No two leaves of the map have one dotted path, unless they have the same value.
abbrev pub HasDistinctPaths : Str → Fields → Type 0
HasDistinctPaths keypath m =
    (ks js : List Str) (l other : C5DataValue)
    → LeafIn ks m l
    → LeafIn js m other
    → dotted keypath ks ≡ dotted keypath js
    → other ≡ l

pub HasDistinctPaths-SameMap :
    (keypath : Str) (m m' : Fields)
    → SameMap m m'
    → HasDistinctPaths keypath m
    → HasDistinctPaths keypath m'
HasDistinctPaths-SameMap keypath m m' same d ks js l other h h' =
    let back : SameMap m' m = λ p. sym (same p) in
    d ks js l other (LeafIn-SameMap ks m' m l back h) (LeafIn-SameMap js m' m other back h')

lookup-build_flat_map :
    (m m' : Fields) (keypath p : Str) (l : C5DataValue)
    → IsWellFormed (map m)
    → IsWellFormed (map m')
    → SameMap m m'
    → HasDistinctPaths keypath m'
    → ValueMap.lookup p (build_flat_map m end keypath).1 ≡ some l
    → ValueMap.lookup p (build_flat_map m' end keypath).1 ≡ some l
lookup-build_flat_map m m' keypath p l w w' same d e =
    let (ks, ep, h) = flat_sound m keypath p l w e in
    let h' = LeafIn-SameMap ks m m' l same h in
    rw ep (flat_complete m' keypath ks l w' h' (λ js other. d ks js l other h'))

-- The flat configuration has the same value at every key path, whatever the order in which the maps
-- are walked, if they have no key twice and no two of the leaves have one dotted path.
pub build_flat_map-SameMap :
    (m m' : Fields) (keypath p : Str)
    → IsWellFormed (map m)
    → IsWellFormed (map m')
    → SameMap m m'
    → HasDistinctPaths keypath m
    → ValueMap.lookup p (build_flat_map m end keypath).1
      ≡ ValueMap.lookup p (build_flat_map m' end keypath).1
build_flat_map-SameMap m m' keypath p w w' same d =
    let flat = (build_flat_map m end keypath).1 in
    let flat' = (build_flat_map m' end keypath).1 in
    let back : SameMap m' m = λ ks. sym (same ks) in
    elim (Option-cases (ValueMap.lookup p flat)) [
      | inr (l, e) ↦
          e
          ∙ sym (
              lookup-build_flat_map m m' keypath p l w w' same
                (HasDistinctPaths-SameMap keypath m m' same d) e)
      | inl gone ↦ elim (Option-cases (ValueMap.lookup p flat')) [
        | inl gone' ↦ gone ∙ sym gone'
        | inr (l, e) ↦ let e' = lookup-build_flat_map m' m keypath p l w' w back d e in cc
      ]
    ]
