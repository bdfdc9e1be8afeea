-- ===== src/Flatten/Reads.antt =====
-- What the flat configuration of `build_flat_map` (c5store_rust/src/util.rs) has at a key path.
use c5store.Base.{
  ◌≡◌, refl, ap, sym, ◌⊎◌, inl, inr, Bool-cases, some, List, [], ◌∷◌, ◌==◌, In, arith, eq_iff,
  eq_refl,
}
use c5store.Text.{Str, str_eq}
use c5store.Value.{C5DataValue, map, Fields, end}
use c5store.Value.Map as ValueMap
use c5store.Value.Path.{IsWellFormed}
use c5store.Flatten.{build_flat_map}
use c5store.Flatten.Leaves.{leaves, insert_all, dotted, LeafIn, leaves_exact}
use c5store.Flatten.Walks.{flat_walk}

insert_all_sound :
    (l : List (Str × C5DataValue)) (config : Fields) (p : Str) (v : C5DataValue)
    → ValueMap.lookup p (insert_all l config) ≡ some v
    → In (p, v) l ⊎ (ValueMap.lookup p config ≡ some v)
unfolding insert_all
insert_all_sound [] config p v h = inr h
insert_all_sound ((q, u) ∷ l) config p v h =
    elim (insert_all_sound l (ValueMap.insert q u config) p v h) [
      | inl later ↦ inl (inr later)
      | inr now ↦ elim (Bool-cases (q == p)) [
        | inl same ↦
            let eq : q ≡ p = (eq_iff q p).0 same in
            let ev : u ≡ v = ground (arith, ValueMap.lookup-insert q p u config) in
            inl (inl (λ i. (sym eq i, sym ev i)))
        | inr other ↦ inr (ground (arith, ValueMap.lookup-insert q p u config))
      ]
    ]

insert_all_keeps :
    (l : List (Str × C5DataValue)) (config : Fields) (p : Str) (v : C5DataValue)
    → ValueMap.lookup p config ≡ some v
    → (w : C5DataValue) × (ValueMap.lookup p (insert_all l config) ≡ some w)
unfolding insert_all
insert_all_keeps [] config p v h = (v, h)
insert_all_keeps ((q, u) ∷ l) config p v h = elim (Bool-cases (q == p)) [
  | inl same ↦
      insert_all_keeps l (ValueMap.insert q u config) p u
        (ground (arith, ValueMap.lookup-insert q p u config))
  | inr other ↦
      insert_all_keeps l (ValueMap.insert q u config) p v
        (ground (arith, ValueMap.lookup-insert q p u config))
]

insert_all_reaches :
    (l : List (Str × C5DataValue)) (config : Fields) (p : Str) (v : C5DataValue)
    → In (p, v) l
    → (w : C5DataValue) × (ValueMap.lookup p (insert_all l config) ≡ some w)
unfolding insert_all
insert_all_reaches [] config p v i = elim i [ ]
insert_all_reaches ((q, u) ∷ l) config p v (inl e) =
    insert_all_keeps l (ValueMap.insert q u config) p u (
      rw (ap (λ (x : Str × C5DataValue). x.0) e)
        (ground (arith, ValueMap.lookup-insert q q u config, eq_refl q)))
insert_all_reaches ((q, u) ∷ l) config p v (inr i) =
    insert_all_reaches l (ValueMap.insert q u config) p v i

-- Every entry of a flattened well-formed map is a leaf of the map, at the dotted path that leads to
-- the leaf.
pub flat_sound :
    (m : Fields) (keypath p : Str) (leaf : C5DataValue)
    → IsWellFormed (map m)
    → ValueMap.lookup p (build_flat_map m end keypath).1 ≡ some leaf
    → (ks : List Str) × (p ≡ dotted keypath ks) × LeafIn ks m leaf
flat_sound m keypath p leaf w h =
    elim (insert_all_sound (leaves keypath m) end p leaf (rw (flat_walk m end keypath) at h)) [
      | inl i ↦ (leaves_exact keypath p m leaf w).0 i
      | inr none_yet ↦ absurd (ValueMap.lookup-end p none_yet)
    ]

-- Every leaf of a well-formed map is read back from the flattened map at its dotted path, unless
-- another leaf has the same dotted path.
pub flat_complete :
    (m : Fields) (keypath : Str) (ks : List Str) (leaf : C5DataValue)
    → IsWellFormed (map m)
    → LeafIn ks m leaf
    → ((js : List Str) (other : C5DataValue)
        → LeafIn js m other
        → dotted keypath ks ≡ dotted keypath js
        → other ≡ leaf)
    → ValueMap.lookup (dotted keypath ks) (build_flat_map m end keypath).1 ≡ some leaf
flat_complete m keypath ks leaf w h unique =
    let p = dotted keypath ks in
    let i = (leaves_exact keypath p m leaf w).1 (ks, refl, h) in
    let (v, e) = insert_all_reaches (leaves keypath m) end p leaf i in
    let e' = rw (← flat_walk m end keypath) at e in
    let (js, eq, hj) = flat_sound m keypath p v w e' in rw (← unique js v hj eq) e'
