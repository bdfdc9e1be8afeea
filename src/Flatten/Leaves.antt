-- ===== src/Flatten/Leaves.antt =====
-- The leaves of a nested map with their dotted key paths, as a list: the description that the walks
-- are compared with.
use c5store.Base.{
  ◌≡◌, refl, arith, Bool-cases, some, none, inl, inr, ◌↔◌, In, In-append_cases, In-append_left,
  In-append_right, eq_iff, ap, sym, subst, false, List, [], ◌∷◌, ◌++◌, ◌==◌, if◌then◌else◌,
}
use c5store.Text.{Str, str_eq}
use c5store.Value.{C5DataValue, map, Fields, end, field}
use c5store.Value.Map as ValueMap
use c5store.Value.Path.{is_map, IsWellFormed}
use c5store.Flatten.{join_keypath, config_key_provider}

-- The sections of value providers are left out.
unfoldable mutual
  pub leaves : Str → Fields → List (Str × C5DataValue)
  leaves keypath end = []
  leaves keypath (field key value m) =
      leaves_of (join_keypath keypath key) value ++ leaves keypath m

  pub leaves_of : Str → C5DataValue → List (Str × C5DataValue)
  leaves_of path (map m) =
      let below = leaves path m in if ValueMap.contains_key config_key_provider m then [] else below
  leaves_of path value = (path, value) ∷ []

-- The entries written in turn: of two with one path the last stands.
unfoldable pub insert_all : List (Str × C5DataValue) → Fields → Fields
insert_all [] config = config
insert_all ((path, value) ∷ l) config = insert_all l (ValueMap.insert path value config)

-- The path of keys, dotted.
abbrev pub dotted : Str → List Str → Str
dotted keypath [] = keypath
dotted keypath (k ∷ ks) = dotted (join_keypath keypath k) ks

-- The keys lead from the value to the leaf, and through no section of a value provider.
abbrev pub LeafAt : List Str → C5DataValue → C5DataValue → Type 0
LeafAt [] v leaf = (is_map v ≡ false) × (v ≡ leaf)
LeafAt (k ∷ ks) (map m) leaf =
    (ValueMap.contains_key config_key_provider m ≡ false)
    × ((u : C5DataValue) × (ValueMap.lookup k m ≡ some u) × LeafAt ks u leaf)
LeafAt (k ∷ ks) v leaf = ⊥

-- The root is walked whether or not it names a provider.
abbrev pub LeafIn : List Str → Fields → C5DataValue → Type 0
LeafIn [] m leaf = ⊥
LeafIn (k ∷ ks) m leaf = (u : C5DataValue) × (ValueMap.lookup k m ≡ some u) × LeafAt ks u leaf

LeafIn-skip :
    (ks : List Str) (key : Str) (value leaf : C5DataValue) (m : Fields)
    → ValueMap.lookup key m ≡ none
    → LeafIn ks m leaf
    → LeafIn ks (field key value m) leaf
unfolding ValueMap.lookup
LeafIn-skip [] key value leaf m n h = h
LeafIn-skip (k ∷ ks) key value leaf m n (u, e, h) = (u, ground (arith, eq_iff key k), h)

LeafAt-of_LeafIn :
    (ks : List Str) (m : Fields) (leaf : C5DataValue)
    → ValueMap.contains_key config_key_provider m ≡ false
    → LeafIn ks m leaf
    → LeafAt ks (map m) leaf
LeafAt-of_LeafIn [] m leaf n h = elim h [ ]
LeafAt-of_LeafIn (k ∷ ks) m leaf n h = (n, h)

In-singleton :
    (p path : Str) (leaf v : C5DataValue)
    → In {A = Str × C5DataValue} (p, leaf) ((path, v) ∷ [])
    → (p ≡ path) × (v ≡ leaf)
In-singleton p path leaf v (inl e) =
    (ap (λ (x : Str × C5DataValue). x.0) e, sym (ap (λ (x : Str × C5DataValue). x.1) e))
In-singleton p path leaf v (inr i) = elim i [ ]

In-here :
    (path : Str) (leaf v : C5DataValue)
    → v ≡ leaf
    → In {A = Str × C5DataValue} (path, leaf) ((path, v) ∷ [])
In-here path leaf v e = inl (λ i. (path, sym e i))

mutual
  unfolding leaves

  leaves_sound :
      (keypath p : Str) (m : Fields) (leaf : C5DataValue)
      → IsWellFormed (map m)
      → In (p, leaf) (leaves keypath m)
      → (ks : List Str) × (p ≡ dotted keypath ks) × LeafIn ks m leaf
  leaves_sound keypath p end leaf w i = elim i [ ]
  leaves_sound keypath p (field key value m) leaf w i =
      elim (In-append_cases (p, leaf) (leaves_of (join_keypath keypath key) value)
        (leaves keypath m) i) [
          | inl here ↦
              let (ks, e, h) = leaves_of_sound (join_keypath keypath key) p value leaf w.1.0 here in
              (key ∷ ks, e, (value, ValueMap.lookup-field_self key value m, h))
          | inr there ↦
              let (ks, e, h) = leaves_sound keypath p m leaf (w.0.1, w.1.1) there in
              (ks, e, LeafIn-skip ks key value leaf m w.0.0 h)
        ]

  leaves_of_sound :
      (path p : Str) (v leaf : C5DataValue)
      → IsWellFormed v
      → In (p, leaf) (leaves_of path v)
      → (ks : List Str) × (p ≡ dotted path ks) × LeafAt ks v leaf
  leaves_of_sound path p (map m) leaf w i =
      elim (Bool-cases (ValueMap.contains_key config_key_provider m)) [
        | inl section ↦ absurd (rw section at i)
        | inr open_map ↦
            let (ks, e, h) = leaves_sound path p m leaf w (rw open_map at i) in
            (ks, e, LeafAt-of_LeafIn ks m leaf open_map h)
      ]
  leaves_of_sound path p v leaf w i =
      let (e, same) = In-singleton p path leaf v i in ([], e, (refl, same))

mutual
  unfolding leaves

  leaves_complete :
      (keypath : Str) (ks : List Str) (m : Fields) (leaf : C5DataValue)
      → LeafIn ks m leaf
      → In (dotted keypath ks, leaf) (leaves keypath m)
  leaves_complete keypath [] m leaf h = elim h [ ]
  leaves_complete keypath (k ∷ ks) end leaf (u, e, h) = absurd (ValueMap.lookup-end k e)
  leaves_complete keypath (k ∷ ks) (field key value m) leaf (u, e, h) =
      elim (Bool-cases (key == k)) [
        | inl same ↦
            let (ek, ev) = ValueMap.lookup-field_head key k value u m same e in
            let h' : LeafAt ks value leaf = subst (λ v. LeafAt ks v leaf) (sym ev) h in
            rw (← ek) (
              In-append_left (dotted keypath (key ∷ ks), leaf)
                (leaves_of (join_keypath keypath key) value) (leaves keypath m)
                (leaves_of_complete (join_keypath keypath key) ks value leaf h'))
        | inr other ↦
            In-append_right (dotted keypath (k ∷ ks), leaf)
              (leaves_of (join_keypath keypath key) value) (leaves keypath m)
              (leaves_complete keypath (k ∷ ks) m leaf
                (u, ValueMap.lookup-field_tail key k value u m other e, h))
      ]

  leaves_of_complete :
      (path : Str) (ks : List Str) (v leaf : C5DataValue)
      → LeafAt ks v leaf
      → In (dotted path ks, leaf) (leaves_of path v)
  leaves_of_complete path (k ∷ ks) (map m) leaf (n, h) =
      rw n (leaves_complete path (k ∷ ks) m leaf h)
  leaves_of_complete path (k ∷ ks) v leaf h = elim h [ ]
  leaves_of_complete path [] (map m) leaf h = cc (h.0)
  leaves_of_complete path [] v leaf h = In-here path leaf v h.1

-- The list holds exactly the leaves, at the dotted paths that lead to them.
pub leaves_exact :
    (keypath p : Str) (m : Fields) (leaf : C5DataValue)
    → IsWellFormed (map m)
    → In (p, leaf) (leaves keypath m)
      ↔ ((ks : List Str) × (p ≡ dotted keypath ks) × LeafIn ks m leaf)
leaves_exact keypath p m leaf w =
    (leaves_sound keypath p m leaf w, λ h. rw (h.1) (leaves_complete keypath h.0 m leaf h.2))
