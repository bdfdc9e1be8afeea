-- ===== src/C5Store/AnyOrder.antt =====
-- A flat configuration that is handed over in another order: the loop of `read_config_data`
-- (c5store_rust/src/lib.rs) walks over a `HashMap`.
use c5store.Base.{
  ℕ, ◌≡◌, sym, ◌∙◌, ◌⊎◌, inl, inr, Bool-cases, true, false, none, some, List, arith, ◌==◌, eq_iff,
}
use c5store.Text.{Str, str_eq, ends_with}
use c5store.Crates.SkipMap.{SkipMap, IsLawful, same_key}
use c5store.Crates.ListMultiMap.{ListMultiMap}
use c5store.Value.{C5DataValue, Fields, end, field}
use c5store.Value.Map as ValueMap
use c5store.DataStore.{Store, get_data}
use c5store.C5Store.{State, set_entries}
use c5store.C5Store.Loading.{CanLoad, DiffersFromAll, set_entries-Loaded}

-- The two maps have the same value at every key.
abbrev pub SameEntries : Fields → Fields → Type 0
SameEntries e e' = (k : Str) → ValueMap.lookup k e ≡ ValueMap.lookup k e'

pub lookup-field_later :
    (i j : Str) (u w : C5DataValue) (e : Fields)
    → ValueMap.lookup i e ≡ none
    → ValueMap.lookup j e ≡ some w
    → ValueMap.lookup j (field i u e) ≡ some w
unfolding ValueMap.lookup
lookup-field_later i j u w e fresh h = ground (arith, eq_iff i j)

module _ {L : Type 0} (s : SkipMap C5DataValue) (lawful : IsLawful s) (sha256 : List ℕ → List ℕ)
    (m : ListMultiMap L) where
  pub DiffersFromAll-lookup :
      (k j : Str) (v : C5DataValue) (e : Fields)
      → DiffersFromAll s lawful sha256 m k e
      → ValueMap.lookup j e ≡ some v
      → same_key s j k ≡ false
  DiffersFromAll-lookup k j v end h found = absurd (ValueMap.lookup-end j found)
  DiffersFromAll-lookup k j v (field i u e) h found = elim (Bool-cases (i == j)) [
    | inl same ↦ rw (← (ValueMap.lookup-field_head i j u v e same found).0) (h.0)
    | inr other ↦
        DiffersFromAll-lookup k j v e h.1 (ValueMap.lookup-field_tail i j u v e other found)
  ]

  pub DiffersFromAll-of :
      (k : Str) (e : Fields)
      → ValueMap.HasDistinctKeys e
      → ((j : Str) (v : C5DataValue) → ValueMap.lookup j e ≡ some v → same_key s j k ≡ false)
      → DiffersFromAll s lawful sha256 m k e
  DiffersFromAll-of k end d h = tt
  DiffersFromAll-of k (field i u e) d h = (
    h i u (ValueMap.lookup-field_self i u e),
    DiffersFromAll-of k e d.1 (λ j v found. h j v (lookup-field_later i j u v e d.0 found)),
  )

  -- The store takes the key for one of the entries', or tells it from them all.
  DiffersFromAll-cases :
      (k : Str) (e : Fields)
      → DiffersFromAll s lawful sha256 m k e
        ⊎ ((j : Str) × (v : C5DataValue) × (ValueMap.lookup j e ≡ some v) × (same_key s j k ≡ true))
  unfolding ValueMap.lookup
  DiffersFromAll-cases k end = inl tt
  DiffersFromAll-cases k (field i u e) = elim (Bool-cases (same_key s i k)) [
    | inl same ↦ inr (i, u, ValueMap.lookup-field_self i u e, same)
    | inr other ↦ elim (DiffersFromAll-cases k e) [
      | inl apart ↦ inl (other, apart)
      | inr (j, v, found, same) ↦ elim (Bool-cases (i == j)) [
        | inl one ↦ let ij : i ≡ j = (eq_iff i j).0 one in cc
        | inr two ↦ inr (j, v, rw two found, same)
      ]
    ]
  ]

  DiffersFromAll-SameEntries :
      (k : Str) (e e' : Fields)
      → ValueMap.HasDistinctKeys e'
      → SameEntries e e'
      → DiffersFromAll s lawful sha256 m k e
      → DiffersFromAll s lawful sha256 m k e'
  DiffersFromAll-SameEntries k e e' d same h =
      DiffersFromAll-of k e' d (λ j v found. DiffersFromAll-lookup k j v e h (same j ∙ found))

  CanLoad-lookup :
      (d : Store s sha256) (k : Str) (v : C5DataValue) (e : Fields)
      → CanLoad s lawful sha256 m d e
      → ValueMap.lookup k e ≡ some v
      → (ends_with k d.secret_key_path_segment ≡ false) × (get_data s sha256 d k ≡ none)
  CanLoad-lookup d k v end can found = absurd (ValueMap.lookup-end k found)
  CanLoad-lookup d k v (field i u e) can found = elim (Bool-cases (i == k)) [
    | inl same ↦ rw (← (ValueMap.lookup-field_head i k u v e same found).0) (can.0, can.1)
    | inr other ↦ CanLoad-lookup d k v e can.3 (ValueMap.lookup-field_tail i k u v e other found)
  ]

  -- Two entries that the store takes for one have one key.
  CanLoad-apart :
      (d : Store s sha256) (j k : Str) (v w : C5DataValue) (e : Fields)
      → CanLoad s lawful sha256 m d e
      → ValueMap.lookup j e ≡ some v
      → ValueMap.lookup k e ≡ some w
      → same_key s j k ≡ true
      → j ≡ k
  CanLoad-apart d j k v w end can hj hk same = absurd (ValueMap.lookup-end j hj)
  CanLoad-apart d j k v w (field i u e) can hj hk same = elim (Bool-cases (i == j)) [
    | inl ij ↦
        let eij : i ≡ j = (eq_iff i j).0 ij in
        elim (Bool-cases (i == k)) [
          | inl ik ↦ sym eij ∙ (eq_iff i k).0 ik
          | inr ik ↦
              let apart =
                DiffersFromAll-lookup i k w e can.2 (ValueMap.lookup-field_tail i k u w e ik hk) in
              cc (lawful.same_key_sym j k)
        ]
    | inr ij ↦
        let later = ValueMap.lookup-field_tail i j u v e ij hj in
        elim (Bool-cases (i == k)) [
          | inl ik ↦
              let eik : i ≡ k = (eq_iff i k).0 ik in
              let apart = DiffersFromAll-lookup i j v e can.2 later in cc
          | inr ik ↦
              CanLoad-apart d j k v w e can.3 later (ValueMap.lookup-field_tail i k u w e ik hk)
                same
        ]
  ]

  CanLoad-of :
      (d : Store s sha256) (e : Fields)
      → ValueMap.HasDistinctKeys e
      → ((k : Str) (v : C5DataValue)
          → ValueMap.lookup k e ≡ some v
          → (ends_with k d.secret_key_path_segment ≡ false) × (get_data s sha256 d k ≡ none))
      → ((j k : Str) (v w : C5DataValue)
          → ValueMap.lookup j e ≡ some v
          → ValueMap.lookup k e ≡ some w
          → same_key s j k ≡ true
          → j ≡ k)
      → CanLoad s lawful sha256 m d e
  CanLoad-of d end h plain apart = tt
  CanLoad-of d (field i u e) h plain apart =
      let later = λ (j : Str) (v : C5DataValue). lookup-field_later i j u v e h.0 in
      let here = ValueMap.lookup-field_self i u e in
      let (p, absent) = plain i u here in
      (
        p,
        absent,
        DiffersFromAll-of i e h.1 (λ j v found. elim (Bool-cases (same_key s j i)) [
          | inl same ↦ let ji = apart j i v u (later j v found) here same in cc (h.0)
          | inr other ↦ other
        ]),
        CanLoad-of d e h.1 (λ k v found. plain k v (later k v found))
            (λ j k v w hj hk. apart j k v w (later j v hj) (later k w hk)),
      )

  -- What can be loaded in one order can be loaded in another.
  pub CanLoad-SameEntries :
      (d : Store s sha256) (e e' : Fields)
      → ValueMap.HasDistinctKeys e'
      → SameEntries e e'
      → CanLoad s lawful sha256 m d e
      → CanLoad s lawful sha256 m d e'
  CanLoad-SameEntries d e e' h same can =
      CanLoad-of d e' h (λ k v found. CanLoad-lookup d k v e can (same k ∙ found))
        (λ j k v w hj hk. CanLoad-apart d j k v w e can (same j ∙ hj) (same k ∙ hk))

  get_data_same :
      (d : Store s sha256) (j k : Str)
      → same_key s j k ≡ true
      → get_data s sha256 d j ≡ get_data s sha256 d k
  unfolding get_data
  get_data_same d j k same = lawful.get_same j k d.contents same

  -- A flat configuration can be handed over in any order: every key then has the same value in the
  -- store, if the configuration can be loaded, with no secret, no key that is there already, and no
  -- two keys that the store takes for one.
  pub set_entries-SameEntries :
      (e e' : Fields) (a : State s sha256 m) (k : Str)
      → ValueMap.HasDistinctKeys e'
      → SameEntries e e'
      → CanLoad s lawful sha256 m a.data_store e
      → get_data s sha256 (set_entries s sha256 m e a).1.data_store k
        ≡ get_data s sha256 (set_entries s sha256 m e' a).1.data_store k
  set_entries-SameEntries e e' a k h same can =
      let can' = CanLoad-SameEntries a.data_store e e' h same can in
      let r = set_entries-Loaded s lawful sha256 m e a can in
      let r' = set_entries-Loaded s lawful sha256 m e' a can' in
      elim (DiffersFromAll-cases k e) [
        | inl apart ↦
            r.others k apart ∙ sym (r'.others k (DiffersFromAll-SameEntries k e e' h same apart))
        | inr (j, v, found, one) ↦
            sym (get_data_same (set_entries s sha256 m e a).1.data_store j k one)
            ∙ r.reads j v found
            ∙ sym (r'.reads j v (sym (same j) ∙ found))
            ∙ get_data_same (set_entries s sha256 m e' a).1.data_store j k one
      ]
