-- ===== src/C5Store/Opening.antt =====
-- The loading of a flat configuration with secrets in it (c5store_rust/src/lib.rs,
-- c5store_rust/src/internal.rs).
use c5store.Base.{ℕ, ◌≡◌, refl, false, nat_eq, Option, none, List, Outcome, arith, ◌==◌, eq_iff}
use c5store.Text.{Str, str_eq}
use c5store.HashMap
use c5store.Crates.SkipMap.{SkipMap, IsLawful}
use c5store.Crates.ListMultiMap.{ListMultiMap}
use c5store.Value.{C5DataValue, Fields, end, field}
use c5store.Value.Map as ValueMap
use c5store.DataStore.{Store, get_data, set_data}
use c5store.DataStore.Opens.{EntryOpens, Sets, set_data-Sets}
use c5store.C5Store.{State, set_entries}
use c5store.C5Store.SetData.{set_data_fn_new}
use c5store.C5Store.Loading.{DiffersFromAll, Loaded, Loaded-field}

lookup-field_none :
    (j k : Str) (v : C5DataValue) (entries : Fields)
    → ValueMap.lookup k (field j v entries) ≡ none
    → ((j == k) ≡ false) × (ValueMap.lookup k entries ≡ none)
unfolding ValueMap.lookup
lookup-field_none j k v entries h = ground arith

module _ {L : Type 0} (s : SkipMap C5DataValue) (lawful : IsLawful s) (sha256 : List ℕ → List ℕ)
    (m : ListMultiMap L) where
  -- Each entry opens as the one beside it. Its key has no value and no record of a secret, and
  -- stands once; the key that it opens under differs, as the store sees it, from all later keys and
  -- from all that they open under.
  abbrev pub CanOpen : Store s sha256 → Fields → Fields → Type 0
  CanOpen d end end = Unit
  CanOpen d (field k v entries) (field base w opened) =
      EntryOpens d.secret_key_path_segment d.secret_key_store k v base w
      × (get_data s sha256 d k ≡ none)
      × (HashMap.lookup k d.value_hash_cache ≡ none)
      × (ValueMap.lookup k entries ≡ none)
      × DiffersFromAll s lawful sha256 m base entries
      × DiffersFromAll s lawful sha256 m base opened
      × CanOpen d entries opened
  CanOpen d _ _ = ⊥

  CanOpen-Sets :
      (d : Store s sha256) (k base : Str) (w : C5DataValue) (entries opened : Fields)
      (r : Outcome (Option C5DataValue) × Store s sha256)
      → Sets s sha256 d k base w r
      → ValueMap.lookup k entries ≡ none
      → DiffersFromAll s lawful sha256 m base entries
      → CanOpen d entries opened
      → CanOpen r.1 entries opened
  CanOpen-Sets d k base w end end r sets fresh differs can = tt
  CanOpen-Sets d k base w (field j v entries) (field base' w' opened) r sets fresh differs can =
      let (other, later) = lookup-field_none j k v entries fresh in
      (
        rw (sets.segment, sets.keys) (can.0),
        ground (arith, sets.reads j, lawful.same_key_sym base j),
        ground (arith, sets.cache j, eq_iff j k, eq_iff k j),
        can.3,
        can.4,
        can.5,
        CanOpen-Sets d k base w entries opened r sets later differs.1 can.6,
      )
  CanOpen-Sets d k base w _ _ r sets fresh differs can = elim can [ ]

  -- A flat configuration whose secrets can be opened is loaded without a panic: each value is read
  -- back under its key, a secret's plain text under its key without the segment, other keys keep
  -- their values, and nobody is told.
  pub set_entries-opens :
      (entries opened : Fields) (a : State s sha256 m)
      → CanOpen a.data_store entries opened
      → Loaded s lawful sha256 m opened a (set_entries s sha256 m entries a)
  unfolding set_entries
  set_entries-opens end end a can = record {
    finished = refl;
    reads = λ k v h. absurd (ValueMap.lookup-end k h);
    others = λ k differs. refl;
    notifier = refl;
    segment = refl;
    subscriptions = refl;
  }
  set_entries-opens (field k v entries) (field base w opened) a can =
      let r = set_data s sha256 a.data_store k v in
      let sets = set_data-Sets s lawful sha256 a.data_store k base v w can.0 can.2 in
      let a' : State s sha256 m = record a { data_store = r.1 } in
      rw (set_data_fn_new s lawful sha256 m a k v can.1) (
        rw sets.finished (
          Loaded-field s lawful sha256 m a a' base w opened (set_entries s sha256 m entries a')
            sets.reads refl sets.segment refl can.5
            (set_entries-opens entries opened a'
              (CanOpen-Sets a.data_store k base w entries opened r sets can.3 can.4 can.6))))
  set_entries-opens _ _ a can = elim can [ ]
