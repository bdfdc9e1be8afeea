-- ===== src/C5Store/Loading.antt =====
-- The loading of a flat configuration: the entries that `read_config_data` and a value provider hand
-- over one by one.
use c5store.Base.{
  ℕ, ◌≡◌, refl, ◌∙◌, false, Bool-cases, inl, inr, none, some, List, Outcome, returned, arith, ◌==◌,
  if◌then◌else◌, eq_iff,
}
use c5store.Text.{Str, str_eq, ends_with}
use c5store.Crates.SkipMap.{SkipMap, IsLawful, same_key}
use c5store.Crates.ListMultiMap.{ListMultiMap}
use c5store.Value.{C5DataValue, Fields, end, field}
use c5store.Value.Map as ValueMap
use c5store.DataStore.{Store, get_data, set_data}
use c5store.DataStore.Plain.{set_data_plain}
use c5store.C5Store.{State, set_data_fn, set_entries}
use c5store.C5Store.SetData.{set_data_fn_new}

module _ {L : Type 0} (s : SkipMap C5DataValue) (lawful : IsLawful s) (sha256 : List ℕ → List ℕ)
    (m : ListMultiMap L) where
  -- The store tells the key from each key of the entries, which it does not where they differ in
  -- case alone.
  abbrev pub DiffersFromAll : Str → Fields → Type 0
  DiffersFromAll k end = Unit
  DiffersFromAll k (field j v entries) = (same_key s j k ≡ false) × DiffersFromAll k entries

  -- No entry is a secret, none is in the store yet, and the store tells their keys apart.
  abbrev pub CanLoad : Store s sha256 → Fields → Type 0
  CanLoad d end = Unit
  CanLoad d (field k v entries) =
      (ends_with k d.secret_key_path_segment ≡ false)
      × (get_data s sha256 d k ≡ none)
      × DiffersFromAll k entries
      × CanLoad d entries

  pub segment-set_data :
      (d : Store s sha256) (key : Str) (value : C5DataValue)
      → ends_with key d.secret_key_path_segment ≡ false
      → (set_data s sha256 d key value).1.secret_key_path_segment ≡ d.secret_key_path_segment
  unfolding set_data
  segment-set_data d key value h = rw h

  CanLoad-set_data :
      (d : Store s sha256) (key : Str) (value : C5DataValue) (entries : Fields)
      → ends_with key d.secret_key_path_segment ≡ false
      → DiffersFromAll key entries
      → CanLoad d entries
      → CanLoad (set_data s sha256 d key value).1 entries
  CanLoad-set_data d key value end plain differs can = tt
  CanLoad-set_data d key value (field j v entries) plain differs can =
      let (ret, reads, cache) = set_data_plain s lawful sha256 d key value plain in
      (
        ground (arith, segment-set_data d key value),
        ground (arith, reads j, lawful.same_key_sym key j),
        can.2,
        CanLoad-set_data d key value entries plain differs.1 can.3,
      )

  -- After the entries have been handed over, each is read back, every key that differs from theirs
  -- has the value that it had, nobody is told, and no call has panicked.
  pub record Loaded (entries : Fields) (a : State s sha256 m)
      (r : Outcome (Unit {0}) × State s sha256 m) : Type 0 where
    pub finished : r.0 ≡ returned tt
    pub reads :
        (k : Str) (v : C5DataValue)
        → ValueMap.lookup k entries ≡ some v
        → get_data s sha256 r.1.data_store k ≡ some v
    pub others :
        (k : Str)
        → DiffersFromAll k entries
        → get_data s sha256 r.1.data_store k ≡ get_data s sha256 a.data_store k
    pub notifier : r.1.notifier ≡ a.notifier
    pub segment : r.1.data_store.secret_key_path_segment ≡ a.data_store.secret_key_path_segment
    pub subscriptions : r.1.subscriptions ≡ a.subscriptions

  pub set_new :
      (a : State s sha256 m) (key : Str) (value : C5DataValue)
      → ends_with key a.data_store.secret_key_path_segment ≡ false
      → get_data s sha256 a.data_store key ≡ none
      → set_data_fn s sha256 m key value a
        ≡ (returned tt, record a { data_store = (set_data s sha256 a.data_store key value).1 })
  set_new a key value plain absent =
      let (ret, reads, cache) = set_data_plain s lawful sha256 a.data_store key value plain in
      ground (arith, set_data_fn_new s lawful sha256 m a key value absent)

  -- One entry more, if it is all that the first step writes.
  pub Loaded-field :
      (a a' : State s sha256 m) (k : Str) (v : C5DataValue) (entries : Fields)
      (r : Outcome (Unit {0}) × State s sha256 m)
      → ((j : Str)
          → get_data s sha256 a'.data_store j
            ≡ (if same_key s k j then some v else get_data s sha256 a.data_store j))
      → a'.notifier ≡ a.notifier
      → a'.data_store.secret_key_path_segment ≡ a.data_store.secret_key_path_segment
      → a'.subscriptions ≡ a.subscriptions
      → DiffersFromAll k entries
      → Loaded entries a' r
      → Loaded (field k v entries) a r
  unfolding ValueMap.lookup
  Loaded-field a a' k v entries r writes quiet segment listening differs rest = record {
    finished = rest.finished;
    reads = λ j w h. elim (Bool-cases (k == j)) [
      | inl same ↦
          let ek : k ≡ j = (eq_iff k j).0 same in
          let ev : v ≡ w = ground arith in
          rw (← ek, ← ev) (rest.others k differs ∙ ground (arith, writes k, lawful.same_key_refl k))
      | inr other ↦ rest.reads j w (ground arith)
    ];
    others = λ j apart. rest.others j apart.1 ∙ ground (arith, writes j);
    notifier = rest.notifier ∙ quiet;
    segment = rest.segment ∙ segment;
    subscriptions = rest.subscriptions ∙ listening;
  }

  -- A flat configuration without secrets, whose keys the store tells apart and has not yet, is
  -- loaded without a panic: each entry is read back, other keys keep their values, and nobody is
  -- told.
  pub set_entries-Loaded :
      (entries : Fields) (a : State s sha256 m)
      → CanLoad a.data_store entries
      → Loaded entries a (set_entries s sha256 m entries a)
  unfolding set_entries
  set_entries-Loaded end a can = record {
    finished = refl;
    reads = λ k v h. absurd (ValueMap.lookup-end k h);
    others = λ k differs. refl;
    notifier = refl;
    segment = refl;
    subscriptions = refl;
  }
  set_entries-Loaded (field k v entries) a can =
      let d' = (set_data s sha256 a.data_store k v).1 in
      let a' : State s sha256 m = record a { data_store = d' } in
      let (ret, reads, cache) = set_data_plain s lawful sha256 a.data_store k v can.0 in
      rw (set_new a k v can.0 can.1) (
        Loaded-field a a' k v entries (set_entries s sha256 m entries a') reads refl
          (segment-set_data a.data_store k v can.0) refl can.2
          (set_entries-Loaded entries a'
            (CanLoad-set_data a.data_store k v entries can.0 can.2 can.3)))
