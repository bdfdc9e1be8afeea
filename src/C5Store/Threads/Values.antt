-- ===== src/C5Store/Threads/Values.antt =====
-- The values that any number of threads leave in the store (c5store_rust/src/lib.rs).
use c5store.Base.{
  ℕ, ◌≡◌, refl, sym, ◌∙◌, Bool, true, false, ◌⊎◌, inl, inr, Bool-cases, Option, some, List, [], ◌∷◌,
  ◌++◌, arith,
}
use c5store.Text.{Str, str_eq, ends_with}
use c5store.Crates.SkipMap.{SkipMap, IsLawful, same_key}
use c5store.Crates.ListMultiMap.{ListMultiMap}
use c5store.Value.{C5DataValue}
use c5store.DataStore.{get_data, set_data}
use c5store.DataStore.Plain.{set_data_plain}
use c5store.MultiMap.{set_contains}
use c5store.Notifier.Debounce.{IsIdle}
use c5store.C5Store.{State}
use c5store.C5Store.Threads.{
  Stage, entered, absent, present, different, written, finished, failed, set_data_step,
}
use c5store.C5Store.Threads.Steps.{step_absent, step_different, step_written}
use c5store.C5Store.Threads.Many.{Thread, AllEntered, System, Step, moves, Reaches, here, onward}
use c5store.C5Store.Threads.Reached.{
  AllPlain, AllPlain-middle, IsAccounted, Reaches-IsAccounted, at_start,
}

module _ {L : Type 0} (s : SkipMap C5DataValue) (lawful : IsLawful s) (sha256 : List ℕ → List ℕ)
    (m : ListMultiMap L) where
  -- One of the threads sets the value under the key, as the store sees it.
  abbrev pub SetByOne : Str → Option C5DataValue → List Thread → Type 0
  SetByOne j v [] = ⊥
  SetByOne j v (t ∷ threads) =
      ((same_key s t.key j ≡ true) × (v ≡ some t.value)) ⊎ SetByOne j v threads

  SetByOne-moved :
      (j : Str) (v : Option C5DataValue) (before after : List Thread) (t : Thread) (next : Stage)
      → SetByOne j v (before ++ (t ∷ after))
      → SetByOne j v (before ++ (record t { stage = next } ∷ after))
  SetByOne-moved j v [] after t next h = h
  SetByOne-moved j v (b ∷ before) after t next (inl h) = inl h
  SetByOne-moved j v (b ∷ before) after t next (inr h) =
      inr (SetByOne-moved j v before after t next h)

  SetByOne-middle :
      (j : Str) (before after : List Thread) (t : Thread)
      → same_key s t.key j ≡ true
      → SetByOne j (some t.value) (before ++ (t ∷ after))
  SetByOne-middle j [] after t e = inl (e, refl)
  SetByOne-middle j (b ∷ before) after t e = inr (SetByOne-middle j before after t e)

  -- A step writes its own value under its own key, or no value.
  abbrev Writes : Str → C5DataValue → State s sha256 m → Stage × State s sha256 m → Str → Type 0
  Writes key value a r j =
      (get_data s sha256 r.1.data_store j ≡ get_data s sha256 a.data_store j)
      ⊎ ((same_key s key j ≡ true) × (get_data s sha256 r.1.data_store j ≡ some value))

  wrote :
      (key : Str) (value : C5DataValue) (next : Stage) (a : State s sha256 m) (j : Str)
      → ends_with key a.data_store.secret_key_path_segment ≡ false
      → Writes key value a
          (next, record a { data_store = (set_data s sha256 a.data_store key value).1 })
          j
  wrote key value next a j plain =
      let (ret, reads, cache) = set_data_plain s lawful sha256 a.data_store key value plain in
      elim (Bool-cases (same_key s key j)) [
        | inl same ↦ inr (same, ground (arith, reads j))
        | inr other ↦ inl (ground (arith, reads j))
      ]

  step-Writes :
      (key : Str) (value : C5DataValue) (stage : Stage) (a : State s sha256 m) (j : Str)
      → IsIdle a.notifier
      → ends_with key a.data_store.secret_key_path_segment ≡ false
      → Writes key value a (set_data_step s sha256 m key value stage a) j
  unfolding set_data_step
  step-Writes key value entered a j i plain = inl refl
  step-Writes key value absent a j i plain =
      rw (step_absent s lawful sha256 m key value a plain) (wrote key value finished a j plain)
  step-Writes key value present a j i plain = inl refl
  step-Writes key value different a j i plain =
      rw (step_different s lawful sha256 m key value a plain) (wrote key value written a j plain)
  step-Writes key value written a j i plain =
      rw (step_written s lawful sha256 m key value a i) (inl refl)
  step-Writes key value finished a j i plain = inl refl
  step-Writes key value failed a j i plain = inl refl

  -- What is read is what was there, or set by one of the threads.
  abbrev IsKnown : Str → Option C5DataValue → System s sha256 m → Type 0
  IsKnown j old x =
      (get_data s sha256 x.1.data_store j ≡ old)
      ⊎ SetByOne j (get_data s sha256 x.1.data_store j) x.0

  Step-IsKnown :
      (seen : Str → Bool) (segment j : Str) (old : Option C5DataValue) {x y : System s sha256 m}
      → Step s sha256 m x y
      → IsAccounted s lawful sha256 m seen segment x
      → IsKnown j old x
      → IsKnown j old y
  Step-IsKnown seen segment j old (moves before after t a h) i known =
      let r = set_data_step s sha256 m t.key t.value t.stage a in
      let p = AllPlain-middle segment before after t i.plain in
      elim (step-Writes t.key t.value t.stage a j i.idle (rw (sym i.segment_is) at p)) [
        | inl same ↦ elim known [
          | inl first ↦ inl (same ∙ first)
          | inr later ↦ inr (
              SetByOne-moved j (get_data s sha256 r.1.data_store j) before after t r.0
                (rw same later))
        ]
        | inr (here_, e) ↦ inr (
            SetByOne-moved j (get_data s sha256 r.1.data_store j) before after t r.0
              (rw e (SetByOne-middle j before after t here_)))
      ]

  Reaches-IsKnown :
      (seen : Str → Bool) (segment j : Str) (old : Option C5DataValue) {x y : System s sha256 m}
      {n : ℕ}
      → IsAccounted s lawful sha256 m seen segment x
      → IsKnown j old x
      → Reaches s sha256 m x n y
      → IsKnown j old y
  Reaches-IsKnown seen segment j old i known here = known
  Reaches-IsKnown seen segment j old i known (onward r t) =
      Step-IsKnown seen segment j old t (Reaches-IsAccounted s lawful sha256 m seen segment i r)
        (Reaches-IsKnown seen segment j old i known r)

  -- Any number of threads that set values under plain keys, while no job handle is stored and no guard
  -- is alive: at every point of every order of their steps, each key has the value that it had, or a
  -- whole value that one of the threads sets under it.
  pub Reaches-values :
      (threads : List Thread) (a : State s sha256 m) (n : ℕ) (y : System s sha256 m) (j : Str)
      → AllEntered threads
      → AllPlain a.data_store.secret_key_path_segment threads
      → IsIdle a.notifier
      → Reaches s sha256 m (threads, a) n y
      → (get_data s sha256 y.1.data_store j ≡ get_data s sha256 a.data_store j)
        ⊎ SetByOne j (get_data s sha256 y.1.data_store j) y.0
  Reaches-values threads a n y j e p i r =
      Reaches-IsKnown (λ k. set_contains k a.notifier.changed_key_paths)
        a.data_store.secret_key_path_segment j (get_data s sha256 a.data_store j)
        (at_start s lawful sha256 m threads a e p i) (inl refl) r
