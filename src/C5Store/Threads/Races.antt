-- ===== src/C5Store/Threads/Races.antt =====
-- What `set_data_fn` does alone and beside another thread (c5store_rust/src/lib.rs).
use c5store.Base.{
  ℕ, true, false, ◌≡◌, refl, ◌∙◌, none, some, List, [], ◌∷◌, Outcome, returned, panicked, arith,
}
use c5store.Text.{Str, str_eq, ends_with}
use c5store.Crates.SkipMap.{SkipMap, IsLawful}
use c5store.Crates.ListMultiMap.{ListMultiMap}
use c5store.Value.{C5DataValue}
use c5store.DataStore.{exists, get_data, set_data}
use c5store.DataStore.Plain.{exists_lem, set_data_plain}
use c5store.C5Store.{State, set_data_fn}
use c5store.C5Store.Loading.{segment-set_data}
use c5store.C5Store.Threads.{Stage, entered, finished, failed, interleave}
use c5store.C5Store.Threads.Steps.{step_absent}

-- The end of a call.
abbrev pub ended : Outcome (Unit {0}) → Stage
ended (returned u) = finished
ended panicked = failed

module _ {L : Type 0} (s : SkipMap C5DataValue) (lawful : IsLawful s) (sha256 : List ℕ → List ℕ)
    (m : ListMultiMap L) where
  -- A thread that is not interrupted ends within four steps, and does what `set_data_fn` does.
  pub interleave-set_data_fn :
      (key : Str) (value : C5DataValue) (key' : Str) (value' : C5DataValue) (other : Stage)
      (a : State s sha256 m)
      → let (result, a') = set_data_fn s sha256 m key value a in
        interleave s sha256 m key value key' value'
          (true ∷ true ∷ true ∷ true ∷ [])
          (entered, other, a)
        ≡ (ended result, other, a')
  unfolding interleave set_data_fn
  interleave-set_data_fn key value key' value' other a =
      ground (arith, (exists_lem s lawful sha256 a.data_store key).0)

  -- Two threads that set two values under one plain key that is not there, and that both have asked
  -- for the key before either sets it: both return, the second value stands, and nobody is told that
  -- the first one was replaced.
  pub interleave_loses :
      (key : Str) (first second : C5DataValue) (a : State s sha256 m)
      → ends_with key a.data_store.secret_key_path_segment ≡ false
      → get_data s sha256 a.data_store key ≡ none
      → let (x, y, a') =
          interleave s sha256 m key first key second
            (true ∷ false ∷ true ∷ false ∷ [])
            (entered, entered, a) in
        (x ≡ finished)
        × (y ≡ finished)
        × (get_data s sha256 a'.data_store key ≡ some second)
        × (a'.notifier ≡ a.notifier)
  unfolding interleave
  interleave_loses key first second a plain none_there =
      let gone : exists s sha256 a.data_store key ≡ false =
        ground (arith, (exists_lem s lawful sha256 a.data_store key).0) in
      let d = (set_data s sha256 a.data_store key first).1 in
      let plain' : ends_with key d.secret_key_path_segment ≡ false =
        rw (segment-set_data s lawful sha256 m a.data_store key first plain) plain in
      let (ret, reads, cache) = set_data_plain s lawful sha256 d key second plain' in
      rw gone (
        rw (step_absent s lawful sha256 m key first a plain) (
          rw (step_absent s lawful sha256 m key second (record a { data_store = d }) plain')
            (refl, refl, reads key ∙ ground (arith, lawful.same_key_refl key), refl)))
