-- ===== src/C5Store/Threads.antt =====
-- The closure `set_data_fn` of c5store_rust/src/lib.rs as several threads run it: each call that it
-- makes of the data store or of the notifier takes the lock of that and gives it back, so another
-- thread may come in between.
pub mod Steps
pub mod Races
pub mod Records
pub mod Many
pub mod Reached
pub mod Values
use c5store.Base.{
  ℕ, Bool, true, false, Option, none, some, List, [], ◌∷◌, Outcome, returned, panicked,
  if◌then◌else◌,
}
use c5store.Text.{Str}
use c5store.Crates.SkipMap.{SkipMap}
use c5store.Crates.ListMultiMap.{ListMultiMap}
use c5store.Value.{C5DataValue}
use c5store.Value.Equality.{value_eq}
use c5store.DataStore.{exists, get_data}
use c5store.Notifier.{notify_changed}
use c5store.C5Store.{State, set_value, on_notifier}

-- Where a call stands: before `exists`, at the `set_data` of a key that was not there, at the
-- `get_data` of one that was, at the `set_data` of another value, at `notify_changed`, at its end, or
-- stopped by a panic.
pub data Stage : Type 0 where
  entered : Stage
  absent : Stage
  present : Stage
  different : Stage
  written : Stage
  finished : Stage
  failed : Stage

module _ {L : Type 0} (s : SkipMap C5DataValue) (sha256 : List ℕ → List ℕ)
    (m : ListMultiMap L) where
  -- The stage behind a call, which may have panicked.
  abbrev pub behind : {A : Type 0} → Stage → Outcome A × State s sha256 m → Stage × State s sha256 m
  behind next (returned x, a) = (next, a)
  behind next (panicked, a) = (failed, a)

  abbrev pub compared : C5DataValue → Option C5DataValue → Stage
  compared value none = finished
  compared value (some old_value) = if value_eq old_value value then finished else different

  -- One call of the data store or of the notifier.
  unfoldable pub set_data_step :
      Str → C5DataValue → Stage → State s sha256 m → Stage × State s sha256 m
  set_data_step key value entered a =
      (if exists s sha256 a.data_store key then present else absent, a)
  set_data_step key value absent a = behind finished (set_value s sha256 m key value a)
  set_data_step key value present a = (compared value (get_data s sha256 a.data_store key), a)
  set_data_step key value different a = behind written (set_value s sha256 m key value a)
  set_data_step key value written a =
      behind finished (on_notifier s sha256 m (notify_changed key) a)
  set_data_step key value finished a = (finished, a)
  set_data_step key value failed a = (failed, a)

  -- A thread that sets the one value, and one that sets the other, each under its key: where they
  -- stand, and a step of the first of them or of the second.
  abbrev pub step_of :
      Str
      → C5DataValue
      → Str
      → C5DataValue
      → Bool
      → Stage × Stage × State s sha256 m
      → Stage × Stage × State s sha256 m
  step_of key value key' value' true (first, second, a) =
      let (next, a') = set_data_step key value first a in (next, second, a')
  step_of key value key' value' false (first, second, a) =
      let (next, a') = set_data_step key' value' second a in (first, next, a')

  -- The steps in the order in which the threads come by: `true` for the first.
  unfoldable pub interleave :
      Str
      → C5DataValue
      → Str
      → C5DataValue
      → List Bool
      → Stage × Stage × State s sha256 m
      → Stage × Stage × State s sha256 m
  unfolding set_data_step
  interleave key value key' value' [] t = t
  interleave key value key' value' (who ∷ order) t =
      interleave key value key' value' order (step_of key value key' value' who t)
