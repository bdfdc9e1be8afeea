-- ===== src/Tests/Threads.antt =====
-- Runs of `set_data_fn` on two threads.
use c5store.Base.{true, false, ◌≡◌, refl, ◌||◌, some, List, [], ◌∷◌, ◌⊎◌}
use c5store.Text.{str_eq, starts_with, ends_with}
use c5store.Fixtures.Sorted.{find}
use c5store.MultiMap.{set_contains}
use c5store.DataStore as DataStore
use c5store.DataStore.{get_data}
use c5store.C5Store.{State}
use c5store.C5Store.Threads.{Stage, entered, finished, set_data_step, interleave}
use c5store.C5Store.Threads.Many.{Thread, System, moves, Reaches, here, onward}
use c5store.C5Store.Threads.Reached.{any_failed, Reaches-records}
use c5store.C5Store.Threads.Values.{SetByOne, Reaches-values}
use c5store.C5Store.Threads.Races.{interleave_loses}
use c5store.Tests.Common.{skip, skip-IsLawful, listeners, hash, empty_store, stored, with_store}
use c5store.Tests.Config.{a, b, one, two}

abbrev empty : State skip hash listeners
empty = with_store empty_store

-- The value 1 at `a`.
abbrev before : State skip hash listeners
before = with_store (stored a one empty_store)

interleave_loses_example :
    let (x, y, a') =
      interleave skip hash listeners a one a two
        (true ∷ false ∷ true ∷ false ∷ [])
        (entered, entered, empty) in
    (x ≡ finished)
    × (y ≡ finished)
    × (get_data skip hash a'.data_store a ≡ some two)
    × (a'.notifier ≡ empty.notifier)
unfolding empty_store starts_with ends_with get_data find
interleave_loses_example =
    interleave_loses skip skip-IsLawful hash listeners a one two empty refl refl

-- Two threads, of which the second goes first.
abbrev threads : List Thread
threads =
    record { key = a; value = two; stage = entered }
    ∷ record { key = b; value = one; stage = entered }
    ∷ []

abbrev started : Stage × State skip hash listeners
started = set_data_step skip hash listeners b one entered before

abbrev one_step : System skip hash listeners
one_step = (
  record { key = a; value = two; stage = entered }
      ∷ record { key = b; value = one; stage = started.0 }
      ∷ [],
  started.1,
)

reached : Reaches skip hash listeners (threads, before) 1 one_step
reached = onward here (
    moves (record { key = a; value = two; stage = entered } ∷ []) []
      (record { key = b; value = one; stage = entered }) before refl)

Reaches-records_example :
    set_contains a one_step.1.notifier.changed_key_paths
    ≡ (set_contains a before.notifier.changed_key_paths || any_failed a one_step.0)
unfolding empty_store starts_with ends_with DataStore.set_data
Reaches-records_example =
    Reaches-records skip skip-IsLawful hash listeners threads before 1 one_step a (refl, (refl, tt))
      (refl, (refl, tt)) (record { no_handle = refl; no_readers = refl; no_writer = refl }) reached

Reaches-values_example :
    (get_data skip hash one_step.1.data_store a ≡ get_data skip hash before.data_store a)
    ⊎ SetByOne skip skip-IsLawful hash listeners a
        (get_data skip hash one_step.1.data_store a)
        one_step.0
unfolding empty_store starts_with ends_with DataStore.set_data
Reaches-values_example =
    Reaches-values skip skip-IsLawful hash listeners threads before 1 one_step a (refl, (refl, tt))
      (refl, (refl, tt)) (record { no_handle = refl; no_readers = refl; no_writer = refl }) reached
