-- ===== src/Tests/Changes.antt =====
-- Runs of `set_data_fn` on keys that are there already.
use c5store.Base.{ℕ, suc, ◌≡◌, refl, List, [], ◌∷◌, returned, panicked, inl, inr, In}
use c5store.Text.{str_eq, bytes_of, starts_with, ends_with}
use c5store.Fixtures.Sorted.{find, place}
use c5store.Fixtures.Order.{lower, lex}
use c5store.Value.{end, field}
use c5store.Value.Map as ValueMap
use c5store.Value.Append.{append}
use c5store.Value.Equality.{value_eq}
use c5store.DataStore as DataStore
use c5store.DataStore.{get_data}
use c5store.Subscriptions.{Call, add}
use c5store.Notifier as Notifier
use c5store.Notifier.{run_job}
use c5store.Notifier.Delivery.{call_of}
use c5store.C5Store.{State, set_data_fn, set_entries}
use c5store.C5Store.Changes.{change_reaches_listeners}
use c5store.C5Store.Collisions.{set_entries_collide}
use c5store.Tests.Common.{skip, skip-IsLawful, listeners, hash, empty_store, stored, with_store}
use c5store.Tests.Config.{a, one, two, single}

-- The value 1 at `a.b`, and a listener for `a`.
abbrev before : State skip hash listeners
before = record {
  data_store = stored (bytes_of "a.b") one empty_store;
  subscriptions = add listeners listeners.new a 7;
  notifier = Notifier.new;
}

change_reaches_listeners_example :
    let a' = (set_data_fn skip hash listeners (bytes_of "a.b") two before).1 in
    (a'.notifier.scheduled_jobs ≡ suc before.notifier.scheduled_jobs)
    × ((calls : List (Call ℕ)) × ((run_job skip hash listeners a'.data_store a'.subscriptions
            (record a'.notifier { scheduled_jobs = before.notifier.scheduled_jobs })).0
          ≡ returned calls)
        × In (call_of 7 a (bytes_of "a.b") two) calls)
unfolding empty_store starts_with ends_with str_eq find place lower lex get_data DataStore.set_data
    add value_eq
change_reaches_listeners_example =
    change_reaches_listeners skip skip-IsLawful hash listeners before (bytes_of "a.b") a two one 7
      (7 ∷ []) (record { no_handle = refl; no_readers = refl; no_writer = refl }) refl refl refl
      refl refl (inr (bytes_of "b", refl)) refl (inl refl)

-- `a: 1` and `A: 2`.
set_entries_collide_example :
    (set_entries skip hash listeners
      (append single (field (bytes_of "A") two end))
      (with_store empty_store)).0
    ≡ panicked
unfolding empty_store ends_with str_eq find lower lex get_data value_eq ValueMap.lookup starts_with
set_entries_collide_example =
    set_entries_collide skip skip-IsLawful hash listeners single end a (bytes_of "A") one two
      (with_store empty_store) (refl, refl, tt, tt)
      (record { no_handle = refl; no_readers = refl; no_writer = refl }) refl refl refl refl
