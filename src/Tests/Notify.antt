-- ===== src/Tests/Notify.antt =====
-- Runs of the change notifier.
use c5store.Base.{ℕ, ◌+◌, ◌≡◌, refl, ◌↔◌, true, List, [], ◌∷◌, returned, panicked, inl, inr, In}
use c5store.Base.Int.{pos}
use c5store.Text.{str_eq, bytes_of, starts_with, ends_with}
use c5store.Text.Split.{split}
use c5store.Fixtures.Sorted.{find, place}
use c5store.Fixtures.Order.{lower, lex}
use c5store.Value.{C5DataValue, integer}
use c5store.MultiMap.{set_contains, set_insert}
use c5store.DataStore as DataStore
use c5store.DataStore.{Store, get_data}
use c5store.Subscriptions.{Call, add}
use c5store.Notifier.{ChangeNotifier, new, notify_changed, run_job, ancestor_paths}
use c5store.Notifier.Ancestors.{IsAncestor, ancestor_paths_exact}
use c5store.Notifier.Debounce.{Step, Reach, notify_changed_panics, changed_stays}
use c5store.Notifier.Delivery.{call_of, job_reaches_listeners}
use c5store.Notifier.Due.{IsDue, job_calls-IsDue}
use c5store.Tests.Common.{skip, skip-IsLawful, listeners, hash, empty_store, stored}

abbrev one : C5DataValue
one = integer (pos 1)

computes : Unit {0}
unfolding empty_store starts_with ends_with str_eq find place lower lex set_contains set_insert
    get_data DataStore.set_data notify_changed add
computes = tt

-- After one change, and after the job for it has run.
unfoldable changed : ChangeNotifier
unfolding notify_changed
changed = (notify_changed (bytes_of "a.b") new).1

unfoldable told : ChangeNotifier
told =
    (run_job skip hash listeners empty_store listeners.new
      (record changed { scheduled_jobs = 0 })).1

Reach-changed : Reach skip hash listeners new changed
unfolding changed
Reach-changed = Reach.next Reach.here (Step.notify (bytes_of "a.b") refl)

Reach-told : Reach skip hash listeners changed told
unfolding changed told computes
Reach-told = Reach.next Reach.here (Step.run 0 empty_store listeners.new refl refl)

notify_changed_panics_example :
    ((notify_changed (bytes_of "c") changed).0 ≡ panicked)
    × (set_contains (bytes_of "c") (notify_changed (bytes_of "c") changed).1.changed_key_paths
        ≡ true)
    × ((notify_changed (bytes_of "c") changed).1.scheduled_jobs ≡ changed.scheduled_jobs + 1)
notify_changed_panics_example =
    notify_changed_panics skip hash listeners (bytes_of "c") Reach-changed

changed_stays_example : set_contains (bytes_of "a.b") told.changed_key_paths ≡ true
unfolding changed computes
changed_stays_example =
    changed_stays skip hash listeners (bytes_of "a.b") Reach-changed Reach-told refl

ancestor_paths_exact_example :
    In (bytes_of "a.b") (ancestor_paths [] (split (bytes_of "a.b.c")))
    ↔ IsAncestor (bytes_of "a.b") (bytes_of "a.b.c")
ancestor_paths_exact_example = ancestor_paths_exact (bytes_of "a.b.c") (bytes_of "a.b") refl refl

paths_told :
    ancestor_paths [] (split (bytes_of "a.b.c"))
    ≡ bytes_of "a" ∷ bytes_of "a.b" ∷ bytes_of "a.b.c" ∷ []
unfolding ancestor_paths split
paths_told = refl

abbrev subscribed : listeners.Map
subscribed = add listeners listeners.new (bytes_of "a") 7

job_reaches_listeners_example :
    (calls : List (Call ℕ)) × ((run_job skip hash listeners
        (stored (bytes_of "a.b") one empty_store)
        subscribed
        changed).0
      ≡ returned calls)
    × In (call_of 7 (bytes_of "a") (bytes_of "a.b") one) calls
unfolding changed computes
job_reaches_listeners_example =
    job_reaches_listeners skip skip-IsLawful hash listeners changed
      (stored (bytes_of "a.b") one empty_store) subscribed 7 (bytes_of "a") (bytes_of "a.b") one
      (7 ∷ []) (record { no_handle = refl; no_readers = refl; no_writer = refl }) refl refl refl
      refl (inr (bytes_of "b", refl)) refl (inl refl)

job_calls-IsDue_example :
    (calls : List (Call ℕ)) × ((run_job skip hash listeners
        (stored (bytes_of "a.b") one empty_store)
        subscribed
        changed).0
      ≡ returned calls)
    × ((call : Call ℕ)
        → In call calls
        → IsDue skip hash listeners
            (stored (bytes_of "a.b") one empty_store)
            subscribed
            changed.changed_key_paths
            call)
unfolding changed computes
job_calls-IsDue_example =
    job_calls-IsDue skip skip-IsLawful hash listeners changed
      (stored (bytes_of "a.b") one empty_store) subscribed
      (record { no_handle = refl; no_readers = refl; no_writer = refl })
