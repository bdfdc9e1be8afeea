-- ===== src/Notifier/Debounce.antt =====
-- The debouncing of change notifications: the job handle of `ChangeNotifier` (c5store_rust/src/lib.rs)
-- over any calls and jobs.
use c5store.Base.{ℕ, suc, ◌+◌, ◌≡◌, refl, true, false, none, List, panicked, arith, eq_refl}
use c5store.Text.{Str, str_eq}
use c5store.Crates.SkipMap.{SkipMap}
use c5store.Crates.ListMultiMap.{ListMultiMap}
use c5store.Value.{C5DataValue}
use c5store.MultiMap.{set_insert, set_contains}
use c5store.MultiMap.Laws.{set_contains-set_insert}
use c5store.DataStore.{Store}
use c5store.Notifier.{ChangeNotifier, new, notify_changed, run_job}

-- No job handle is stored and no guard is alive.
pub record IsIdle (n : ChangeNotifier) : Type 0 where
  pub no_handle : n.debounce_job_handle.handle ≡ none
  pub no_readers : n.debounce_job_handle.readers ≡ 0
  pub no_writer : n.debounce_job_handle.writer ≡ false

-- With no handle stored, a call records the key path and schedules a job, and then panics.
pub notify_changed-idle :
    (key : Str) (n : ChangeNotifier)
    → IsIdle n
    → notify_changed key n ≡ (
      panicked,
      record n {
        changed_key_paths = set_insert key n.changed_key_paths;
        scheduled_jobs = n.scheduled_jobs + 1;
      },
    )
unfolding notify_changed
notify_changed-idle key n i = ground arith

module _ {L : Type 0} (s : SkipMap C5DataValue) (sha256 : List ℕ → List ℕ)
    (m : ListMultiMap L) where
  -- A job leaves the notifier as it is, the changed key paths included.
  run_job-idle :
      (d : Store s sha256) (subs : m.Map) (n : ChangeNotifier)
      → IsIdle n
      → (run_job s sha256 m d subs n).1 ≡ n
  unfolding run_job
  run_job-idle d subs n i = ground arith

  -- Any number of threads: a call of `notify_changed`, or the run of a scheduled job on whatever the
  -- store and the subscriptions are by then.
  pub data Step (n n' : ChangeNotifier) : Type 0 where
    notify : (key : Str) → n' ≡ (notify_changed key n).1 → Step n n'
    run :
        (k : ℕ) (d : Store s sha256) (subs : m.Map)
        → n.scheduled_jobs ≡ suc k
        → n' ≡ (run_job s sha256 m d subs (record n { scheduled_jobs = k })).1
        → Step n n'

  pub data Reach (n : ChangeNotifier) : ChangeNotifier → Type 0 where
    here : Reach n n
    next : {t u : ChangeNotifier} → Reach n t → Step t u → Reach n u

  with_jobs-IsIdle :
      (n : ChangeNotifier) (k : ℕ) → IsIdle n → IsIdle (record n { scheduled_jobs = k })
  with_jobs-IsIdle n k i = record {
    no_handle = i.no_handle;
    no_readers = i.no_readers;
    no_writer = i.no_writer;
  }

  step-IsIdle : {n n' : ChangeNotifier} → Step n n' → IsIdle n → IsIdle n'
  step-IsIdle {n} (notify key e) i =
      rw (e, notify_changed-idle key n i)
        (record { no_handle = i.no_handle; no_readers = i.no_readers; no_writer = i.no_writer })
  step-IsIdle {n} (run k d subs j e) i =
      let i' = with_jobs-IsIdle n k i in
      rw (e, run_job-idle d subs (record n { scheduled_jobs = k }) i') i'

  Reach-IsIdle : {n n' : ChangeNotifier} → Reach n n' → IsIdle n → IsIdle n'
  Reach-IsIdle here i = i
  Reach-IsIdle (next r st) i = step-IsIdle st (Reach-IsIdle r i)

  new-IsIdle : IsIdle new
  new-IsIdle = record { no_handle = refl; no_readers = refl; no_writer = refl }

  -- After any calls of notify_changed and runs of jobs on a new notifier, each call of
  -- notify_changed panics, after it has recorded the key path and scheduled one more job.
  pub notify_changed_panics :
      {n : ChangeNotifier} (key : Str)
      → Reach new n
      → ((notify_changed key n).0 ≡ panicked)
        × (set_contains key (notify_changed key n).1.changed_key_paths ≡ true)
        × ((notify_changed key n).1.scheduled_jobs ≡ n.scheduled_jobs + 1)
  notify_changed_panics {n} key r =
      let i = Reach-IsIdle r new-IsIdle in
      rw (notify_changed-idle key n i) (
        refl,
        ground (arith, set_contains-set_insert key key n.changed_key_paths, eq_refl key),
        refl,
      )

  step-changed :
      {n n' : ChangeNotifier} (key : Str)
      → IsIdle n
      → Step n n'
      → set_contains key n.changed_key_paths ≡ true
      → set_contains key n'.changed_key_paths ≡ true
  step-changed {n} key i (notify other e) c =
      rw (e, notify_changed-idle other n i)
        (ground (arith, set_contains-set_insert other key n.changed_key_paths))
  step-changed {n} key i (run k d subs j e) c =
      rw (e, run_job-idle d subs (record n { scheduled_jobs = k }) (with_jobs-IsIdle n k i)) c

  -- A key path that is among the changed ones in a state that a new notifier gets into stays among
  -- them in every later state.
  pub changed_stays :
      {n n' : ChangeNotifier} (key : Str)
      → Reach new n
      → Reach n n'
      → set_contains key n.changed_key_paths ≡ true
      → set_contains key n'.changed_key_paths ≡ true
  changed_stays key r here c = c
  changed_stays key r (next q st) c =
      step-changed key (Reach-IsIdle q (Reach-IsIdle r new-IsIdle)) st (changed_stays key r q c)
