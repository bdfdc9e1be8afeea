-- ===== src/Notifier.antt =====
-- `ChangeNotifier` of c5store_rust/src/lib.rs: changed key paths are collected, and a job that runs
-- after a delay tells the subscribers. Both `notify_changed` and the job hold the lock of the job
-- handle from their first line to their last, so each is one step on the notifier's state. The delay
-- and the thread pool leave only the number of jobs that are yet to run.
pub mod Ancestors
pub mod Debounce
pub mod Pairs
pub mod Delivery
pub mod Told
pub mod Due
use c5store.Base.{
  ℕ, zero, suc, ◌+◌, ◌-◌, Bool, true, false, not, ◌||◌, Option, none, some, List, [], ◌∷◌, ◌++◌,
  ◌==◌, nat_eq, Outcome, returned, panicked, if◌then◌else◌, ltb,
}
use c5store.Base.Exec.{Exec, pure, panic, ◌>>=◌, ◌>>◌}
use c5store.Text.{Str, str_eq, is_empty}
use c5store.Text.Split.{split}
use c5store.Crates.SkipMap.{SkipMap}
use c5store.Crates.ListMultiMap.{ListMultiMap}
use c5store.Value.{C5DataValue}
use c5store.MultiMap as MultiMap
use c5store.MultiMap.{HashsetMultiMap, set_insert}
use c5store.DataStore.{Store, get_data_ref, ref_value}
use c5store.Subscriptions.{Call, notify_value_change}

-- `scheduled_thread_pool::JobHandle`, of which only the presence is asked.
pub data JobHandle : Type 0 where
  job_handle : JobHandle

-- The standard library's `RefCell<Option<JobHandle>>`: the value, the number of shared borrows that
-- are alive, and whether it is borrowed mutably.
pub record HandleCell : Type 0 where
  pub handle : Option JobHandle
  pub readers : ℕ
  pub writer : Bool

pub record ChangeNotifier : Type 0 where
  pub debounce_job_handle : HandleCell
  pub changed_key_paths : List Str
  pub scheduled_jobs : ℕ

abbrev pub new : ChangeNotifier
new = record {
  debounce_job_handle = record { handle = none; readers = 0; writer = false };
  changed_key_paths = [];
  scheduled_jobs = 0;
}

-- A guard of the cell is released when the block ends, by a panic too.
abbrev pub release_after :
    {A : Type 0} → Exec ChangeNotifier A → (ChangeNotifier → ChangeNotifier) → Exec ChangeNotifier A
release_after m release n = let (result, n') = m n in (result, release n')

-- `RefCell::borrow` panics beside a mutable borrow.
abbrev pub borrow : Exec ChangeNotifier (Option JobHandle)
borrow n =
    let cell = n.debounce_job_handle in
    if cell.writer then (panicked, n) else (
      returned cell.handle,
      record n { debounce_job_handle = record cell { readers = cell.readers + 1 } },
    )

abbrev pub drop_borrow : ChangeNotifier → ChangeNotifier
drop_borrow n =
    let cell = n.debounce_job_handle in
    record n { debounce_job_handle = record cell { readers = cell.readers - 1 } }

-- `RefCell::replace` and `RefCell::take` borrow mutably for a moment: they panic beside any borrow.
abbrev pub replace : Option JobHandle → Exec ChangeNotifier (Option JobHandle)
replace handle n =
    let cell = n.debounce_job_handle in
    if cell.writer || ltb 0 cell.readers
    then (panicked, n)
    else (returned cell.handle, record n { debounce_job_handle = record cell { handle = handle } })

abbrev pub insert_changed : Str → Exec ChangeNotifier (Unit {0})
insert_changed key n =
    (returned tt, record n { changed_key_paths = set_insert key n.changed_key_paths })

-- `ScheduledThreadPool::execute_after`
abbrev pub execute_after : Exec ChangeNotifier JobHandle
execute_after n = (returned job_handle, record n { scheduled_jobs = n.scheduled_jobs + 1 })

-- The body of `if job_handle_borrow.is_none()`: the argument of `replace` is computed before it.
abbrev pub schedule_unless : Option JobHandle → Exec ChangeNotifier (Unit {0})
schedule_unless none = do job ← execute_after; old ← replace (some job); pure tt
schedule_unless (some job) = pure tt

-- `job_handle_borrow`, the guard of the first borrow, lives until the function returns.
unfoldable pub notify_changed : Str → Exec ChangeNotifier (Unit {0})
notify_changed key = do
  job_handle_borrow ← borrow
  release_after (do insert_changed key; schedule_unless job_handle_borrow) drop_borrow

-- The loop over the parts of a changed key path: the path itself and what leads to it.
unfoldable pub ancestor_paths : Str → List Str → List Str
ancestor_paths key_ancestor_path [] = []
ancestor_paths key_ancestor_path (part ∷ parts) =
    let path =
      (if is_empty key_ancestor_path then [] else key_ancestor_path ++ (b'.' ∷ [])) ++ part in
    path ∷ ancestor_paths path parts

abbrev pub insert_paths : Str → List Str → HashsetMultiMap Str Str → HashsetMultiMap Str Str
insert_paths changed [] m = m
insert_paths changed (path ∷ paths) m = insert_paths changed paths (MultiMap.insert changed path m)

-- The multimap from each changed key path to the paths whose subscribers are told.
unfoldable pub dedupe : List Str → HashsetMultiMap Str Str → HashsetMultiMap Str Str
unfolding ancestor_paths
dedupe [] m = m
dedupe (changed ∷ more) m =
    dedupe more
      (insert_paths changed (ancestor_paths [] (split changed)) (MultiMap.insert changed changed m))

module _ {L : Type 0} (s : SkipMap C5DataValue) (sha256 : List ℕ → List ℕ)
    (m : ListMultiMap L) where
  abbrev pub tell : m.Map → Str → C5DataValue → List Str → List (Call L)
  tell subscriptions changed value [] = []
  tell subscriptions changed value (path ∷ paths) =
      notify_value_change m subscriptions path changed value
      ++ tell subscriptions changed value paths

  -- The second loop of the job. A changed key path that has no value any more is passed over.
  unfoldable pub deliver : Store s sha256 → m.Map → List (Str × List Str) → Outcome (List (Call L))
  deliver datastore subscriptions [] = returned []
  deliver datastore subscriptions ((changed, paths) ∷ entries) =
      let later = deliver datastore subscriptions entries in
      elim (get_data_ref s sha256 datastore changed) [
        | none ↦ later
        | some value_ref ↦ elim (ref_value s sha256 datastore value_ref) [
          | none ↦ panicked
          | some value ↦ elim later [
            | panicked ↦ panicked
            | returned calls ↦ returned (tell subscriptions changed value paths ++ calls)
          ]
        ]
      ]

  abbrev pub changed_paths : Exec ChangeNotifier (List Str)
  changed_paths n = (returned n.changed_key_paths, n)

  -- The job that the thread pool runs.
  unfoldable pub run_job : Store s sha256 → m.Map → Exec ChangeNotifier (List (Call L))
  unfolding dedupe
  run_job datastore subscriptions = do
    taken ← replace none
    paths ← changed_paths
    let entries = dedupe paths MultiMap.new
    λ n. (deliver datastore subscriptions entries.inner_map, n)
