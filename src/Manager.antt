-- ===== src/Manager.antt =====
-- `C5StoreMgr` of c5store_rust/src/lib.rs: the value providers and the jobs that refresh them. The
-- thread pool leaves the jobs that are scheduled, each known by a number; a job may run at any later
-- step. The manager acts on the store, whose state is the type `S`.
pub mod Jobs
use c5store.Base.{
  ℕ, zero, suc, ◌+◌, ◌==◌, nat_eq, Option, none, some, List, [], ◌∷◌, Outcome, returned, panicked,
  ◌>>=◌, if◌then◌else◌,
}
use c5store.Base.Exec.{Exec}
use c5store.Text.{Str, str_eq}
use c5store.HashMap
use c5store.Crates.ListMultiMap.{ListMultiMap}
use c5store.Value.{C5DataValue}

-- `trait C5ValueProvider`, with the `set_data_fn` that `hydrate` is given.
pub record ValueProvider (S Self : Type 0) : Type 0 where
  pub register : Self → C5DataValue → Outcome Self
  pub unregister : Self → Str → Self
  pub hydrate : Self → Exec S (Unit {0})

-- A provider that is set is only hydrated, so this is what `value_providers` keeps of it. The handles
-- of jobs stand with the last one first.
pub record C5StoreMgr (S P : Type 0) : Type 0 where
  pub value_providers : List (Str × Exec S (Unit {0}))
  pub scheduled_jobs : List (ℕ × Str)
  pub next_job : ℕ
  pub scheduled_provider_job_handles : List ℕ
  pub provided_data : P

-- `JobHandle::cancel`
unfoldable pub cancel : ℕ → List (ℕ × Str) → List (ℕ × Str)
cancel handle [] = []
cancel handle ((job, name) ∷ jobs) =
    let rest = cancel handle jobs in if job == handle then rest else (job, name) ∷ rest

unfoldable pub cancel_all : List ℕ → List (ℕ × Str) → List (ℕ × Str)
unfolding cancel
cancel_all [] jobs = jobs
cancel_all (handle ∷ handles) jobs = cancel_all handles (cancel handle jobs)

module _ {S P : Type 0} where
  unfoldable pub new : P → C5StoreMgr S P
  new provided_data = record {
    value_providers = [];
    scheduled_jobs = [];
    next_job = 0;
    scheduled_provider_job_handles = [];
    provided_data = provided_data;
  }

  -- `execute_at_fixed_rate`, if there is a period, and the `push` of the handle.
  abbrev pub schedule : Str → ℕ → C5StoreMgr S P → C5StoreMgr S P
  schedule name zero mgr = mgr
  schedule name (suc period) mgr = record mgr {
    scheduled_jobs = (mgr.next_job, name) ∷ mgr.scheduled_jobs;
    next_job = mgr.next_job + 1;
    scheduled_provider_job_handles = mgr.next_job ∷ mgr.scheduled_provider_job_handles;
  }

  -- What follows the hydration.
  abbrev pub installed :
      Str
      → ℕ
      → Exec S (Unit {0})
      → Outcome (Unit {0})
      → C5StoreMgr S P
      → Outcome (Unit {0}) × C5StoreMgr S P
  installed name refresh_period_sec hydrate panicked mgr = (panicked, mgr)
  installed name refresh_period_sec hydrate (returned u) mgr = (
    returned tt,
    schedule name refresh_period_sec
        (record mgr { value_providers = HashMap.insert name hydrate mgr.value_providers }),
  )

  -- The provider is hydrated first, and put into the table and scheduled behind that.
  abbrev pub install : Str → ℕ → Exec S (Unit {0}) → Exec (S × C5StoreMgr S P) (Unit {0})
  install name refresh_period_sec hydrate (store, mgr) =
      let (result, store') = hydrate store in
      let (result', mgr') = installed name refresh_period_sec hydrate result mgr in
      (result', (store', mgr'))

  -- The job of a provider. A name that has no provider is passed over.
  unfoldable pub run_refresh : Str → Exec (S × C5StoreMgr S P) (Unit {0})
  run_refresh name (store, mgr) = elim (HashMap.lookup name mgr.value_providers) [
    | none ↦ (returned tt, (store, mgr))
    | some hydrate ↦ let (result, store') = hydrate store in (result, (store', mgr))
  ]

  -- `Drop for C5StoreMgr`
  unfoldable pub drop : C5StoreMgr S P → C5StoreMgr S P
  unfolding cancel_all
  drop mgr = record mgr {
    scheduled_jobs = cancel_all mgr.scheduled_provider_job_handles mgr.scheduled_jobs;
    scheduled_provider_job_handles = [];
  }

module _ {S Self : Type 0} (ops : ValueProvider S Self) where
  unfoldable pub register_all : Self → List C5DataValue → Outcome Self
  register_all value_provider [] = returned value_provider
  register_all value_provider (p_data ∷ provided_data) = do
    registered ← ops.register value_provider p_data
    register_all registered provided_data

  abbrev pub install_registered :
      {P : Type 0} → Str → ℕ → Outcome Self → Exec (S × C5StoreMgr S P) (Unit {0})
  install_registered name refresh_period_sec panicked t = (panicked, t)
  install_registered name refresh_period_sec (returned registered) t =
      install name refresh_period_sec (ops.hydrate registered) t

  -- A provider for which there is nothing to provide is dropped with a warning.
  abbrev pub install_provided :
      {P : Type 0}
      → Str
      → Self
      → ℕ
      → Option (List C5DataValue)
      → Exec (S × C5StoreMgr S P) (Unit {0})
  install_provided name value_provider refresh_period_sec none t = (returned tt, t)
  install_provided name value_provider refresh_period_sec (some provided_data) t =
      install_registered name refresh_period_sec (register_all value_provider provided_data) t

  unfoldable pub set_value_provider :
      (pm : ListMultiMap C5DataValue) → Str → Self → ℕ → Exec (S × C5StoreMgr S pm.Map) (Unit {0})
  unfolding register_all
  set_value_provider pm name value_provider refresh_period_sec t =
      install_provided name value_provider refresh_period_sec (pm.get_vec name t.1.provided_data) t
