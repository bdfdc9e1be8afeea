-- ===== src/Manager/Jobs.antt =====
-- The jobs of the manager over any calls (`C5StoreMgr` of c5store_rust/src/lib.rs).
use c5store.Base.{
  ℕ, zero, suc, nat_eq, ◌≡◌, refl, ap, sym, subst, true, inl, inr, Option, none, some, is_some,
  List, [], ◌∷◌, Outcome, returned, panicked, In, arith,
}
use c5store.Base.Exec.{Exec}
use c5store.Text.{Str, str_eq}
use c5store.HashMap
use c5store.Crates.ListMultiMap.{ListMultiMap}
use c5store.Value.{C5DataValue}
use c5store.Manager.{
  ValueProvider, C5StoreMgr, new, schedule, installed, install_registered, install_provided,
  run_refresh, cancel, cancel_all, drop, register_all, set_value_provider,
}

-- The handle of each job is kept, and each job has a provider to refresh.
abbrev pub AllKept :
    {S : Type 0} → List ℕ → List (Str × Exec S (Unit {0})) → List (ℕ × Str) → Type 0
AllKept handles providers [] = Unit
AllKept handles providers ((job, name) ∷ jobs) =
    In job handles
    × (is_some (HashMap.lookup name providers) ≡ true)
    × AllKept handles providers jobs

module _ {S P : Type 0} where
  abbrev pub IsTracked : C5StoreMgr S P → Type 0
  IsTracked mgr = AllKept mgr.scheduled_provider_job_handles mgr.value_providers mgr.scheduled_jobs

module _ {S : Type 0} where
  AllKept-insert :
      (name : Str) (hydrate : Exec S (Unit {0})) (handles : List ℕ)
      (providers : List (Str × Exec S (Unit {0}))) (jobs : List (ℕ × Str))
      → AllKept handles providers jobs
      → AllKept handles (HashMap.insert name hydrate providers) jobs
  AllKept-insert name hydrate handles providers [] h = tt
  AllKept-insert name hydrate handles providers ((job, other) ∷ jobs) h = (
    h.0,
    ground (arith, HashMap.lookup-insert name other hydrate providers, h.1),
    AllKept-insert name hydrate handles providers jobs h.2,
  )

  AllKept-handle :
      (handle : ℕ) (handles : List ℕ) (providers : List (Str × Exec S (Unit {0})))
      (jobs : List (ℕ × Str))
      → AllKept handles providers jobs
      → AllKept (handle ∷ handles) providers jobs
  AllKept-handle handle handles providers [] h = tt
  AllKept-handle handle handles providers ((job, other) ∷ jobs) h =
      (inr h.0, h.1, AllKept-handle handle handles providers jobs h.2)

  AllKept-cancel :
      (handle : ℕ) (handles : List ℕ) (providers : List (Str × Exec S (Unit {0})))
      (jobs : List (ℕ × Str))
      → AllKept (handle ∷ handles) providers jobs
      → AllKept handles providers (cancel handle jobs)
  unfolding cancel
  AllKept-cancel handle handles providers [] h = tt
  AllKept-cancel handle handles providers ((job, name) ∷ jobs) h =
      ground (arith, AllKept-cancel handle handles providers jobs h.2)

  cancel_all-AllKept :
      (handles : List ℕ) (providers : List (Str × Exec S (Unit {0}))) (jobs : List (ℕ × Str))
      → AllKept handles providers jobs
      → cancel_all handles jobs ≡ []
  unfolding cancel_all
  cancel_all-AllKept [] providers [] h = refl
  cancel_all-AllKept [] providers ((job, name) ∷ jobs) h = elim h.0 [ ]
  cancel_all-AllKept (handle ∷ handles) providers jobs h =
      cancel_all-AllKept handles providers (cancel handle jobs)
        (AllKept-cancel handle handles providers jobs h)

module _ {S P : Type 0} where
  schedule-IsTracked :
      (name : Str) (period : ℕ) (mgr : C5StoreMgr S P)
      → is_some (HashMap.lookup name mgr.value_providers) ≡ true
      → IsTracked mgr
      → IsTracked (schedule name period mgr)
  schedule-IsTracked name zero mgr there h = h
  schedule-IsTracked name (suc period) mgr there h = (
    inl refl,
    there,
    AllKept-handle mgr.next_job mgr.scheduled_provider_job_handles mgr.value_providers
        mgr.scheduled_jobs h,
  )

  installed-IsTracked :
      (name : Str) (period : ℕ) (hydrate : Exec S (Unit {0})) (result : Outcome (Unit {0}))
      (mgr : C5StoreMgr S P)
      → IsTracked mgr
      → IsTracked (installed name period hydrate result mgr).1
  installed-IsTracked name period hydrate panicked mgr h = h
  installed-IsTracked name period hydrate (returned u) mgr h =
      schedule-IsTracked name period
        (record mgr { value_providers = HashMap.insert name hydrate mgr.value_providers })
        (ground (arith, HashMap.lookup-insert_self name hydrate mgr.value_providers))
        (AllKept-insert name hydrate mgr.scheduled_provider_job_handles mgr.value_providers
          mgr.scheduled_jobs h)

module _ {S : Type 0} (pm : ListMultiMap C5DataValue) where
  -- A call of `set_value_provider` for a provider of any kind, or the run of a job.
  pub data Step (t u : S × C5StoreMgr S pm.Map) : Type 1 where
    sets :
        {Self : Type 0} (ops : ValueProvider S Self) (name : Str) (provider : Self) (period : ℕ)
        → u ≡ (set_value_provider ops pm name provider period t).1
        → Step t u
    refreshes :
        (job : ℕ) (name : Str)
        → In {A = ℕ × Str} (job, name) t.1.scheduled_jobs
        → u ≡ (run_refresh name t).1
        → Step t u

  pub data Reach (t : S × C5StoreMgr S pm.Map) : S × C5StoreMgr S pm.Map → Type 1 where
    here : Reach t t
    next : {u w : S × C5StoreMgr S pm.Map} → Reach t u → Step u w → Reach t w

  registered-IsTracked :
      {Self : Type 0} (ops : ValueProvider S Self) (name : Str) (period : ℕ)
      (registered : Outcome Self) (t : S × C5StoreMgr S pm.Map)
      → IsTracked t.1
      → IsTracked (install_registered ops name period registered t).1.1
  registered-IsTracked ops name period panicked t h = h
  registered-IsTracked ops name period (returned p) (store, mgr) h =
      installed-IsTracked name period (ops.hydrate p) (ops.hydrate p store).0 mgr h

  provided-IsTracked :
      {Self : Type 0} (ops : ValueProvider S Self) (name : Str) (provider : Self) (period : ℕ)
      (provided : Option (List C5DataValue)) (t : S × C5StoreMgr S pm.Map)
      → IsTracked t.1
      → IsTracked (install_provided ops name provider period provided t).1.1
  provided-IsTracked ops name provider period none t h = h
  provided-IsTracked ops name provider period (some values) t h =
      registered-IsTracked ops name period (register_all ops provider values) t h

  refresh-mgr : (name : Str) (t : S × C5StoreMgr S pm.Map) → (run_refresh name t).1.1 ≡ t.1
  unfolding run_refresh
  refresh-mgr name (store, mgr) = ground arith

  Step-IsTracked : {t u : S × C5StoreMgr S pm.Map} → Step t u → IsTracked t.1 → IsTracked u.1
  unfolding set_value_provider
  Step-IsTracked {t} (sets ops name provider period e) h =
      rw e (provided-IsTracked ops name provider period (pm.get_vec name t.1.provided_data) t h)
  Step-IsTracked {t} (refreshes job name i e) h = rw (e, refresh-mgr name t) h

  Reach-IsTracked : {t u : S × C5StoreMgr S pm.Map} → Reach t u → IsTracked t.1 → IsTracked u.1
  Reach-IsTracked here h = h
  Reach-IsTracked (next r st) h = Step-IsTracked st (Reach-IsTracked r h)

  has_provider :
      (job : ℕ) (name : Str) (handles : List ℕ) (providers : List (Str × Exec S (Unit {0})))
      (jobs : List (ℕ × Str))
      → AllKept handles providers jobs
      → In {A = ℕ × Str} (job, name) jobs
      → is_some (HashMap.lookup name providers) ≡ true
  has_provider job name handles providers [] h i = elim i [ ]
  has_provider job name handles providers ((j, other) ∷ jobs) h (inl e) =
      subst (λ p. is_some (HashMap.lookup p providers) ≡ true) (sym (ap (λ p. p.1) e)) h.1
  has_provider job name handles providers ((j, other) ∷ jobs) h (inr i) =
      has_provider job name handles providers jobs h.2 i

  -- After any calls and jobs on a new manager, each scheduled job finds a provider to refresh, and
  -- dropping the manager leaves no job scheduled.
  pub jobs_tracked :
      (provided_data : pm.Map) {store : S} {t : S × C5StoreMgr S pm.Map}
      → Reach (store, new provided_data) t
      → ((job : ℕ) (name : Str)
          → In {A = ℕ × Str} (job, name) t.1.scheduled_jobs
          → is_some (HashMap.lookup name t.1.value_providers) ≡ true)
        × ((drop t.1).scheduled_jobs ≡ [])
  unfolding new drop
  jobs_tracked provided_data {t = t} r =
      let h = Reach-IsTracked r tt in
      (
        λ job name i.
            has_provider job name t.1.scheduled_provider_job_handles t.1.value_providers
              t.1.scheduled_jobs h i,
        cancel_all-AllKept t.1.scheduled_provider_job_handles t.1.value_providers t.1.scheduled_jobs
            h,
      )
