-- ===== src/Tests/Manager.antt =====
-- Runs of the manager of the value providers.
use c5store.Base.{ℕ, ◌+◌, ◌≡◌, refl, true, [], ◌∷◌, is_some, In, returned}
use c5store.Text.{Str, str_eq, bytes_of}
use c5store.HashMap
use c5store.Fixtures.Listeners.{by_function}
use c5store.Crates.ListMultiMap.{ListMultiMap}
use c5store.Value.{C5DataValue, null}
use c5store.Manager.{ValueProvider, C5StoreMgr, new, drop, set_value_provider}
use c5store.Manager.Jobs.{Step, Reach, jobs_tracked}

-- The store counts how often a provider has been hydrated.
abbrev counter : ValueProvider ℕ (Unit {0})
counter = record {
  register = λ self section. returned self;
  unregister = λ self key. self;
  hydrate = λ self store. (returned tt, store + 1);
}

abbrev sections : ListMultiMap C5DataValue
sections = by_function C5DataValue

abbrev provided : sections.Map
provided = sections.insert (bytes_of "p") null sections.new

abbrev State : Type 0
State = ℕ × C5StoreMgr ℕ sections.Map

unfoldable started : State
unfolding new
started = (0, new provided)

unfoldable scheduled : State
unfolding started
scheduled = (set_value_provider counter sections (bytes_of "p") tt 5 started).1

Reach-scheduled : Reach sections (0, new provided) scheduled
unfolding scheduled started
Reach-scheduled = Reach.next Reach.here (Step.sets counter (bytes_of "p") tt 5 refl)

jobs_tracked_example :
    ((job : ℕ) (name : Str)
      → In {A = ℕ × Str} (job, name) scheduled.1.scheduled_jobs
      → is_some (HashMap.lookup name scheduled.1.value_providers) ≡ true)
    × ((drop scheduled.1).scheduled_jobs ≡ [])
jobs_tracked_example = jobs_tracked sections provided Reach-scheduled

one_job : scheduled.1.scheduled_jobs ≡ (0, bytes_of "p") ∷ []
unfolding scheduled started set_value_provider str_eq new
one_job = refl
