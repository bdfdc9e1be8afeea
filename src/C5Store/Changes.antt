-- ===== src/C5Store/Changes.antt =====
-- From a change to the listeners: `set_data_fn`, and then the job that it has scheduled
-- (c5store_rust/src/lib.rs).
use c5store.Base.{ℕ, suc, ◌≡◌, refl, ◌∙◌, false, some, List, returned, In, arith, eq_refl}
use c5store.Text.{Str, str_eq, ends_with}
use c5store.Crates.SkipMap.{SkipMap, IsLawful}
use c5store.Crates.ListMultiMap.{ListMultiMap}
use c5store.Value.{C5DataValue}
use c5store.Value.Equality.{value_eq}
use c5store.MultiMap.Laws.{set_contains-set_insert}
use c5store.DataStore.{get_data}
use c5store.Subscriptions.{Call}
use c5store.Notifier.{ChangeNotifier, run_job}
use c5store.Notifier.Ancestors.{IsProper, IsAncestor}
use c5store.Notifier.Debounce.{IsIdle}
use c5store.Notifier.Delivery.{call_of, job_reaches_listeners}
use c5store.C5Store.{State, set_data_fn}
use c5store.C5Store.SetData.{with_change, set_data_fn_changed}

before_job-IsIdle :
    (key : Str) (n n' : ChangeNotifier)
    → n' ≡ with_change key n
    → IsIdle n
    → IsIdle (record n' { scheduled_jobs = n.scheduled_jobs })
before_job-IsIdle key n n' note i =
    rw note (record { no_handle = i.no_handle; no_readers = i.no_readers; no_writer = i.no_writer })

module _ {L : Type 0} (s : SkipMap C5DataValue) (lawful : IsLawful s) (sha256 : List ℕ → List ℕ)
    (m : ListMultiMap L) where
  subscriptions-set_data_fn :
      (a : State s sha256 m) (key : Str) (value : C5DataValue)
      → (set_data_fn s sha256 m key value a).1.subscriptions ≡ a.subscriptions
  unfolding set_data_fn
  subscriptions-set_data_fn a key value = ground arith

  -- A changed value reaches its subscribers: after another value has been set under a plain key
  -- that is not empty and does not begin with a dot, while no job handle is stored and no guard is
  -- alive, the job that this has scheduled returns, and calls every listener of the key, and of
  -- each path that leads to it, with the new value.
  pub change_reaches_listeners :
      (a : State s sha256 m) (key p : Str) (value old : C5DataValue) (l : L) (ls : List L)
      → IsIdle a.notifier
      → ends_with key a.data_store.secret_key_path_segment ≡ false
      → get_data s sha256 a.data_store key ≡ some old
      → value_eq old value ≡ false
      → IsProper key
      → IsProper p
      → IsAncestor p key
      → m.get_vec p a.subscriptions ≡ some ls
      → In l ls
      → let a' = (set_data_fn s sha256 m key value a).1 in
        let n = record a'.notifier { scheduled_jobs = a.notifier.scheduled_jobs } in
        (a'.notifier.scheduled_jobs ≡ suc a.notifier.scheduled_jobs)
        × ((calls : List (Call L)) × ((run_job s sha256 m a'.data_store a'.subscriptions n).0
              ≡ returned calls)
            × In (call_of l p key value) calls)
  change_reaches_listeners a key p value old l ls idle plain there differs hk hp anc subs i =
      let a' = (set_data_fn s sha256 m key value a).1 in
      let (stopped, note, values) =
        set_data_fn_changed s lawful sha256 m a key value old idle plain there differs in
      let n = record a'.notifier { scheduled_jobs = a.notifier.scheduled_jobs } in
      (
        rw note (omega arith),
        job_reaches_listeners s lawful sha256 m n a'.data_store a'.subscriptions l p key value ls
            (before_job-IsIdle key a.notifier a'.notifier note idle)
            (rw note (
              rw (set_contains-set_insert key key a.notifier.changed_key_paths)
                (rw (eq_refl key) refl)))
            (values key ∙ ground (arith, lawful.same_key_refl key)) hk hp anc
            (rw (subscriptions-set_data_fn a key value) subs) i,
      )
