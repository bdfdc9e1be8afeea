-- ===== src/C5Store/Threads/Steps.antt =====
-- The steps of `set_data_fn` that write (c5store_rust/src/lib.rs).
use c5store.Base.{ℕ, false, ◌≡◌, refl, List, arith}
use c5store.Text.{Str, str_eq, ends_with}
use c5store.Crates.SkipMap.{SkipMap, IsLawful}
use c5store.Crates.ListMultiMap.{ListMultiMap}
use c5store.Value.{C5DataValue}
use c5store.DataStore.{set_data}
use c5store.DataStore.Plain.{set_data_plain}
use c5store.C5Store.{State}
use c5store.Notifier.Debounce.{IsIdle, notify_changed-idle}
use c5store.C5Store.SetData.{with_change}
use c5store.C5Store.Threads.{absent, different, written, finished, failed, set_data_step}

module _ {L : Type 0} (s : SkipMap C5DataValue) (lawful : IsLawful s) (sha256 : List ℕ → List ℕ)
    (m : ListMultiMap L) where
  pub step_absent :
      (key : Str) (value : C5DataValue) (a : State s sha256 m)
      → ends_with key a.data_store.secret_key_path_segment ≡ false
      → set_data_step s sha256 m key value absent a
        ≡ (finished, record a { data_store = (set_data s sha256 a.data_store key value).1 })
  unfolding set_data_step
  step_absent key value a plain =
      let (ret, reads, cache) = set_data_plain s lawful sha256 a.data_store key value plain in
      ground arith

  pub step_different :
      (key : Str) (value : C5DataValue) (a : State s sha256 m)
      → ends_with key a.data_store.secret_key_path_segment ≡ false
      → set_data_step s sha256 m key value different a
        ≡ (written, record a { data_store = (set_data s sha256 a.data_store key value).1 })
  unfolding set_data_step
  step_different key value a plain =
      let (ret, reads, cache) = set_data_plain s lawful sha256 a.data_store key value plain in
      ground arith

  pub step_written :
      (key : Str) (value : C5DataValue) (a : State s sha256 m)
      → IsIdle a.notifier
      → set_data_step s sha256 m key value written a
        ≡ (failed, record a { notifier = with_change key a.notifier })
  unfolding set_data_step
  step_written key value a i = rw (notify_changed-idle key a.notifier i) refl
