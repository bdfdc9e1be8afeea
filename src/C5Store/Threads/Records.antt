-- ===== src/C5Store/Threads/Records.antt =====
-- What two threads record of their changes (c5store_rust/src/lib.rs).
use c5store.Base.{
  ℕ, Bool, true, false, ◌≡◌, refl, sym, subst, ◌∙◌, ◌==◌, ◌&&◌, ◌||◌, not, Option, none, some, List,
  [], ◌∷◌, if◌then◌else◌, arith,
}
use c5store.Text.{Str, str_eq, ends_with}
use c5store.Crates.SkipMap.{SkipMap, IsLawful}
use c5store.Crates.ListMultiMap.{ListMultiMap}
use c5store.Value.{C5DataValue}
use c5store.DataStore.{exists, get_data, set_data}
use c5store.C5Store.{State}
use c5store.MultiMap.{set_contains}
use c5store.MultiMap.Laws.{set_contains-set_insert}
use c5store.Notifier.{ChangeNotifier}
use c5store.Notifier.Debounce.{IsIdle}
use c5store.C5Store.SetData.{with_change}
use c5store.C5Store.Loading.{segment-set_data}
use c5store.C5Store.Threads.{
  Stage, entered, absent, present, different, written, finished, failed, compared, set_data_step,
  interleave,
}
use c5store.C5Store.Threads.Steps.{step_absent, step_different, step_written}

with_change-IsIdle : (key : Str) (n : ChangeNotifier) → IsIdle n → IsIdle (with_change key n)
with_change-IsIdle key n i = record {
  no_handle = i.no_handle;
  no_readers = i.no_readers;
  no_writer = i.no_writer;
}

abbrev pub is_failed : Stage → Bool
is_failed failed = true
is_failed _ = false

module _ {L : Type 0} (s : SkipMap C5DataValue) (lawful : IsLawful s) (sha256 : List ℕ → List ℕ)
    (m : ListMultiMap L) where
  -- What one step does besides: it keeps the notifier idle and the segment of secrets, and records
  -- its key exactly if it is the one that panics.
  pub record Keeps (key : Str) (stage : Stage) (a : State s sha256 m) (r : Stage × State s sha256 m)
      : Type 0 where
    pub idle : IsIdle r.1.notifier
    pub segment : r.1.data_store.secret_key_path_segment ≡ a.data_store.secret_key_path_segment
    pub stays : is_failed stage ≡ true → is_failed r.0 ≡ true
    pub records :
        (j : Str)
        → set_contains j r.1.notifier.changed_key_paths ≡ (
            set_contains j a.notifier.changed_key_paths
            || (key == j && is_failed r.0 && not (is_failed stage)))

  unmoved :
      (key : Str) (stage next : Stage) (a : State s sha256 m)
      → IsIdle a.notifier
      → is_failed next ≡ is_failed stage
      → Keeps key stage a (next, a)
  unmoved key stage next a i same = record {
    idle = i;
    segment = refl;
    stays = λ f. same ∙ f;
    records = λ j. ground arith;
  }

  wrote :
      (key : Str) (value : C5DataValue) (stage next : Stage) (a : State s sha256 m)
      → IsIdle a.notifier
      → ends_with key a.data_store.secret_key_path_segment ≡ false
      → is_failed stage ≡ false
      → is_failed next ≡ false
      → Keeps key stage a
          (next, record a { data_store = (set_data s sha256 a.data_store key value).1 })
  wrote key value stage next a i plain g f = record {
    idle = i;
    segment = segment-set_data s lawful sha256 m a.data_store key value plain;
    stays = λ h. ground arith;
    records = λ j. ground arith;
  }

  compared-is_failed :
      (value : C5DataValue) (o : Option C5DataValue)
      → is_failed (compared s sha256 m value o) ≡ false
  compared-is_failed value none = refl
  compared-is_failed value (some old) = ground arith

  pub step-Keeps :
      (key : Str) (value : C5DataValue) (stage : Stage) (a : State s sha256 m)
      → IsIdle a.notifier
      → ends_with key a.data_store.secret_key_path_segment ≡ false
      → Keeps key stage a (set_data_step s sha256 m key value stage a)
  unfolding set_data_step
  step-Keeps key value entered a i plain =
      unmoved key entered (if exists s sha256 a.data_store key then present else absent) a i
        (ground arith)
  step-Keeps key value absent a i plain =
      subst (Keeps key absent a) (sym (step_absent s lawful sha256 m key value a plain))
        (wrote key value absent finished a i plain refl refl)
  step-Keeps key value present a i plain =
      unmoved key present (compared s sha256 m value (get_data s sha256 a.data_store key)) a i
        (compared-is_failed value (get_data s sha256 a.data_store key))
  step-Keeps key value different a i plain =
      subst (Keeps key different a) (sym (step_different s lawful sha256 m key value a plain))
        (wrote key value different written a i plain refl refl)
  step-Keeps key value written a i plain =
      subst (Keeps key written a) (sym (step_written s lawful sha256 m key value a i)) (record {
        idle = with_change-IsIdle key a.notifier i;
        segment = refl;
        stays = λ h. refl;
        records =
            λ j. rw (set_contains-set_insert key j a.notifier.changed_key_paths) (ground arith);
      })
  step-Keeps key value finished a i plain = unmoved key finished finished a i refl
  step-Keeps key value failed a i plain = unmoved key failed failed a i refl

  -- The changed key paths are those of before and those of the threads that have failed.
  abbrev Recorded : (Str → Bool) → Str → Str → Stage × Stage × State s sha256 m → Type 0
  Recorded old key key' (x, y, a) =
      (j : Str)
      → set_contains j a.notifier.changed_key_paths
        ≡ (old j || (key == j && is_failed x) || (key' == j && is_failed y))

  interleave-Recorded :
      (old : Str → Bool) (key : Str) (value : C5DataValue) (key' : Str) (value' : C5DataValue)
      (order : List Bool) (x y : Stage) (a : State s sha256 m)
      → IsIdle a.notifier
      → ends_with key a.data_store.secret_key_path_segment ≡ false
      → ends_with key' a.data_store.secret_key_path_segment ≡ false
      → Recorded old key key' (x, y, a)
      → Recorded old key key' (interleave s sha256 m key value key' value' order (x, y, a))
  unfolding interleave
  interleave-Recorded old key value key' value' [] x y a i p p' h = h
  interleave-Recorded old key value key' value' (true ∷ order) x y a i p p' h =
      let r = set_data_step s sha256 m key value x a in
      let k = step-Keeps key value x a i p in
      interleave-Recorded old key value key' value' order r.0 y r.1 k.idle (rw k.segment p)
        (rw k.segment p') (λ j. k.records j ∙ ground (arith, h j, k.stays))
  interleave-Recorded old key value key' value' (false ∷ order) x y a i p p' h =
      let r = set_data_step s sha256 m key' value' y a in
      let k = step-Keeps key' value' y a i p' in
      interleave-Recorded old key value key' value' order x r.0 r.1 k.idle (rw k.segment p)
        (rw k.segment p') (λ j. k.records j ∙ ground (arith, h j, k.stays))

  -- Two threads that set values under plain keys, while no job handle is stored and no guard is alive:
  -- in whatever order their steps come, the changed key paths are then those of before, and the keys
  -- of the threads that have ended in a panic, and no others.
  pub interleave_records :
      (order : List Bool) (key : Str) (value : C5DataValue) (key' : Str) (value' : C5DataValue)
      (a : State s sha256 m) (j : Str)
      → IsIdle a.notifier
      → ends_with key a.data_store.secret_key_path_segment ≡ false
      → ends_with key' a.data_store.secret_key_path_segment ≡ false
      → let (x, y, a') = interleave s sha256 m key value key' value' order (entered, entered, a) in
        set_contains j a'.notifier.changed_key_paths ≡ (
          set_contains j a.notifier.changed_key_paths
          || (key == j && is_failed x)
          || (key' == j && is_failed y))
  interleave_records order key value key' value' a j i p p' =
      interleave-Recorded (λ j. set_contains j a.notifier.changed_key_paths) key value key' value'
        order entered entered a i p p' (λ k. ground arith) j
