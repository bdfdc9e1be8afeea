-- ===== src/C5Store/Threads/Reached.antt =====
-- What any number of threads that run `set_data_fn` (c5store_rust/src/lib.rs) leave behind.
use c5store.Base.{ℕ, ◌≡◌, refl, sym, ◌∙◌, Bool, false, ◌==◌, ◌&&◌, ◌||◌, List, [], ◌∷◌, ◌++◌, arith}
use c5store.Text.{Str, str_eq, ends_with}
use c5store.Crates.SkipMap.{SkipMap, IsLawful}
use c5store.Crates.ListMultiMap.{ListMultiMap}
use c5store.Value.{C5DataValue}
use c5store.MultiMap.{set_contains}
use c5store.Notifier.Debounce.{IsIdle}
use c5store.C5Store.{State}
use c5store.C5Store.Threads.{Stage, set_data_step}
use c5store.C5Store.Threads.Records.{is_failed, step-Keeps}
use c5store.C5Store.Threads.Many.{Thread, AllEntered, System, Step, moves, Reaches, here, onward}

-- A thread with this key has ended in a panic.
abbrev pub any_failed : Str → List Thread → Bool
any_failed j [] = false
any_failed j (t ∷ threads) = (t.key == j && is_failed t.stage) || any_failed j threads

-- No thread sets a secret.
abbrev pub AllPlain : Str → List Thread → Type 0
AllPlain segment [] = Unit
AllPlain segment (t ∷ threads) = (ends_with t.key segment ≡ false) × AllPlain segment threads

any_failed-append :
    (j : Str) (l r : List Thread) → any_failed j (l ++ r) ≡ (any_failed j l || any_failed j r)
any_failed-append j [] r = refl
any_failed-append j (t ∷ l) r = rw (any_failed-append j l r) (ground arith)

pub AllPlain-middle :
    (segment : Str) (before after : List Thread) (t : Thread)
    → AllPlain segment (before ++ (t ∷ after))
    → ends_with t.key segment ≡ false
AllPlain-middle segment [] after t p = p.0
AllPlain-middle segment (b ∷ before) after t p = AllPlain-middle segment before after t p.1

AllPlain-moved :
    (segment : Str) (before after : List Thread) (t : Thread) (next : Stage)
    → AllPlain segment (before ++ (t ∷ after))
    → AllPlain segment (before ++ (record t { stage = next } ∷ after))
AllPlain-moved segment [] after t next p = p
AllPlain-moved segment (b ∷ before) after t next p =
    (p.0, AllPlain-moved segment before after t next p.1)

any_failed-entered :
    (j : Str) (threads : List Thread) → AllEntered threads → any_failed j threads ≡ false
any_failed-entered j [] e = refl
any_failed-entered j (t ∷ threads) e = rw (e.0) (ground (arith, any_failed-entered j threads e.1))

module _ {L : Type 0} (s : SkipMap C5DataValue) (lawful : IsLawful s) (sha256 : List ℕ → List ℕ)
    (m : ListMultiMap L) where
  -- The notifier is idle, no thread sets a secret, and the changed key paths are the old ones and
  -- those of the threads that have failed.
  pub record IsAccounted (old : Str → Bool) (segment : Str) (x : System s sha256 m) : Type 0 where
    pub idle : IsIdle x.1.notifier
    pub segment_is : x.1.data_store.secret_key_path_segment ≡ segment
    pub plain : AllPlain segment x.0
    pub records :
        (j : Str) → set_contains j x.1.notifier.changed_key_paths ≡ (old j || any_failed j x.0)

  pub Step-IsAccounted :
      (old : Str → Bool) (segment : Str) {x y : System s sha256 m}
      → Step s sha256 m x y
      → IsAccounted old segment x
      → IsAccounted old segment y
  Step-IsAccounted old segment (moves before after t a h) i =
      let r = set_data_step s sha256 m t.key t.value t.stage a in
      let p = AllPlain-middle segment before after t i.plain in
      let k =
        step-Keeps s lawful sha256 m t.key t.value t.stage a i.idle (rw (sym i.segment_is) at p) in
      record {
        idle = k.idle;
        segment_is = k.segment ∙ i.segment_is;
        plain = AllPlain-moved segment before after t r.0 i.plain;
        records = λ j.
            k.records j
            ∙ rw (any_failed-append j before (record t { stage = r.0 } ∷ after))
                (ground (arith, i.records j, any_failed-append j before (t ∷ after), k.stays));
      }

  pub Reaches-IsAccounted :
      (old : Str → Bool) (segment : Str) {x y : System s sha256 m} {n : ℕ}
      → IsAccounted old segment x
      → Reaches s sha256 m x n y
      → IsAccounted old segment y
  Reaches-IsAccounted old segment i here = i
  Reaches-IsAccounted old segment i (onward r t) =
      Step-IsAccounted old segment t (Reaches-IsAccounted old segment i r)

  pub at_start :
      (threads : List Thread) (a : State s sha256 m)
      → AllEntered threads
      → AllPlain a.data_store.secret_key_path_segment threads
      → IsIdle a.notifier
      → IsAccounted
          (λ k. set_contains k a.notifier.changed_key_paths)
          a.data_store.secret_key_path_segment
          (threads, a)
  at_start threads a e p i = record {
    idle = i;
    segment_is = refl;
    plain = p;
    records = λ k. rw (any_failed-entered k threads e) (ground arith);
  }

  -- Any number of threads that set values under plain keys, while no job handle is stored and no guard
  -- is alive: at every point of every order of their steps, the changed key paths are those of before
  -- and the keys of the threads that have ended in a panic, and no others.
  pub Reaches-records :
      (threads : List Thread) (a : State s sha256 m) (n : ℕ) (y : System s sha256 m) (j : Str)
      → AllEntered threads
      → AllPlain a.data_store.secret_key_path_segment threads
      → IsIdle a.notifier
      → Reaches s sha256 m (threads, a) n y
      → set_contains j y.1.notifier.changed_key_paths
        ≡ (set_contains j a.notifier.changed_key_paths || any_failed j y.0)
  Reaches-records threads a n y j e p i r =
      (Reaches-IsAccounted (λ k. set_contains k a.notifier.changed_key_paths)
          a.data_store.secret_key_path_segment (at_start threads a e p i) r).records
        j
