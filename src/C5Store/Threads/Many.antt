-- ===== src/C5Store/Threads/Many.antt =====
-- Any number of threads that run `set_data_fn` (c5store_rust/src/lib.rs), as a relation between what one
-- step finds and what it leaves, and what is reached by steps one after the other.
use c5store.Base.{
  ℕ, suc, ◌+◌, ◌*◌, ◌≤◌, ◌≡◌, refl, subst, Bool, true, false, Option, none, some, List, [], ◌∷◌,
  ◌++◌, append_assoc, arith, length, Outcome, returned, panicked, ◌⊎◌, inl, inr, Bool-cases,
}
use c5store.Text.{Str}
use c5store.Crates.SkipMap.{SkipMap}
use c5store.Crates.ListMultiMap.{ListMultiMap}
use c5store.Value.{C5DataValue}
use c5store.DataStore.{get_data}
use c5store.C5Store.{State, set_value, on_notifier}
use c5store.Notifier.{notify_changed}
use c5store.C5Store.Threads.{
  Stage, entered, absent, present, different, written, finished, failed, compared, behind,
  set_data_step,
}

-- A call of `set_data_fn`.
pub record Thread : Type 0 where
  pub key : Str
  pub value : C5DataValue
  pub stage : Stage

abbrev pub has_ended : Stage → Bool
has_ended finished = true
has_ended failed = true
has_ended _ = false

-- How many steps are left at most.
abbrev pub left : Stage → ℕ
left entered = 4
left absent = 1
left present = 3
left different = 2
left written = 1
left finished = 0
left failed = 0

abbrev pub all_left : List Thread → ℕ
all_left [] = 0
all_left (t ∷ threads) = left t.stage + all_left threads

abbrev pub AllEntered : List Thread → Type 0
AllEntered [] = Unit
AllEntered (t ∷ threads) = (t.stage ≡ entered) × AllEntered threads

module _ {L : Type 0} (s : SkipMap C5DataValue) (sha256 : List ℕ → List ℕ)
    (m : ListMultiMap L) where
  abbrev pub System : Type 0
  System = List Thread × State s sha256 m

  -- One of the threads that have not ended makes its next call.
  pub data Step : System → System → Type 0 where
    moves :
        (before after : List Thread) (t : Thread) (a : State s sha256 m)
        → has_ended t.stage ≡ false
        → Step
            (before ++ (t ∷ after), a)
            (let r = set_data_step s sha256 m t.key t.value t.stage a in
              (before ++ (record t { stage = r.0 } ∷ after), r.1))

  -- So many steps lead from the one to the other.
  pub data Reaches (x : System) : ℕ → System → Type 0 where
    here : Reaches x 0 x
    onward : {n : ℕ} {y z : System} → Reaches x n y → Step y z → Reaches x (suc n) z

  left-behind :
      {A : Type 0} (next : Stage) (r : Outcome A × State s sha256 m)
      → left (behind s sha256 m next r).0 ≤ left next
  left-behind next (returned x, a) = omega arith
  left-behind next (panicked, a) = omega arith

  left-compared :
      (value : C5DataValue) (o : Option C5DataValue) → left (compared s sha256 m value o) ≤ 2
  left-compared value none = omega arith
  left-compared value (some old) = ground arith

  step_lowers :
      (key : Str) (value : C5DataValue) (stage : Stage) (a : State s sha256 m)
      → has_ended stage ≡ false
      → suc (left (set_data_step s sha256 m key value stage a).0) ≤ left stage
  unfolding set_data_step
  step_lowers key value entered a h = ground arith
  step_lowers key value absent a h =
      ground (arith, left-behind finished (set_value s sha256 m key value a))
  step_lowers key value present a h =
      ground (arith, left-compared value (get_data s sha256 a.data_store key))
  step_lowers key value different a h =
      ground (arith, left-behind written (set_value s sha256 m key value a))
  step_lowers key value written a h =
      ground (arith, left-behind finished (on_notifier s sha256 m (notify_changed key) a))
  step_lowers key value finished a h = cc
  step_lowers key value failed a h = cc

  all_left-append : (l r : List Thread) → all_left (l ++ r) ≡ all_left l + all_left r
  all_left-append [] r = omega arith
  all_left-append (t ∷ l) r = rw (all_left-append l r) (omega arith)

  Step-lowers : {x y : System} → Step x y → suc (all_left y.0) ≤ all_left x.0
  Step-lowers (moves before after t a h) =
      let r = set_data_step s sha256 m t.key t.value t.stage a in
      rw
        (
          all_left-append before (t ∷ after),
          all_left-append before (record t { stage = r.0 } ∷ after),
        )
        (omega (arith, step_lowers t.key t.value t.stage a h))

  pub Reaches-lowers : {x y : System} {n : ℕ} → Reaches x n y → n + all_left y.0 ≤ all_left x.0
  Reaches-lowers here = omega arith
  Reaches-lowers (onward r t) = omega (arith, Reaches-lowers r, Step-lowers t)

  all_left-entered :
      (threads : List Thread) → AllEntered threads → all_left threads ≡ 4 * length threads
  all_left-entered [] e = refl
  all_left-entered (t ∷ threads) e = rw (e.0) (omega (arith, all_left-entered threads e.1))

  abbrev pub AllEnded : List Thread → Type 0
  AllEnded [] = Unit
  AllEnded (t ∷ threads) = (has_ended t.stage ≡ true) × AllEnded threads

  -- A thread that has not ended can go on.
  can_move :
      (before threads : List Thread) (a : State s sha256 m)
      → AllEnded threads ⊎ ((y : System) × Step (before ++ threads, a) y)
  can_move before [] a = inl tt
  can_move before (t ∷ threads) a = elim (Bool-cases (has_ended t.stage)) [
    | inr goes_on ↦ inr (moved t threads, moves before threads t a goes_on)
    | inl ends ↦ elim (can_move (before ++ (t ∷ [])) threads a) [
      | inl rest ↦ inl (ends, rest)
      | inr (y, step) ↦
          inr (y, subst (λ l. Step (l, a) y) (append_assoc before (t ∷ []) threads) step)
    ]
  ]
    where
      moved : Thread → List Thread → System
      moved t threads =
          let r = set_data_step s sha256 m t.key t.value t.stage a in
          (before ++ (record t { stage = r.0 } ∷ threads), r.1)

  -- Threads that start together end: however their steps come one after the other, these are at most
  -- four for each thread, and as long as one has not ended a further step can be made.
  pub Reaches-ends :
      (threads : List Thread) (a : State s sha256 m) (n : ℕ) (y : System)
      → AllEntered threads
      → Reaches (threads, a) n y
      → (n ≤ 4 * length threads) × (AllEnded y.0 ⊎ ((z : System) × Step y z))
  Reaches-ends threads a n y e r =
      (omega (arith, Reaches-lowers r, all_left-entered threads e), can_move [] y.0 y.1)
