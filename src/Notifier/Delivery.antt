-- ===== src/Notifier/Delivery.antt =====
-- The calls that a job of the notifier makes (c5store_rust/src/lib.rs).
use c5store.Base.{
  ℕ, ◌≡◌, refl, ap, sym, subst, inl, inr, true, Bool-cases, Option, none, some, List, [], ◌∷◌, ◌++◌,
  ◌==◌, eq_iff, returned, arith, In, In-append_left, In-append_right,
}
use c5store.Text.{Str, str_eq}
use c5store.HashMap
use c5store.Crates.SkipMap.{SkipMap, IsLawful}
use c5store.Crates.ListMultiMap.{ListMultiMap}
use c5store.Value.{C5DataValue}
use c5store.MultiMap as MultiMap
use c5store.MultiMap.{set_contains}
use c5store.MultiMap.Laws.{holds}
use c5store.DataStore.{Store, get_data, get_data_ref, ref_value}
use c5store.Subscriptions.{Call, call_all, notify_value_change}
use c5store.Notifier.{ChangeNotifier, dedupe, tell, deliver, run_job}
use c5store.Notifier.Ancestors.{IsAncestor, IsProper, ancestor_paths_exact}
use c5store.Notifier.Debounce.{IsIdle}
use c5store.Notifier.Pairs.{dedupe_pairs}

-- The call of a listener.
abbrev pub call_of : {L : Type 0} → L → Str → Str → C5DataValue → Call L
call_of l p key v = record { listener = l; notify_key_path = p; key_path = key; value = v }

module _ {L : Type 0} (s : SkipMap C5DataValue) (lawful : IsLawful s) (sha256 : List ℕ → List ℕ)
    (m : ListMultiMap L) where
  -- What is told of the changed key paths before the others.
  abbrev pub told_first : Option C5DataValue → m.Map → Str → List Str → List (Call L)
  told_first none subs changed paths = []
  told_first (some v) subs changed paths = tell s sha256 m subs changed v paths

  pub deliver_step :
      (d : Store s sha256) (subs : m.Map) (changed : Str) (paths : List Str)
      (entries : List (Str × List Str)) (calls : List (Call L))
      → deliver s sha256 m d subs entries ≡ returned calls
      → deliver s sha256 m d subs ((changed, paths) ∷ entries)
        ≡ returned (told_first (get_data s sha256 d changed) subs changed paths ++ calls)
  unfolding deliver get_data_ref ref_value get_data
  deliver_step d subs changed paths entries calls h =
      ground (arith, lawful.contains_key-get changed d.contents)

  -- No `unwrap` of the job panics: a key path that exists has a value.
  deliver_returns :
      (d : Store s sha256) (subs : m.Map) (entries : List (Str × List Str))
      → (calls : List (Call L)) × (deliver s sha256 m d subs entries ≡ returned calls)
  unfolding deliver
  deliver_returns d subs [] = ([], refl)
  deliver_returns d subs ((changed, paths) ∷ entries) =
      let (calls, e) = deliver_returns d subs entries in
      (
        told_first (get_data s sha256 d changed) subs changed paths ++ calls,
        deliver_step d subs changed paths entries calls e,
      )

  In-call_all :
      (l : L) (p key : Str) (v : C5DataValue) (ls : List L)
      → In l ls
      → In (call_of l p key v) (call_all p key v ls)
  unfolding call_all
  In-call_all l p key v [] i = elim i [ ]
  In-call_all l p key v (x ∷ ls) (inl e) = inl (ap (λ y. call_of y p key v) e)
  In-call_all l p key v (x ∷ ls) (inr i) = inr (In-call_all l p key v ls i)

  In-tell :
      (subs : m.Map) (l : L) (p key : Str) (v : C5DataValue) (ls : List L) (paths : List Str)
      → m.get_vec p subs ≡ some ls
      → In l ls
      → set_contains p paths ≡ true
      → In (call_of l p key v) (tell s sha256 m subs key v paths)
  unfolding set_contains notify_value_change
  In-tell subs l p key v ls [] g i c = cc
  In-tell subs l p key v ls (q ∷ paths) g i c = elim (Bool-cases (q == p)) [
    | inl same ↦
        subst
          (λ r.
            In (call_of l p key v)
              (notify_value_change m subs r key v ++ tell s sha256 m subs key v paths))
          (sym ((eq_iff q p).0 same))
          (rw (g, notify_value_change)
            (In-append_left (call_of l p key v) (call_all p key v ls)
              (tell s sha256 m subs key v paths) (In-call_all l p key v ls i)))
    | inr other ↦
        In-append_right (call_of l p key v) (notify_value_change m subs q key v)
          (tell s sha256 m subs key v paths) (In-tell subs l p key v ls paths g i (ground arith))
  ]

  -- One entry of the deduplicated paths.
  deliver_reaches :
      (d : Store s sha256) (subs : m.Map) (l : L) (p key : Str) (v : C5DataValue) (ls : List L)
      (entries : List (Str × List Str))
      → get_data s sha256 d key ≡ some v
      → m.get_vec p subs ≡ some ls
      → In l ls
      → holds (HashMap.lookup key entries) p ≡ true
      → (calls : List (Call L)) × (deliver s sha256 m d subs entries ≡ returned calls)
        × In (call_of l p key v) calls
  unfolding HashMap.lookup
  deliver_reaches d subs l p key v ls [] hv g i c = cc
  deliver_reaches d subs l p key v ls ((changed, paths) ∷ entries) hv g i c =
      elim (Bool-cases (changed == key)) [
        | inl same ↦
            let (calls, e) = deliver_returns d subs entries in
            let ek : changed ≡ key = (eq_iff changed key).0 same in
            (
              told_first (get_data s sha256 d changed) subs changed paths ++ calls,
              deliver_step d subs changed paths entries calls e,
              rw (ek, hv)
                  (In-append_left (call_of l p key v) (tell s sha256 m subs key v paths) calls
                    (In-tell subs l p key v ls paths g i (ground arith))),
            )
        | inr other ↦
            let (calls, e, j) = deliver_reaches d subs l p key v ls entries hv g i (ground arith) in
            let first = told_first (get_data s sha256 d changed) subs changed paths in
            (
              first ++ calls,
              deliver_step d subs changed paths entries calls e,
              In-append_right (call_of l p key v) first calls j,
            )
      ]

  -- A job that runs with no job handle stored and no guard alive returns, and for each changed key
  -- path that has a value, is not empty and does not begin with a dot, it calls every listener of
  -- every path that leads to the key path, with that path, the key path and its value.
  pub job_reaches_listeners :
      (n : ChangeNotifier) (d : Store s sha256) (subs : m.Map) (l : L) (p key : Str)
      (v : C5DataValue) (ls : List L)
      → IsIdle n
      → set_contains key n.changed_key_paths ≡ true
      → get_data s sha256 d key ≡ some v
      → IsProper key
      → IsProper p
      → IsAncestor p key
      → m.get_vec p subs ≡ some ls
      → In l ls
      → (calls : List (Call L)) × ((run_job s sha256 m d subs n).0 ≡ returned calls)
        × In (call_of l p key v) calls
  unfolding run_job MultiMap.get
  job_reaches_listeners n d subs l p key v ls idle c hv hk hp a g i =
      let pairs =
        dedupe_pairs key p n.changed_key_paths MultiMap.new c
          ((ancestor_paths_exact key p hk hp).1 a) in
      let (calls, e, j) =
        deliver_reaches d subs l p key v ls (dedupe n.changed_key_paths MultiMap.new).inner_map hv g
          i pairs in
      (calls, ground arith, j)
