-- ===== src/Notifier/Due.antt =====
-- That a job of the notifier makes no other calls than those it owes (c5store_rust/src/lib.rs).
use c5store.Base.{
  ℕ, ◌≡◌, refl, sym, inl, inr, true, Option, none, some, List, [], ◌∷◌, ◌++◌, eq_refl, returned,
  arith, In, All, All-In, All-append, Option-cases,
}
use c5store.Text.{Str, str_eq}
use c5store.Crates.SkipMap.{SkipMap, IsLawful}
use c5store.Crates.ListMultiMap.{ListMultiMap}
use c5store.Value.{C5DataValue}
use c5store.MultiMap as MultiMap
use c5store.MultiMap.{HashsetMultiMap, set_contains, set_insert, set_with}
use c5store.DataStore.{Store, get_data}
use c5store.Subscriptions.{Call, call_all, notify_value_change}
use c5store.Notifier.{ChangeNotifier, dedupe, tell, deliver, run_job}
use c5store.Notifier.Ancestors.{IsAncestor, IsProper, sound}
use c5store.Notifier.Told.{AllPairs, dedupe-AllPairs}
use c5store.Notifier.Debounce.{IsIdle}
use c5store.Notifier.Delivery.{told_first, deliver_step}

-- What is owed: the listener of a path that leads to a changed key path, with its value.
pub record IsDue {L : Type 0} (s : SkipMap C5DataValue) (sha256 : List ℕ → List ℕ)
    (m : ListMultiMap L) (d : Store s sha256) (subs : m.Map) (changed : List Str) (call : Call L)
    : Type 0 where
  pub is_changed : set_contains call.key_path changed ≡ true
  pub leads : IsProper call.key_path → IsAncestor call.notify_key_path call.key_path
  pub is_current : get_data s sha256 d call.key_path ≡ some call.value
  pub listeners : List L
  pub subscribed : m.get_vec call.notify_key_path subs ≡ some listeners
  pub is_listener : In call.listener listeners

In-set_contains : (k : Str) (l : List Str) → In k l → set_contains k l ≡ true
unfolding set_contains
In-set_contains k [] i = elim i [ ]
In-set_contains k (j ∷ l) (inl e) = rw (sym e) (rw (eq_refl k) refl)
In-set_contains k (j ∷ l) (inr i) = ground (arith, In-set_contains k l i)

-- The pair of a changed key path and a path to tell.
abbrev IsToTell : List Str → Str → Str → Type 0
IsToTell whole key p = (set_contains key whole ≡ true) × (IsProper key → IsAncestor p key)

dedupe-IsToTell :
    (whole : List Str) → AllPairs (IsToTell whole) (dedupe whole MultiMap.new).inner_map
unfolding MultiMap.new
dedupe-IsToTell whole =
    dedupe-AllPairs (IsToTell whole) whole MultiMap.new
      (λ key i.
        let c = In-set_contains key whole i in
        ((c, λ h. inl refl), λ p j. (c, λ h. sound key p h j)))
      tt

module _ {L : Type 0} (s : SkipMap C5DataValue) (lawful : IsLawful s) (sha256 : List ℕ → List ℕ)
    (m : ListMultiMap L) (d : Store s sha256) (subs : m.Map) (whole : List Str) where
  abbrev Due : Call L → Type 0
  Due call = IsDue s sha256 m d subs whole call

  call_all-Due :
      (p key : Str) (v : C5DataValue) (ls rest : List L)
      → IsToTell whole key p
      → get_data s sha256 d key ≡ some v
      → m.get_vec p subs ≡ some ls
      → ((l : L) → In l rest → In l ls)
      → All Due (call_all p key v rest)
  unfolding call_all
  call_all-Due p key v ls [] t c g f = tt
  call_all-Due p key v ls (l ∷ rest) t c g f = (
    record {
      is_changed = t.0;
      leads = t.1;
      is_current = c;
      listeners = ls;
      subscribed = g;
      is_listener = f l (inl refl);
    },
    call_all-Due p key v ls rest t c g (λ x i. f x (inr i)),
  )

  notify-Due :
      (p key : Str) (v : C5DataValue)
      → IsToTell whole key p
      → get_data s sha256 d key ≡ some v
      → All Due (notify_value_change m subs p key v)
  unfolding notify_value_change
  notify-Due p key v t c = elim (Option-cases (m.get_vec p subs)) [
    | inl e ↦ rw (e, notify_value_change, All) tt
    | inr (ls, e) ↦ rw (e, notify_value_change) (call_all-Due p key v ls ls t c e (λ l i. i))
  ]

  tell-Due :
      (key : Str) (v : C5DataValue) (paths : List Str)
      → All (IsToTell whole key) paths
      → get_data s sha256 d key ≡ some v
      → All Due (tell s sha256 m subs key v paths)
  tell-Due key v [] h c = tt
  tell-Due key v (p ∷ paths) h c =
      All-append Due (notify_value_change m subs p key v) (tell s sha256 m subs key v paths)
        (notify-Due p key v h.0 c) (tell-Due key v paths h.1 c)

  told_first-Due :
      (key : Str) (o : Option C5DataValue) (paths : List Str)
      → get_data s sha256 d key ≡ o
      → All (IsToTell whole key) paths
      → All Due (told_first s lawful sha256 m o subs key paths)
  told_first-Due key none paths e h = tt
  told_first-Due key (some v) paths e h = tell-Due key v paths h e

  deliver-Due :
      (entries : List (Str × List Str))
      → AllPairs (IsToTell whole) entries
      → (calls : List (Call L)) × (deliver s sha256 m d subs entries ≡ returned calls)
        × All Due calls
  unfolding deliver
  deliver-Due [] h = ([], refl, tt)
  deliver-Due ((changed, paths) ∷ entries) h =
      let (calls, e, due) = deliver-Due entries h.1 in
      let first = told_first s lawful sha256 m (get_data s sha256 d changed) subs changed paths in
      (
        first ++ calls,
        deliver_step s lawful sha256 m d subs changed paths entries calls e,
        All-append Due first calls
            (told_first-Due changed (get_data s sha256 d changed) paths refl h.0) due,
      )

module _ {L : Type 0} (s : SkipMap C5DataValue) (lawful : IsLawful s) (sha256 : List ℕ → List ℕ)
    (m : ListMultiMap L) where
  -- A job that runs with no job handle stored and no guard alive returns, and each call that it makes
  -- is of a subscribed listener, for a changed key path, at a path that leads to it (unless the key
  -- path is empty or begins with a dot), with the value that the store has at the key path.
  pub job_calls-IsDue :
      (n : ChangeNotifier) (d : Store s sha256) (subs : m.Map)
      → IsIdle n
      → (calls : List (Call L)) × ((run_job s sha256 m d subs n).0 ≡ returned calls)
        × ((call : Call L) → In call calls → IsDue s sha256 m d subs n.changed_key_paths call)
  unfolding run_job
  job_calls-IsDue n d subs idle =
      let whole = n.changed_key_paths in
      let (calls, e, due) =
        deliver-Due s lawful sha256 m d subs whole (dedupe whole MultiMap.new).inner_map
          (dedupe-IsToTell whole) in
      (calls, ground arith, λ call i. All-In (IsDue s sha256 m d subs whole) calls call due i)
