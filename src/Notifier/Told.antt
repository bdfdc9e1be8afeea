-- ===== src/Notifier/Told.antt =====
-- What holds of every pair of a key path and a path that a job tells, if it holds of those that
-- `dedupe` inserts (c5store_rust/src/lib.rs).
use c5store.Base.{
  refl, sym, subst, inl, inr, Bool-cases, Option, none, some, List, [], ◌∷◌, ◌==◌, eq_iff, In, All,
}
use c5store.Text.{Str, str_eq}
use c5store.Text.Split.{split}
use c5store.HashMap
use c5store.MultiMap as MultiMap
use c5store.MultiMap.{HashsetMultiMap, set_contains, set_insert, set_with}
use c5store.Notifier.{ancestor_paths, insert_paths, dedupe}

-- Each key with each value under it.
abbrev pub AllPairs : (Str → Str → Type 0) → List (Str × List Str) → Type 0
AllPairs P [] = Unit
AllPairs P ((k, s) ∷ m) = All (P k) s × AllPairs P m

abbrev AllOption : (Str → Type 0) → Option (List Str) → Type 0
AllOption P none = Unit
AllOption P (some s) = All P s

module _ (Q : Str → Type 0) where
  set_insert-All : (v : Str) (s : List Str) → Q v → All Q s → All Q (set_insert v s)
  unfolding set_insert
  set_insert-All v [] q h = (q, tt)
  set_insert-All v (w ∷ s) q h = elim (Bool-cases (w == v)) [
    | inl e ↦ rw e h
    | inr e ↦ rw e (h.0, set_insert-All v s q h.1)
  ]

  set_with-All : (v : Str) (o : Option (List Str)) → Q v → AllOption Q o → All Q (set_with v o)
  unfolding set_with
  set_with-All v none q h = set_insert-All v [] q tt
  set_with-All v (some s) q h = set_insert-All v s q h

module _ (P : Str → Str → Type 0) where
  lookup-AllOption :
      (k : Str) (m : List (Str × List Str)) → AllPairs P m → AllOption (P k) (HashMap.lookup k m)
  unfolding HashMap.lookup
  lookup-AllOption k [] h = tt
  lookup-AllOption k ((j, s) ∷ m) h = elim (Bool-cases (j == k)) [
    | inl e ↦ rw e (subst (λ i. All (P i) s) ((eq_iff j k).0 e) h.0)
    | inr e ↦ rw e (lookup-AllOption k m h.1)
  ]

  insert-AllPairs :
      (k : Str) (s : List Str) (m : List (Str × List Str))
      → All (P k) s
      → AllPairs P m
      → AllPairs P (HashMap.insert k s m)
  unfolding HashMap.insert
  insert-AllPairs k s [] h g = (h, tt)
  insert-AllPairs k s ((j, t) ∷ m) h g = elim (Bool-cases (j == k)) [
    | inl e ↦ rw e (subst (λ i. All (P i) s) (sym ((eq_iff j k).0 e)) h, g.1)
    | inr e ↦ rw e (g.0, insert-AllPairs k s m h g.1)
  ]

  pair-AllPairs :
      (k v : Str) (m : HashsetMultiMap Str Str)
      → P k v
      → AllPairs P m.inner_map
      → AllPairs P (MultiMap.insert k v m).inner_map
  unfolding MultiMap.insert
  pair-AllPairs k v m p h =
      insert-AllPairs k (set_with v (HashMap.lookup k m.inner_map)) m.inner_map
        (set_with-All (P k) v (HashMap.lookup k m.inner_map) p (lookup-AllOption k m.inner_map h)) h

  insert_paths-AllPairs :
      (changed : Str) (paths : List Str) (m : HashsetMultiMap Str Str)
      → ((p : Str) → In p paths → P changed p)
      → AllPairs P m.inner_map
      → AllPairs P (insert_paths changed paths m).inner_map
  insert_paths-AllPairs changed [] m f h = h
  insert_paths-AllPairs changed (path ∷ paths) m f h =
      insert_paths-AllPairs changed paths (MultiMap.insert changed path m) (λ p i. f p (inr i))
        (pair-AllPairs changed path m (f path (inl refl)) h)

  pub dedupe-AllPairs :
      (l : List Str) (m : HashsetMultiMap Str Str)
      → ((changed : Str)
          → In changed l
          → P changed changed
            × ((p : Str) → In p (ancestor_paths [] (split changed)) → P changed p))
      → AllPairs P m.inner_map
      → AllPairs P (dedupe l m).inner_map
  unfolding dedupe
  dedupe-AllPairs [] m f h = h
  dedupe-AllPairs (changed ∷ more) m f h =
      let (own, above) = f changed (inl refl) in
      dedupe-AllPairs more
        (insert_paths changed (ancestor_paths [] (split changed))
          (MultiMap.insert changed changed m))
        (λ c i. f c (inr i))
        (insert_paths-AllPairs changed (ancestor_paths [] (split changed))
          (MultiMap.insert changed changed m) above (pair-AllPairs changed changed m own h))
