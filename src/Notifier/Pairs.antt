-- ===== src/Notifier/Pairs.antt =====
-- The first loop of the job (c5store_rust/src/lib.rs), which pairs changed key paths with paths.
use c5store.Base.{
  ◌≡◌, sym, subst, inl, inr, true, Bool-cases, List, [], ◌∷◌, ◌==◌, eq_refl, eq_iff, arith, In,
}
use c5store.Text.{Str, str_eq}
use c5store.Text.Split.{split}
use c5store.MultiMap as MultiMap
use c5store.MultiMap.{HashsetMultiMap, set_contains}
use c5store.MultiMap.Laws.{member, member-insert}
use c5store.Notifier.{ancestor_paths, insert_paths, dedupe}

abbrev Paths : Type 0
Paths = HashsetMultiMap Str Str

member-insert_keeps :
    (key path changed p : Str) (m : Paths)
    → member changed p m ≡ true
    → member changed p (MultiMap.insert key path m) ≡ true
member-insert_keeps key path changed p m h = ground (arith, member-insert key changed path p m)

member-insert_self :
    (key path : Str) (m : Paths) → member key path (MultiMap.insert key path m) ≡ true
member-insert_self key path m =
    ground (arith, member-insert key key path path m, eq_refl key, eq_refl path)

member-insert_paths_keeps :
    (key changed p : Str) (paths : List Str) (m : Paths)
    → member changed p m ≡ true
    → member changed p (insert_paths key paths m) ≡ true
member-insert_paths_keeps key changed p [] m h = h
member-insert_paths_keeps key changed p (q ∷ paths) m h =
    member-insert_paths_keeps key changed p paths (MultiMap.insert key q m)
      (member-insert_keeps key q changed p m h)

member-insert_paths :
    (changed p : Str) (paths : List Str) (m : Paths)
    → In p paths
    → member changed p (insert_paths changed paths m) ≡ true
member-insert_paths changed p [] m i = elim i [ ]
member-insert_paths changed p (q ∷ paths) m (inl e) =
    member-insert_paths_keeps changed changed p paths (MultiMap.insert changed q m)
      (rw e (member-insert_self changed q m))
member-insert_paths changed p (q ∷ paths) m (inr i) =
    member-insert_paths changed p paths (MultiMap.insert changed q m) i

dedupe_keeps :
    (changed p : Str) (l : List Str) (m : Paths)
    → member changed p m ≡ true
    → member changed p (dedupe l m) ≡ true
unfolding dedupe
dedupe_keeps changed p [] m h = h
dedupe_keeps changed p (key ∷ l) m h =
    let paths = ancestor_paths [] (split key) in
    let m' = MultiMap.insert key key m in
    dedupe_keeps changed p l (insert_paths key paths m')
      (member-insert_paths_keeps key changed p paths m' (member-insert_keeps key key changed p m h))

-- Each changed key path is paired with the paths that lead to it.
pub dedupe_pairs :
    (changed p : Str) (l : List Str) (m : Paths)
    → set_contains changed l ≡ true
    → In p (ancestor_paths [] (split changed))
    → member changed p (dedupe l m) ≡ true
unfolding dedupe set_contains
dedupe_pairs changed p [] m c i = cc
dedupe_pairs changed p (key ∷ l) m c i = elim (Bool-cases (key == changed)) [
  | inl same ↦
      let paths = ancestor_paths [] (split key) in
      let m' = MultiMap.insert key key m in
      let e : key ≡ changed = (eq_iff key changed).0 same in
      dedupe_keeps changed p l (insert_paths key paths m') (
        subst (λ k. member k p (insert_paths key paths m') ≡ true) e
          (member-insert_paths key p paths m'
            (subst (λ k. In p (ancestor_paths [] (split k))) (sym e) i)))
  | inr other ↦
      dedupe_pairs changed p l
        (insert_paths key (ancestor_paths [] (split key)) (MultiMap.insert key key m))
        (ground arith) i
]
