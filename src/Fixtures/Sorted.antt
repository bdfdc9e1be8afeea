-- ===== src/Fixtures/Sorted.antt =====
-- A skip map as a sorted list of entries, with its laws.
use Prim.Native.Nat.{Ordering}
use Prim.Native.Nat.Ordering.{lt, eq, gt}
use c5store.Base.{
  ◌≡◌, refl, ap, sym, inl, inr, Bool, true, false, Option, none, some, is_some, List, [], ◌∷◌,
  arith, if◌then◌else◌, In,
}
use c5store.Text.{Str}
use c5store.Crates.SkipMap.{SkipMap, IsLawful, IsOrdered, AllAbove, drop_below}
use c5store.Fixtures.Order.{lower, lex, lex_refl, eq_of_lex, lt_of_gt, gt_of_lt, lt_trans}

abbrev pub key_order : Str → Str → Ordering
key_order j k = lex (lower j) (lower k)

module _ {V : Type 0} where
  abbrev pub Above : Str → List (Str × V) → Type 0
  Above k [] = Unit
  Above k ((j, v) ∷ l) = (elim (key_order k j) [ lt ↦ true | _ ↦ false ] ≡ true) × Above k l

  abbrev pub Sorted : List (Str × V) → Type 0
  Sorted [] = Unit
  Sorted ((j, v) ∷ l) = Above j l × Sorted l

  unfoldable pub find : Str → List (Str × V) → Option V
  find k [] = none
  find k ((j, v) ∷ l) = elim (key_order j k) [ eq ↦ some v | _ ↦ find k l ]

  unfoldable pub place : Str → V → List (Str × V) → List (Str × V)
  place k v [] = (k, v) ∷ []
  place k v ((j, w) ∷ l) = elim (key_order k j) [
    | lt ↦ (k, v) ∷ (j, w) ∷ l
    | eq ↦ (j, v) ∷ l
    | gt ↦ (j, w) ∷ place k v l
  ]

  find-place :
      (k j : Str) (v : V) (l : List (Str × V))
      → find j (place k v l)
        ≡ (if elim (key_order k j) [ eq ↦ true | _ ↦ false ] then some v else find j l)
  unfolding find place
  find-place k j v [] = ground arith
  find-place k j v ((i, w) ∷ l) = ground (
    arith,
    find-place k j v l,
    eq_of_lex (lower k) (lower i),
    eq_of_lex (lower k) (lower j),
    eq_of_lex (lower i) (lower j),
    lex_refl (lower k),
    lex_refl (lower i),
    gt_of_lt (lower k) (lower i),
  )

  find_same : (k j : Str) (l : List (Str × V)) → key_order k j ≡ eq → find k l ≡ find j l
  unfolding find
  find_same k j [] h = refl
  find_same k j ((i, w) ∷ l) h = ground (arith, find_same k j l, eq_of_lex (lower k) (lower j))

  Above-place :
      (i k : Str) (v : V) (l : List (Str × V))
      → key_order i k ≡ lt
      → Above i l
      → Above i (place k v l)
  unfolding place
  Above-place i k v [] h a = ground arith
  Above-place i k v ((j, w) ∷ l) h a = ground (arith, Above-place i k v l)

  Above-below : (i k : Str) (l : List (Str × V)) → key_order i k ≡ lt → Above k l → Above i l
  Above-below i k [] h a = tt
  Above-below i k ((j, w) ∷ l) h a =
      ground (arith, lt_trans (lower i) (lower k) (lower j), Above-below i k l)

  pub place-Sorted : (k : Str) (v : V) (l : List (Str × V)) → Sorted l → Sorted (place k v l)
  unfolding place
  place-Sorted k v [] o = (tt, tt)
  place-Sorted k v ((j, w) ∷ l) o = ground (
    arith,
    place-Sorted k v l,
    lt_of_gt (lower k) (lower j),
    Above-place j k v l,
    Above-below k j l,
  )

  find-Above :
      (i k : Str) (v : V) (l : List (Str × V))
      → Above i l
      → In {A = Str × V} (k, v) l
      → key_order i k ≡ lt
  find-Above i k v [] a m = elim m [ ]
  find-Above i k v ((j, w) ∷ l) a (inl e) = rw (ap (λ (x : Str × V). x.0) e) (ground arith)
  find-Above i k v ((j, w) ∷ l) a (inr m) = find-Above i k v l a.1 m

  find_of_In :
      (k : Str) (v : V) (l : List (Str × V))
      → Sorted l
      → In {A = Str × V} (k, v) l
      → find k l ≡ some v
  unfolding find
  find_of_In k v [] o m = elim m [ ]
  find_of_In k v ((j, w) ∷ l) o (inl e) =
      rw (ap (λ (x : Str × V). x.0) e, lex_refl (lower j), find)
        (ap some (sym (ap (λ (x : Str × V). x.1) e)))
  find_of_In k v ((j, w) ∷ l) o (inr m) =
      rw (find-Above j k v l o.0 m, find) (find_of_In k v l o.1 m)

-- The entries from the first key on that is not below.
abbrev pub at_least : {V : Type 0} → Str → List (Str × V) → List (Str × V)
at_least k [] = []
at_least k ((j, v) ∷ l) =
    let rest = at_least k l in
    if elim (key_order j k) [ lt ↦ true | _ ↦ false ] then rest else (j, v) ∷ l

abbrev pub SortedList : Type 0 → Type 0
SortedList V = (l : List (Str × V)) × Sorted l

abbrev pub sorted : (V : Type 0) → SkipMap V
sorted V = record {
  Map = SortedList V;
  compare_ignore_case = key_order;
  new = ([], tt);
  get = λ k m. find k m.0;
  contains_key = λ k m. is_some (find k m.0);
  insert = λ k v m. (find k m.0, (place k v m.0, place-Sorted k v m.0 m.1));
  iter = λ m. m.0;
  range_from = λ k m. at_least k m.0;
}

module _ (V : Type 0) where
  at_least-drop_below : (k : Str) (l : List (Str × V)) → at_least k l ≡ drop_below (sorted V) k l
  at_least-drop_below k [] = refl
  at_least-drop_below k ((j, v) ∷ l) = rw (at_least-drop_below k l)

  same_sym :
      (j k : Str)
      → elim (key_order j k) as (λ x. Bool) [ eq ↦ true | _ ↦ false ]
        ≡ elim (key_order k j) as (λ x. Bool) [ eq ↦ true | _ ↦ false ]
  same_sym j k = ground (
    arith,
    eq_of_lex (lower j) (lower k),
    eq_of_lex (lower k) (lower j),
    lex_refl (lower k),
    lex_refl (lower j),
  )

  ordered : (l : List (Str × V)) → Sorted l → IsOrdered (sorted V) l
  ordered [] o = tt
  ordered ((j, v) ∷ l) o = (above j l o.0, ordered l o.1)
    where
      above : (i : Str) (r : List (Str × V)) → Above i r → AllAbove (sorted V) i r
      above i [] a = tt
      above i ((k, w) ∷ r) a = (a.0, above i r a.1)

  pub sorted-IsLawful : IsLawful (sorted V)
  unfolding find
  sorted-IsLawful = record {
    same_key_refl = λ k. ground (arith, lex_refl (lower k));
    same_key_sym = same_sym;
    get-new = λ k. refl;
    get_same = λ k j m h. find_same k j m.0 (ground arith);
    contains_key-get = λ k m. refl;
    insert_old = λ k v m. refl;
    get-insert = λ k j v m. find-place k j v m.0;
    iter_ordered = λ m. ordered m.0 m.1;
    get_of_iter = λ k v m i. find_of_In k v m.0 m.1 i;
    range = λ k m. at_least-drop_below k m.0;
  }
