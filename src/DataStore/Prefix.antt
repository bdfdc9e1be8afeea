-- ===== src/DataStore/Prefix.antt =====
-- The search `keys_with_prefix` of c5store_rust/src/internal.rs.
use c5store.Base.{
  ℕ, ◌≡◌, refl, ap, inl, inr, true, false, Bool-cases, List, [], ◌∷◌, ◌++◌, nat_eq, eq_refl, some,
  arith, In,
}
use c5store.Text.{Str, starts_with}
use c5store.Crates.SkipMap.{SkipMap, IsLawful, IsOrdered, AllAbove, key_below, drop_below}
use c5store.Value.{C5DataValue}
use c5store.DataStore.{Store, keys_with_prefix, keys_while_prefix, all_keys}

starts_with_longer : (p : Str) (c : ℕ) (t : Str) → starts_with p (p ++ (c ∷ t)) ≡ false
unfolding starts_with
starts_with_longer [] c t = refl
starts_with_longer (a ∷ p) c t = rw (eq_refl a) (starts_with_longer p c t)

-- All keys have the prefix.
abbrev pub AllStartWith : Str → List (Str × C5DataValue) → Type 0
AllStartWith prefix [] = Unit
AllStartWith prefix ((k, v) ∷ l) = (starts_with k prefix ≡ true) × AllStartWith prefix l

-- The list is empty or begins with a key that lacks the prefix.
abbrev pub BeginsWithout : Str → List (Str × C5DataValue) → Type 0
BeginsWithout prefix [] = Unit
BeginsWithout prefix ((k, v) ∷ l) = starts_with k prefix ≡ false

module _ (s : SkipMap C5DataValue) (sha256 : List ℕ → List ℕ) where
  -- The list is split where its keys cease to have the prefix.
  pub record IsSplit (prefix : Str) (l found rest : List (Str × C5DataValue)) : Type 0 where
    pub parts : l ≡ found ++ rest
    pub with_prefix : AllStartWith prefix found
    pub stopped : BeginsWithout prefix rest

  IsSplit-range :
      (prefix : Str) (l : List (Str × C5DataValue))
      → (found : List (Str × C5DataValue)) × (rest : List (Str × C5DataValue)) × IsSplit prefix l
          found rest
        × (keys_while_prefix s sha256 prefix l ≡ all_keys s sha256 found)
  unfolding keys_while_prefix all_keys
  IsSplit-range prefix [] = ([], [], record { parts = refl; with_prefix = tt; stopped = tt }, refl)
  IsSplit-range prefix ((k, v) ∷ l) = elim (Bool-cases (starts_with k prefix)) [
    | inl has ↦
        let (found, rest, split, keys) = IsSplit-range prefix l in
        (
          (k, v) ∷ found,
          rest,
          record {
            parts = ap (◌∷◌ (k, v)) split.parts;
            with_prefix = (has, split.with_prefix);
            stopped = split.stopped;
          },
          rw has (ap (◌∷◌ k) keys),
        )
    | inr lacks ↦
        ([], (k, v) ∷ l, record { parts = refl; with_prefix = tt; stopped = lacks }, rw lacks)
  ]

  -- A search below a key path returns, in order, the keys of the entries from the key path on, up
  -- to the first one that does not begin with the key path and a dot.
  pub keys_with_prefix-IsSplit :
      (d : Store s sha256) (key_path : Str)
      → IsLawful s
      → (found : List (Str × C5DataValue)) × (rest : List (Str × C5DataValue)) × IsSplit
          (key_path ++ (b'.' ∷ []))
          (drop_below s key_path (s.iter d.contents))
          found
          rest
        × (keys_with_prefix s sha256 d (some key_path) ≡ all_keys s sha256 found)
  unfolding keys_with_prefix
  keys_with_prefix-IsSplit d key_path lawful =
      rw (lawful.range key_path d.contents)
        (IsSplit-range (key_path ++ (b'.' ∷ [])) (drop_below s key_path (s.iter d.contents)))

module _ (s : SkipMap C5DataValue) (lawful : IsLawful s) (sha256 : List ℕ → List ℕ) where
  key_below_self : (k : Str) → key_below s k k ≡ false
  key_below_self k = ground (arith, lawful.same_key_refl k)

  below_of_AllAbove :
      (j p : Str) (v : C5DataValue) (l : List (Str × C5DataValue))
      → AllAbove s j l
      → In {A = Str × C5DataValue} (p, v) l
      → key_below s j p ≡ true
  below_of_AllAbove j p v [] a i = elim i [ ]
  below_of_AllAbove j p v ((k, w) ∷ l) a (inl e) = rw (ap (λ (x : Str × C5DataValue). x.0) e) a.0
  below_of_AllAbove j p v ((k, w) ∷ l) a (inr i) = below_of_AllAbove j p v l a.1 i

  drop_below_at :
      (p : Str) (v : C5DataValue) (l : List (Str × C5DataValue))
      → IsOrdered s l
      → In {A = Str × C5DataValue} (p, v) l
      → (w : C5DataValue) × (rest : List (Str × C5DataValue)) × (drop_below s p l ≡ (p, w) ∷ rest)
  drop_below_at p v [] o i = elim i [ ]
  drop_below_at p v ((k, w) ∷ l) o (inl e) =
      let same : p ≡ k = ap (λ (x : Str × C5DataValue). x.0) e in
      (w, l, rw (same, key_below_self k))
  drop_below_at p v ((k, w) ∷ l) o (inr i) =
      let (u, rest, e) = drop_below_at p v l o.1 i in
      (u, rest, rw (below_of_AllAbove k p v l o.0 i) e)

  -- A value that is stored at the key path itself hides every key below it from a search.
  pub keys_with_prefix_hidden :
      (d : Store s sha256) (key_path : Str) (value : C5DataValue)
      → In {A = Str × C5DataValue} (key_path, value) (s.iter d.contents)
      → keys_with_prefix s sha256 d (some key_path) ≡ []
  unfolding keys_with_prefix keys_while_prefix
  keys_with_prefix_hidden d key_path value i =
      let (w, rest, e) =
        drop_below_at key_path value (s.iter d.contents) (lawful.iter_ordered d.contents) i in
      rw (lawful.range key_path d.contents, e) (rw (starts_with_longer key_path b'.' []))
