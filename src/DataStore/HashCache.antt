-- ===== src/DataStore/HashCache.antt =====
-- The record of the hashes of secrets, `_value_hash_cache` of c5store_rust/src/internal.rs.
use c5store.Base.{
  ℕ, ◌≡◌, refl, subst, ◌∙◌, inl, inr, Bool-cases, Option-cases, List, [], ◌∷◌, ◌++◌, nat_eq, eq_iff,
  eq_refl, Option, none, some, Outcome, returned, panicked, arith,
}
use c5store.Text.{Str, str_eq, ends_with}
use c5store.Text.Suffix.{ends_with-append}
use c5store.HashMap
use c5store.Crates.SkipMap.{SkipMap}
use c5store.Value.{C5DataValue}
use c5store.DataStore.{
  Store, set_data, get_secret, insert_value, check_hash, secret_args, calc_hash_value, decrypt_with,
  data_path, store_secret,
}
use c5store.DataStore.SecretValues.{secret_value, get_secret-new}

module _ (s : SkipMap C5DataValue) (sha256 : List ℕ → List ℕ) where
  get_secret-repeated :
      (d : Store s sha256) (key_path algo key_name encoded : Str)
      → HashMap.lookup key_path d.value_hash_cache
        ≡ some (calc_hash_value sha256 algo key_name encoded)
      → get_secret s sha256 d key_path (secret_value algo key_name encoded) ≡ (returned none, d)
  unfolding get_secret secret_args
  get_secret-repeated d key_path algo key_name encoded h =
      ground (arith, eq_refl (calc_hash_value sha256 algo key_name encoded))

  -- Setting a secret to the value that its record holds does nothing, and returns no value.
  set_data-repeated :
      (d : Store s sha256) (base algo key_name encoded : Str)
      → HashMap.lookup (base ++ d.secret_key_path_segment) d.value_hash_cache
        ≡ some (calc_hash_value sha256 algo key_name encoded)
      → set_data s sha256 d (base ++ d.secret_key_path_segment) (secret_value algo key_name encoded)
        ≡ (returned none, d)
  unfolding set_data
  set_data-repeated d base algo key_name encoded h =
      let key = base ++ d.secret_key_path_segment in
      rw (
        ends_with-append base d.secret_key_path_segment,
        get_secret-repeated d key algo key_name encoded h,
      )

  recorded-check_hash :
      (k key_path : Str) (hash h : List ℕ) (cache : List (Str × List ℕ))
      → HashMap.lookup k cache ≡ some h
      → HashMap.lookup k (check_hash s sha256 key_path hash cache).1 ≡ some h
  unfolding check_hash
  recorded-check_hash k key_path hash h cache e =
      ground (arith, HashMap.lookup-insert key_path k hash cache, eq_iff key_path k)

  -- `d'` has the segment of `d`, and its records.
  record Keeps (k : Str) (h : List ℕ) (d d' : Store s sha256) : Type 0 where
    segment : d'.secret_key_path_segment ≡ d.secret_key_path_segment
    recorded : HashMap.lookup k d'.value_hash_cache ≡ some h

  get_secret-Keeps :
      (k : Str) (h : List ℕ) (d : Store s sha256) (key_path : Str) (value : C5DataValue)
      → HashMap.lookup k d.value_hash_cache ≡ some h
      → Keeps k h d (get_secret s sha256 d key_path value).1
  unfolding get_secret
  get_secret-Keeps k h d key_path value e = elim (Option-cases (secret_args value)) [
    | inl bad ↦ rw (bad, get_secret) (record { segment = refl; recorded = e })
    | inr ((algo, name, encoded), args) ↦
        rw (args, get_secret)
          (ground (
            arith,
            recorded-check_hash k key_path (calc_hash_value sha256 algo name encoded) h
                d.value_hash_cache,
          ))
  ]

  store_secret-Keeps :
      (k : Str) (h : List ℕ) (d d' : Store s sha256) (base : Str) (r : Outcome (Option (List ℕ)))
      → Keeps k h d d'
      → Keeps k h d (store_secret s sha256 base (r, d')).1
  unfolding insert_value
  store_secret-Keeps k h d d' base (returned none) c = c
  store_secret-Keeps k h d d' base (returned (some plain)) c = record {
    segment = c.segment;
    recorded = c.recorded;
  }
  store_secret-Keeps k h d d' base panicked c = c

  set_data-Keeps :
      (k : Str) (h : List ℕ) (d : Store s sha256) (key : Str) (value : C5DataValue)
      → HashMap.lookup k d.value_hash_cache ≡ some h
      → Keeps k h d (set_data s sha256 d key value).1
  unfolding set_data
  set_data-Keeps k h d key value e = elim (Bool-cases (ends_with key d.secret_key_path_segment)) [
    | inl secret ↦
        let (r, d') = get_secret s sha256 d key value in
        rw secret (
          store_secret-Keeps k h d d' (data_path s sha256 d.secret_key_path_segment key) r
            (get_secret-Keeps k h d key value e))
    | inr plain ↦ rw plain (record { segment = refl; recorded = e })
  ]

  -- The store after any calls of `set_data`.
  abbrev pub run : List (Str × C5DataValue) → Store s sha256 → Store s sha256
  run [] d = d
  run ((key, value) ∷ calls) d = run calls (set_data s sha256 d key value).1

  run-Keeps :
      (k : Str) (h : List ℕ) (calls : List (Str × C5DataValue)) (d : Store s sha256)
      → HashMap.lookup k d.value_hash_cache ≡ some h
      → Keeps k h d (run calls d)
  run-Keeps k h [] d e = record { segment = refl; recorded = e }
  run-Keeps k h ((key, value) ∷ calls) d e =
      let one = set_data-Keeps k h d key value e in
      let d' = (set_data s sha256 d key value).1 in
      let rest = run-Keeps k h calls d' one.recorded in
      record { segment = rest.segment ∙ one.segment; recorded = rest.recorded }

  run-repeated :
      (d : Store s sha256) (base algo key_name encoded : Str) (calls : List (Str × C5DataValue))
      → HashMap.lookup (base ++ d.secret_key_path_segment) d.value_hash_cache
        ≡ some (calc_hash_value sha256 algo key_name encoded)
      → set_data s sha256
          (run calls d)
          (base ++ d.secret_key_path_segment)
          (secret_value algo key_name encoded)
        ≡ (returned none, run calls d)
  run-repeated d base algo key_name encoded calls h =
      let hash = calc_hash_value sha256 algo key_name encoded in
      let kept = run-Keeps (base ++ d.secret_key_path_segment) hash calls d h in
      let d' = run calls d in
      subst
        (λ segment.
          HashMap.lookup (base ++ segment) d'.value_hash_cache ≡ some hash
          → set_data s sha256 d' (base ++ segment) (secret_value algo key_name encoded)
            ≡ (returned none, d'))
        kept.segment (set_data-repeated d' base algo key_name encoded) kept.recorded

  set_data-new :
      (d : Store s sha256) (base algo key_name encoded : Str)
      → HashMap.lookup (base ++ d.secret_key_path_segment) d.value_hash_cache ≡ none
      → Keeps
          (base ++ d.secret_key_path_segment)
          (calc_hash_value sha256 algo key_name encoded)
          d
          (set_data s sha256 d
            (base ++ d.secret_key_path_segment)
            (secret_value algo key_name encoded)).1
  unfolding set_data
  set_data-new d base algo key_name encoded h =
      let segment = d.secret_key_path_segment in
      let key = base ++ segment in
      let hash = calc_hash_value sha256 algo key_name encoded in
      let d' : Store s sha256 = record d {
        value_hash_cache = HashMap.insert key hash d.value_hash_cache;
      } in
      rw (ends_with-append base segment, get_secret-new s sha256 d key algo key_name encoded h)
        (store_secret-Keeps key hash d d' (data_path s sha256 segment key)
          (decrypt_with d.secret_key_store algo key_name encoded)
          (record {
            segment = refl;
            recorded = HashMap.lookup-insert_self key hash d.value_hash_cache;
          }))

  -- After a well-formed secret has been set for the first time, and after any further calls of
  -- set_data, setting it to its first value again returns nothing and leaves the store as it is.
  pub first_secret_sticks :
      (d : Store s sha256) (base algo key_name encoded : Str) (calls : List (Str × C5DataValue))
      → HashMap.lookup (base ++ d.secret_key_path_segment) d.value_hash_cache ≡ none
      → let key = base ++ d.secret_key_path_segment in
        let value = secret_value algo key_name encoded in
        let later = run calls (set_data s sha256 d key value).1 in
        set_data s sha256 later key value ≡ (returned none, later)
  first_secret_sticks d base algo key_name encoded calls h =
      let hash = calc_hash_value sha256 algo key_name encoded in
      let value = secret_value algo key_name encoded in
      let first = set_data-new d base algo key_name encoded h in
      let d' = (set_data s sha256 d (base ++ d.secret_key_path_segment) value).1 in
      subst
        (λ segment.
          HashMap.lookup (base ++ segment) d'.value_hash_cache ≡ some hash
          → set_data s sha256 (run calls d') (base ++ segment) value
            ≡ (returned none, run calls d'))
        first.segment (run-repeated d' base algo key_name encoded calls) first.recorded
