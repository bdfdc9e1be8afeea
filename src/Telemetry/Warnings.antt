-- ===== src/Telemetry/Warnings.antt =====
-- What is logged and counted when a secret is set (`_get_secret` of c5store_rust/src/internal.rs).
use c5store.Base.{
  ℕ, nat_eq, ◌≡◌, refl, ◌⊎◌, Bool-cases, Option-cases, inl, inr, Option, none, some, List, [], ◌∷◌,
  ◌++◌, ◌==◌, Result, ok, err, Outcome, returned, panicked, eq_iff,
}
use c5store.Text.{Str, str_eq, bytes_of}
use c5store.HashMap
use c5store.Crates.SkipMap.{SkipMap}
use c5store.Secrets.{SecretDecryptorError, get_decryptor, get_key}
use c5store.Value.{C5DataValue, string, array, nil, cons}
use c5store.Value.Convert.{try_into_vec, try_into_string}
use c5store.DataStore.{Store, secret_args, check_hash, calc_hash_value}
use c5store.Telemetry.{Logger, StatsRecorder, TagValue}
use c5store.Telemetry.Observed.{
  Observed, of_key_path, wrong_count, decrypt_observed, fresh_observed, three_observed,
  get_secret_observed,
}

attempt_cases :
    {A E : Type 0} (o : Outcome (Result A E))
    → (o ≡ panicked) ⊎ (((e : E) × (o ≡ returned (err e))) ⊎ ((a : A) × (o ≡ returned (ok a))))
attempt_cases panicked = inl refl
attempt_cases (returned (err e)) = inr (inl (e, refl))
attempt_cases (returned (ok a)) = inr (inr (a, refl))

either_of : {A B C : Type 0} → A ⊎ B → A ⊎ (B ⊎ C)
either_of (inl a) = inl a
either_of (inr b) = inr (inl b)

module _ {Error Duration Gauge W : Type 0} (s : SkipMap C5DataValue) (sha256 : List ℕ → List ℕ)
    (logger : Logger Error W) (stats : StatsRecorder Duration Gauge W)
    (debug_of : SecretDecryptorError → Str) where
  abbrev pub Run : Type 0
  Run = Outcome (Option (List ℕ)) × Observed s sha256 logger stats debug_of

  -- The attempt is counted.
  abbrev pub counted : W → W
  counted w =
      stats.record_counter_increment ((bytes_of "group", TagValue.string (bytes_of "c5store")) ∷ [])
        (bytes_of "set_secret_attempts") w

  -- The secret is given up, with a warning that comes last.
  abbrev pub IsReported : W → Run → Type 0
  IsReported w r =
      (r.0 ≡ returned none)
      × ((message : Str) × ((r.1.1 ≡ logger.warn message w)
            ⊎ (r.1.1 ≡ logger.warn message (counted w))))

  -- The call ends in silence, with the plain text or in a panic of the decryptor.
  abbrev pub IsDecrypted : W → Run → Type 0
  IsDecrypted w r =
      ((r.0 ≡ panicked) ⊎ ((plain : List ℕ) × (r.0 ≡ returned (some plain)))) × (r.1.1 ≡ counted w)

  -- The call ends in silence, with nothing done: the secret is the one that was recorded first.
  abbrev pub IsRepeated : Str → C5DataValue → Store s sha256 → W → Run → Type 0
  IsRepeated key_path value d w r =
      (algo : Str) × (key_name : Str) × (encoded : Str) × (secret_args value
        ≡ some (algo, key_name, encoded))
      × (HashMap.lookup key_path d.value_hash_cache
          ≡ some (calc_hash_value sha256 algo key_name encoded))
      × (r ≡ (returned none, (d, w)))

  decrypt_ends :
      (key_path algo key_name encoded : Str) (d : Store s sha256) (w : W)
      → let r =
          decrypt_observed s sha256 logger stats debug_of key_path algo key_name encoded (d, w) in
        IsReported w r ⊎ IsDecrypted w r
  unfolding decrypt_observed get_decryptor HashMap.lookup
  decrypt_ends key_path algo key_name encoded d w =
      let unloaded = of_key_path key_path (bytes_of "decryptor or key is not loaded") in
      elim (Option-cases (get_decryptor d.secret_key_store algo)) [
        | inl e ↦ rw e (inl (refl, (unloaded, inr refl)))
        | inr (decrypt, e) ↦ elim (Option-cases (get_key d.secret_key_store key_name)) [
          | inl f ↦ rw (e, f) (inl (refl, (unloaded, inr refl)))
          | inr (key, f) ↦ elim (attempt_cases (decrypt encoded key)) [
            | inl g ↦ rw (e, f, g) (inr (inl refl, refl))
            | inr (inl (error, g)) ↦
                rw (e, f, g)
                  (inl (
                    refl,
                    (
                      of_key_path key_path
                          (bytes_of "could not decrypt due to error " ++ debug_of error),
                      inr refl,
                    ),
                  ))
            | inr (inr (plain, g)) ↦ rw (e, f, g) (inr (inr (plain, refl), refl))
          ]
        ]
      ]

  fresh_ends :
      (key_path algo key_name encoded : Str) (d : Store s sha256) (w : W)
      → let r =
          fresh_observed s sha256 logger stats debug_of key_path algo key_name encoded (d, w) in
        IsReported w r
        ⊎ (IsDecrypted w r
            ⊎ ((HashMap.lookup key_path d.value_hash_cache
                  ≡ some (calc_hash_value sha256 algo key_name encoded))
                × (r ≡ (returned none, (d, w)))))
  unfolding fresh_observed check_hash
  fresh_ends key_path algo key_name encoded d w =
      let hash_value = calc_hash_value sha256 algo key_name encoded in
      let known = HashMap.lookup key_path d.value_hash_cache in
      elim (Option-cases known) [
        | inl e ↦
            let cache = HashMap.insert key_path hash_value d.value_hash_cache in
            rw (e, fresh_observed, check_hash)
              (either_of (
                decrypt_ends key_path algo key_name encoded (record d { value_hash_cache = cache })
                  w))
        | inr (existing, e) ↦ elim (Bool-cases (existing == hash_value)) [
          | inl same ↦
              let h : existing ≡ hash_value = (eq_iff existing hash_value).0 same in
              rw (e, fresh_observed, check_hash) (rw same (inr (inr (rw h refl, refl))))
          | inr other ↦
              rw (e, fresh_observed, check_hash)
                (rw other (either_of (decrypt_ends key_path algo key_name encoded d w)))
        ]
      ]

  -- That one of the three holds of the end of a call.
  abbrev pub EndsWell : Str → C5DataValue → Store s sha256 → W → Run → Type 0
  EndsWell key_path value d w r =
      IsReported w r ⊎ (IsDecrypted w r ⊎ IsRepeated key_path value d w r)

  three_ends :
      (key_path : Str) (a k e : C5DataValue) (d : Store s sha256) (w : W)
      → EndsWell key_path
          (array (cons a (cons k (cons e nil))))
          d
          w
          (three_observed s sha256 logger stats debug_of key_path a k e (d, w))
  unfolding three_observed secret_args try_into_string try_into_vec
  three_ends key_path (string a) (string k) (string e) d w = elim (fresh_ends key_path a k e d w) [
    | inl reported ↦ inl reported
    | inr (inl decrypted) ↦ inr (inl decrypted)
    | inr (inr (known, same)) ↦ inr (inr (a, k, e, refl, known, same))
  ]
  three_ends key_path (string a) (string k) e d w =
      inl (refl, (of_key_path key_path (bytes_of "encoded data is invalid"), inl refl))
  three_ends key_path (string a) k e d w =
      inl (refl, (of_key_path key_path (bytes_of "secret key name is invalid"), inl refl))
  three_ends key_path a k e d w =
      inl (refl, (of_key_path key_path (bytes_of "algo is invalid"), inl refl))

  -- A secret that is given up is warned about, and the warning is the last thing that is told of
  -- it, unless it is the secret that was recorded under its key, which is passed over in silence.
  -- Every other call is counted and says no more: it ends with the plain text, or in a panic of the
  -- decryptor.
  pub get_secret_observed_ends :
      (key_path : Str) (value : C5DataValue) (d : Store s sha256) (w : W)
      → EndsWell key_path value d w
          (get_secret_observed s sha256 logger stats debug_of key_path value (d, w))
  unfolding get_secret_observed try_into_vec
  get_secret_observed_ends key_path (array (cons a (cons k (cons e nil)))) d w =
      three_ends key_path a k e d w
  get_secret_observed_ends key_path (array items) d w = inl (refl, (wrong_count key_path, inl refl))
  get_secret_observed_ends key_path value d w =
      inl (refl, (of_key_path key_path (bytes_of "data is invalid"), inl refl))
