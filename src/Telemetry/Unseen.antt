-- ===== src/Telemetry/Unseen.antt =====
-- Whatever is logged and counted, the store does the same (c5store_rust/src/internal.rs).
use c5store.Base.{
  ℕ, ◌≡◌, refl, Bool-cases, inl, inr, Option, none, some, List, Outcome, returned, panicked, arith,
  ap, ◌∙◌, [], ◌∷◌, if◌then◌else◌,
}
use c5store.Base.Exec.{continue}
use c5store.Text.{Str, bytes_of, ends_with}
use c5store.Crates.SkipMap.{SkipMap}
use c5store.Secrets.{SecretDecryptorError}
use c5store.Value.{C5DataValue, string, array, nil, cons}
use c5store.Value.Convert.{try_into_vec, try_into_string}
use c5store.DataStore.{
  Store, get_secret, set_data, secret_args, decrypt_with, store_secret, data_path, check_hash,
  calc_hash_value,
}
use c5store.Telemetry.{Logger, StatsRecorder, TagValue}
use c5store.Telemetry.Observed.{
  Observed, decrypt_observed, fresh_observed, three_observed, get_secret_observed,
  set_data_observed, stored_observed,
}

-- The result and the store, without what was logged and counted.
abbrev pub forget : {A S W : Type 0} → Outcome A × (S × W) → Outcome A × S
forget (result, (d, w)) = (result, d)

module _ {Error Duration Gauge W : Type 0} (s : SkipMap C5DataValue) (sha256 : List ℕ → List ℕ)
    (logger : Logger Error W) (stats : StatsRecorder Duration Gauge W)
    (debug_of : SecretDecryptorError → Str) where
  decrypt_observed-forget :
      (key_path algo key_name encoded : Str) (d : Store s sha256) (w : W)
      → forget
          (decrypt_observed s sha256 logger stats debug_of key_path algo key_name encoded (d, w))
        ≡ (decrypt_with d.secret_key_store algo key_name encoded, d)
  unfolding decrypt_observed decrypt_with
  decrypt_observed-forget key_path algo key_name encoded d w = ground arith

  fresh_observed-forget :
      (key_path algo key_name encoded : Str) (d : Store s sha256) (w : W)
      → forget (fresh_observed s sha256 logger stats debug_of key_path algo key_name encoded (d, w))
        ≡ (let hash_value = calc_hash_value sha256 algo key_name encoded in
            let (fresh, cache) = check_hash s sha256 key_path hash_value d.value_hash_cache in
            let d' : Store s sha256 = record d { value_hash_cache = cache } in
            if fresh
            then (decrypt_with d.secret_key_store algo key_name encoded, d')
            else (returned none, d'))
  unfolding fresh_observed
  fresh_observed-forget key_path algo key_name encoded d w =
      let hash_value = calc_hash_value sha256 algo key_name encoded in
      let (fresh, cache) = check_hash s sha256 key_path hash_value d.value_hash_cache in
      elim (Bool-cases fresh) [
        | inl isnew ↦ rw isnew (
            decrypt_observed-forget key_path algo key_name encoded
              (record d { value_hash_cache = cache }) w)
        | inr stale ↦ rw stale refl
      ]

  three_observed-forget :
      (key_path : Str) (a k e : C5DataValue) (d : Store s sha256) (w : W)
      → forget (three_observed s sha256 logger stats debug_of key_path a k e (d, w))
        ≡ get_secret s sha256 d key_path (array (cons a (cons k (cons e nil))))
  unfolding three_observed get_secret secret_args try_into_string try_into_vec
  three_observed-forget key_path (string a) (string k) (string e) d w =
      fresh_observed-forget key_path a k e d w
  three_observed-forget key_path (string a) (string k) e d w = refl
  three_observed-forget key_path (string a) k e d w = refl
  three_observed-forget key_path a k e d w = refl

  get_secret_observed-forget :
      (key_path : Str) (value : C5DataValue) (d : Store s sha256) (w : W)
      → forget (get_secret_observed s sha256 logger stats debug_of key_path value (d, w))
        ≡ get_secret s sha256 d key_path value
  unfolding get_secret_observed get_secret secret_args try_into_vec
  get_secret_observed-forget key_path (array (cons a (cons k (cons e nil)))) d w =
      three_observed-forget key_path a k e d w
  get_secret_observed-forget key_path value d w = refl

  stored_observed-forget :
      (path : Str) (r : Outcome (Option (List ℕ)) × Observed s sha256 logger stats debug_of)
      → forget (continue r.0 (stored_observed s sha256 logger stats debug_of path) r.1)
        ≡ store_secret s sha256 path (forget r)
  stored_observed-forget path (returned none, (d, w)) = refl
  stored_observed-forget path (returned (some plain), (d, w)) = refl
  stored_observed-forget path (panicked, (d, w)) = refl

  -- Setting a value returns the same and leaves the same store, whatever the logger and the recorder
  -- do with what they are told.
  pub set_data_observed-forget :
      (key : Str) (value : C5DataValue) (d : Store s sha256) (w : W)
      → forget (set_data_observed s sha256 logger stats debug_of key value (d, w))
        ≡ set_data s sha256 d key value
  unfolding set_data_observed set_data
  set_data_observed-forget key value d w =
      elim (Bool-cases (ends_with key d.secret_key_path_segment)) [
        | inr plain ↦ rw plain refl
        | inl secret ↦
            let w' =
              stats.record_counter_increment
                ((bytes_of "group", TagValue.string (bytes_of "c5store")) ∷ [])
                (bytes_of "set_attempts") w in
            let path = data_path s sha256 d.secret_key_path_segment key in
            rw secret (
              stored_observed-forget path
                (get_secret_observed s sha256 logger stats debug_of key value (d, w'))
              ∙ ap (store_secret s sha256 path) (get_secret_observed-forget key value d w'))
      ]
