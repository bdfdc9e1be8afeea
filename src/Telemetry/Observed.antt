-- ===== src/Telemetry/Observed.antt =====
-- The operations of `C5DataStore` (c5store_rust/src/internal.rs) with their counters and log lines, and
-- with each check of `_get_secret` and its message where the code has it.
use c5store.Base.{
  ℕ, Bool, Option, none, some, List, [], ◌∷◌, ◌++◌, ok, err, returned, panicked, if◌then◌else◌,
}
use c5store.Base.Exec.{Exec, pure, ◌>>◌, ◌>>=◌}
use c5store.Text.{Str, bytes_of, ends_with}
use c5store.Crates.SkipMap.{SkipMap}
use c5store.Secrets.{SecretDecryptorError, get_decryptor, get_key}
use c5store.Value.{C5DataValue, bytes, Items, nil, cons}
use c5store.Value.Convert.{try_into_vec, try_into_string}
use c5store.DataStore.{
  Store, calc_hash_value, check_hash, data_path, insert_value, get_data, exists, get_data_ref,
}
use c5store.Telemetry.{Logger, StatsRecorder, TagValue}

-- format!("Key Path `{}`{}", key_path, what)
abbrev pub of_key_path : Str → Str → Str
of_key_path key_path what = bytes_of "Key Path `" ++ (key_path ++ (bytes_of "` " ++ what))

abbrev pub wrong_count : Str → Str
wrong_count key_path =
    bytes_of "Key path `"
    ++ (key_path ++ bytes_of "` does not have the required number of arguments")

module _ {Error Duration Gauge W : Type 0} (s : SkipMap C5DataValue) (sha256 : List ℕ → List ℕ)
    (logger : Logger Error W) (stats : StatsRecorder Duration Gauge W)
    (debug_of : SecretDecryptorError → Str) where
  -- The store and what its logger and its recorder write to.
  abbrev pub Observed : Type 0
  Observed = Store s sha256 × W

  abbrev pub count : Str → Exec Observed (Unit {0})
  count name (d, w) = (
    returned tt,
    (
      d,
      stats.record_counter_increment ((bytes_of "group", TagValue.string (bytes_of "c5store")) ∷ [])
          name w,
    ),
  )

  abbrev pub warn : Str → Exec Observed (Option (List ℕ))
  warn message (d, w) = (returned none, (d, logger.warn message w))

  unfoldable pub get_data_observed : Str → Exec Observed (Option C5DataValue)
  get_data_observed key = do
    count (bytes_of "get_attempts")
    λ (d, w). (returned (get_data s sha256 d key), (d, w))

  unfoldable pub get_data_ref_observed : Str → Exec Observed (Option Str)
  get_data_ref_observed key = do
    count (bytes_of "get_attempts")
    λ (d, w). (returned (get_data_ref s sha256 d key), (d, w))

  unfoldable pub exists_observed : Str → Exec Observed Bool
  exists_observed key = do
    count (bytes_of "exists_attempts")
    λ (d, w). (returned (exists s sha256 d key), (d, w))

  -- From the counter of the attempt on: the decryptor and the key are both looked up.
  unfoldable pub decrypt_observed : Str → Str → Str → Str → Exec Observed (Option (List ℕ))
  decrypt_observed key_path algo secret_key_name encoded_data = do
    count (bytes_of "set_secret_attempts")
    λ (d, w). elim (get_decryptor d.secret_key_store algo) [
      | none ↦ warn (of_key_path key_path (bytes_of "decryptor or key is not loaded")) (d, w)
      | some decrypt ↦ elim (get_key d.secret_key_store secret_key_name) [
        | none ↦ warn (of_key_path key_path (bytes_of "decryptor or key is not loaded")) (d, w)
        | some key ↦ elim (decrypt encoded_data key) [
          | returned (ok decrypted_val) ↦ (returned (some decrypted_val), (d, w))
          | returned (err e) ↦
              warn (of_key_path key_path (bytes_of "could not decrypt due to error " ++ debug_of e))
                (d, w)
          | panicked ↦ (panicked, (d, w))
        ]
      ]
    ]

  -- The look at the hash cache, and what it lets through.
  unfoldable pub fresh_observed : Str → Str → Str → Str → Exec Observed (Option (List ℕ))
  unfolding decrypt_observed
  fresh_observed key_path algo secret_key_name encoded_data (d, w) =
      let hash_value = calc_hash_value sha256 algo secret_key_name encoded_data in
      let (fresh, cache) = check_hash s sha256 key_path hash_value d.value_hash_cache in
      let d' : Store s sha256 = record d { value_hash_cache = cache } in
      if fresh
      then decrypt_observed key_path algo secret_key_name encoded_data (d', w)
      else (returned none, (d', w))

  -- The three entries of the array, each of which has to be a string.
  unfoldable pub three_observed :
      Str → C5DataValue → C5DataValue → C5DataValue → Exec Observed (Option (List ℕ))
  unfolding fresh_observed
  three_observed key_path algo_value key_name_value encoded_value =
      elim (try_into_string algo_value) [
        | err e ↦ warn (of_key_path key_path (bytes_of "algo is invalid"))
        | ok algo ↦ elim (try_into_string key_name_value) [
          | err e ↦ warn (of_key_path key_path (bytes_of "secret key name is invalid"))
          | ok secret_key_name ↦ elim (try_into_string encoded_value) [
            | err e ↦ warn (of_key_path key_path (bytes_of "encoded data is invalid"))
            | ok encoded_data ↦ fresh_observed key_path algo secret_key_name encoded_data
          ]
        ]
      ]

  unfoldable pub items_observed : Str → Items → Exec Observed (Option (List ℕ))
  unfolding three_observed
  items_observed key_path (cons algo (cons key_name (cons encoded nil))) =
      three_observed key_path algo key_name encoded
  items_observed key_path _ = warn (wrong_count key_path)

  -- `_get_secret`
  unfoldable pub get_secret_observed : Str → C5DataValue → Exec Observed (Option (List ℕ))
  unfolding items_observed
  get_secret_observed key_path value = elim (try_into_vec value) [
    | err e ↦ warn (of_key_path key_path (bytes_of "data is invalid"))
    | ok items ↦ items_observed key_path items
  ]

  abbrev pub insert_observed : Str → C5DataValue → Exec Observed (Option C5DataValue)
  insert_observed key value (d, w) =
      let (old, d') = insert_value s sha256 d key value in (old, (d', w))

  abbrev pub stored_observed : Str → Option (List ℕ) → Exec Observed (Option C5DataValue)
  stored_observed path none = pure none
  stored_observed path (some decrypted_val) = insert_observed path (bytes decrypted_val)

  unfoldable pub set_data_observed : Str → C5DataValue → Exec Observed (Option C5DataValue)
  unfolding get_secret_observed
  set_data_observed key value = do
    count (bytes_of "set_attempts")
    λ (d, w).
        if ends_with key d.secret_key_path_segment
        then (get_secret_observed key value
              >>= stored_observed (data_path s sha256 d.secret_key_path_segment key))
            (d, w)
        else insert_observed key value (d, w)
