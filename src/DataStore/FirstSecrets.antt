-- ===== src/DataStore/FirstSecrets.antt =====
-- A secret that is set for the first time (c5store_rust/src/internal.rs).
use c5store.Base.{ℕ, ◌≡◌, List, ◌++◌, none, some, returned, ok}
use c5store.Text.{Str, str_eq}
use c5store.Text.Suffix.{ends_with-append, take_suffix}
use c5store.HashMap
use c5store.Crates.SkipMap.{SkipMap, IsLawful}
use c5store.Secrets.{SecretDecryptor, get_decryptor, get_key}
use c5store.Value.{C5DataValue, bytes}
use c5store.DataStore.{Store, get_data, set_data}
use c5store.DataStore.SecretValues.{secret_value, decrypt_with_ok, get_secret-new}

module _ (s : SkipMap C5DataValue) (lawful : IsLawful s) (sha256 : List ℕ → List ℕ) where
  -- A well-formed secret that was not set before is decrypted with the decryptor and the key that
  -- it names, and its plain text is read back under the key without the segment.
  pub set_data_decrypts :
      (d : Store s sha256) (base algo key_name encoded : Str) (decrypt : SecretDecryptor)
      (key plain : List ℕ)
      → get_decryptor d.secret_key_store algo ≡ some decrypt
      → get_key d.secret_key_store key_name ≡ some key
      → decrypt encoded key ≡ returned (ok plain)
      → HashMap.lookup (base ++ d.secret_key_path_segment) d.value_hash_cache ≡ none
      → get_data s sha256
          (set_data s sha256 d
            (base ++ d.secret_key_path_segment)
            (secret_value algo key_name encoded)).1
          base
        ≡ some (bytes plain)
  unfolding set_data get_data
  set_data_decrypts d base algo key_name encoded decrypt key plain hd hk hp hc =
      let segment = d.secret_key_path_segment in
      rw
        (
          ends_with-append base segment,
          get_secret-new s sha256 d (base ++ segment) algo key_name encoded hc,
        )
        (rw
          (
            decrypt_with_ok d.secret_key_store algo key_name encoded decrypt key plain hd hk hp,
            take_suffix base segment,
          )
          (rw (lawful.get-insert, lawful.same_key_refl)))

  -- That call returns what was read under the key without the segment.
  pub set_data_decrypts_returns :
      (d : Store s sha256) (base algo key_name encoded : Str) (decrypt : SecretDecryptor)
      (key plain : List ℕ)
      → get_decryptor d.secret_key_store algo ≡ some decrypt
      → get_key d.secret_key_store key_name ≡ some key
      → decrypt encoded key ≡ returned (ok plain)
      → HashMap.lookup (base ++ d.secret_key_path_segment) d.value_hash_cache ≡ none
      → (set_data s sha256 d
          (base ++ d.secret_key_path_segment)
          (secret_value algo key_name encoded)).0
        ≡ returned (get_data s sha256 d base)
  unfolding set_data get_data
  set_data_decrypts_returns d base algo key_name encoded decrypt key plain hd hk hp hc =
      let segment = d.secret_key_path_segment in
      rw
        (
          ends_with-append base segment,
          get_secret-new s sha256 d (base ++ segment) algo key_name encoded hc,
        )
        (rw
          (
            decrypt_with_ok d.secret_key_store algo key_name encoded decrypt key plain hd hk hp,
            take_suffix base segment,
          )
          (rw lawful.insert_old))
