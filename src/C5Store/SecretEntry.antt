-- ===== src/C5Store/SecretEntry.antt =====
-- A secret that is set through `set_data_fn` (c5store_rust/src/lib.rs, c5store_rust/src/internal.rs).
use c5store.Base.{ℕ, ◌≡◌, refl, none, some, List, ◌++◌, returned, ok}
use c5store.Text.{Str, str_eq}
use c5store.HashMap
use c5store.Crates.SkipMap.{SkipMap, IsLawful}
use c5store.Crates.ListMultiMap.{ListMultiMap}
use c5store.Secrets.{SecretDecryptor, get_decryptor, get_key}
use c5store.Value.{C5DataValue, bytes}
use c5store.DataStore.SecretValues.{secret_value}
use c5store.DataStore.FirstSecrets.{set_data_decrypts, set_data_decrypts_returns}
use c5store.C5Store.{State, set_data_fn, root_get}
use c5store.C5Store.SetData.{set_data_fn_new}

module _ {L : Type 0} (s : SkipMap C5DataValue) (lawful : IsLawful s) (sha256 : List ℕ → List ℕ)
    (m : ListMultiMap L) where
  -- A well-formed secret under a key that has no value, set for the first time by set_data_fn: the
  -- call returns, the plain text that the decryptor and the key it names give is read from the root
  -- under the key without the segment, and nobody is told of a change.
  pub set_data_fn_decrypts :
      (a : State s sha256 m) (base algo key_name encoded : Str) (decrypt : SecretDecryptor)
      (key plain : List ℕ)
      → get_decryptor a.data_store.secret_key_store algo ≡ some decrypt
      → get_key a.data_store.secret_key_store key_name ≡ some key
      → decrypt encoded key ≡ returned (ok plain)
      → HashMap.lookup (base ++ a.data_store.secret_key_path_segment) a.data_store.value_hash_cache
        ≡ none
      → root_get s sha256 m a (base ++ a.data_store.secret_key_path_segment) ≡ none
      → let (result, a') =
          set_data_fn s sha256 m
            (base ++ a.data_store.secret_key_path_segment)
            (secret_value algo key_name encoded)
            a in
        (result ≡ returned tt)
        × (root_get s sha256 m a' base ≡ some (bytes plain))
        × (a'.notifier ≡ a.notifier)
  unfolding root_get
  set_data_fn_decrypts a base algo key_name encoded decrypt key plain hd hk hp hc absent =
      let secret = base ++ a.data_store.secret_key_path_segment in
      rw (set_data_fn_new s lawful sha256 m a secret (secret_value algo key_name encoded) absent) (
        rw
          (set_data_decrypts_returns s lawful sha256 a.data_store base algo key_name encoded decrypt
            key plain hd hk hp hc)
          (
            refl,
            set_data_decrypts s lawful sha256 a.data_store base algo key_name encoded decrypt key
                plain hd hk hp hc,
            refl,
          ))
