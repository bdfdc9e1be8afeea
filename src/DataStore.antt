-- ===== src/DataStore.antt =====
-- `C5DataStore` of c5store_rust/src/internal.rs: the values by key path, and the decryption of
-- secrets as they are set. The locks are taken and given back within one operation, so an operation
-- is one step. Counters and log lines are those of Telemetry. SHA-256 is a parameter.
pub mod Plain
pub mod SecretValues
pub mod FirstSecrets
pub mod HashCache
pub mod Opens
pub mod Prefix
use c5store.Base.{
  ℕ, ◌-◌, Bool, true, false, ◌&&◌, not, Option, none, some, List, [], ◌∷◌, ◌++◌, ◌==◌, nat_eq,
  Result, ok, err, Outcome, returned, panicked, if◌then◌else◌, length, take, ◌≡◌,
}
use c5store.Text.{Str, str_eq, bytes_of, starts_with, ends_with}
use c5store.HashMap
use c5store.Crates.SkipMap.{SkipMap}
use c5store.Secrets.{SecretKeyStore, SecretDecryptorError, get_decryptor, get_key}
use c5store.Value.{
  C5DataValue, null, bytes, boolean, integer, uinteger, float, string, array, map, Items, nil, cons,
}
use c5store.Value.Path.{and_then}
use c5store.Value.Convert.{try_into_vec, try_into_string}

pub record C5DataStore (Data : Type 0) : Type 0 where
  pub secret_key_path_segment : Str
  pub secret_key_store : SecretKeyStore
  pub value_hash_cache : List (Str × List ℕ)
  pub contents : Data

-- `Result::ok`
abbrev pub ok_of : {A : Type 0} → Result A (Unit {0}) → Option A
ok_of (ok a) = some a
ok_of (err e) = none

-- The decryptor's name, the key's name and the encrypted data, of an array of three strings.
unfoldable pub three_strings : Items → Option (Str × Str × Str)
three_strings (cons algo (cons key_name (cons encoded nil))) =
    and_then (ok_of (try_into_string algo)) λ a.
      and_then (ok_of (try_into_string key_name))
        λ k. and_then (ok_of (try_into_string encoded)) λ d. some (a, k, d)
three_strings _ = none

unfoldable pub secret_args : C5DataValue → Option (Str × Str × Str)
unfolding three_strings try_into_vec try_into_string
secret_args value = and_then (ok_of (try_into_vec value)) three_strings

-- The three updates of the hasher hash one text after the other.
unfoldable pub calc_hash_value : (List ℕ → List ℕ) → Str → Str → Str → List ℕ
calc_hash_value sha256 algo secret_key_name encoded_data =
    sha256 (algo ++ (secret_key_name ++ encoded_data))

abbrev pub decrypted : Outcome (Result (List ℕ) SecretDecryptorError) → Outcome (Option (List ℕ))
decrypted (returned (ok value)) = returned (some value)
decrypted (returned (err e)) = returned none
decrypted panicked = panicked

-- The decryption itself: no value without the decryptor and the key, or after an error of it.
unfoldable pub decrypt_with : SecretKeyStore → Str → Str → Str → Outcome (Option (List ℕ))
decrypt_with store algo secret_key_name encoded_data = elim (get_decryptor store algo) [
  | none ↦ returned none
  | some decrypt ↦ elim (get_key store secret_key_name) [
    | none ↦ returned none
    | some key ↦ decrypted (decrypt encoded_data key)
  ]
]

module _ (s : SkipMap C5DataValue) (sha256 : List ℕ → List ℕ) where
  abbrev pub Store : Type 0
  Store = C5DataStore s.Map

  unfoldable pub new : Str → SecretKeyStore → Store
  new secret_key_path_segment secret_key_store = record {
    secret_key_path_segment = b'.' ∷ secret_key_path_segment;
    secret_key_store = secret_key_store;
    value_hash_cache = [];
    contents = s.new;
  }

  unfoldable pub get_data : Store → Str → Option C5DataValue
  get_data d key = s.get key d.contents

  unfoldable pub exists : Store → Str → Bool
  exists d key = s.contains_key key d.contents

  -- `get_data_ref`, and `value` of the reference that it returns while the lock is held.
  unfoldable pub get_data_ref : Store → Str → Option Str
  get_data_ref d key = if s.contains_key key d.contents then some key else none

  unfoldable pub ref_value : Store → Str → Option C5DataValue
  ref_value d natural_key_path = s.get natural_key_path d.contents

  -- The hash cache after the look at it, and whether to go on: an entry with this hash ends the call,
  -- an entry with another stays, and no entry is filled in.
  unfoldable pub check_hash : Str → List ℕ → List (Str × List ℕ) → Bool × List (Str × List ℕ)
  check_hash key_path hash_value cache = elim (HashMap.lookup key_path cache) [
    | some existing ↦ (not (existing == hash_value), cache)
    | none ↦ (true, HashMap.insert key_path hash_value cache)
  ]

  unfoldable pub get_secret : Store → Str → C5DataValue → Outcome (Option (List ℕ)) × Store
  unfolding calc_hash_value check_hash
  get_secret d key_path value = elim (secret_args value) [
    | none ↦ (returned none, d)
    | some (algo, secret_key_name, encoded_data) ↦
        let hash_value = calc_hash_value sha256 algo secret_key_name encoded_data in
        let (fresh, cache) = check_hash key_path hash_value d.value_hash_cache in
        let d' : Store = record d { value_hash_cache = cache } in
        if fresh
        then (decrypt_with d.secret_key_store algo secret_key_name encoded_data, d')
        else (returned none, d')
  ]

  unfoldable pub insert_value : Store → Str → C5DataValue → Outcome (Option C5DataValue) × Store
  insert_value d key value =
      let (old, m) = s.insert key value d.contents in (returned old, record d { contents = m })

  -- `&key[..(key.len() - segment.len())]`
  unfoldable pub data_path : Str → Str → Str
  data_path segment key = take (length key - length segment) key

  abbrev pub store_secret :
      Str → Outcome (Option (List ℕ)) × Store → Outcome (Option C5DataValue) × Store
  store_secret path (returned none, d) = (returned none, d)
  store_secret path (returned (some decrypted_val), d) = insert_value d path (bytes decrypted_val)
  store_secret path (panicked, d) = (panicked, d)

  unfoldable pub set_data : Store → Str → C5DataValue → Outcome (Option C5DataValue) × Store
  unfolding get_secret insert_value data_path
  set_data d key value =
      if ends_with key d.secret_key_path_segment
      then store_secret (data_path d.secret_key_path_segment key) (get_secret d key value)
      else insert_value d key value

  -- The loop over the range stops at the first key without the prefix.
  unfoldable pub keys_while_prefix : Str → List (Str × C5DataValue) → List Str
  keys_while_prefix prefix [] = []
  keys_while_prefix prefix ((key, value) ∷ entries) =
      let rest = keys_while_prefix prefix entries in
      if starts_with key prefix then key ∷ rest else []

  unfoldable pub all_keys : List (Str × C5DataValue) → List Str
  all_keys [] = []
  all_keys ((key, value) ∷ entries) = key ∷ all_keys entries

  unfoldable pub keys_with_prefix : Store → Option Str → List Str
  unfolding all_keys keys_while_prefix
  keys_with_prefix d none = all_keys (s.iter d.contents)
  keys_with_prefix d (some key_path) =
      keys_while_prefix (key_path ++ (b'.' ∷ [])) (s.range_from key_path d.contents)
