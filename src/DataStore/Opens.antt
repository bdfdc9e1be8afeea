-- ===== src/DataStore/Opens.antt =====
-- The entries that `set_data` of `C5DataStore` (c5store_rust/src/internal.rs) takes without a complaint:
-- plain values, and secrets that can be decrypted.
use c5store.Base.{
  ℕ, ◌≡◌, refl, ◌⊎◌, inl, inr, false, List, ◌++◌, nat_eq, Option, none, some, Outcome, returned, ok,
  arith, ◌==◌, if◌then◌else◌, ap,
}
use c5store.Text.{Str, str_eq, ends_with}
use c5store.Text.Suffix.{ends_with-append, take_suffix}
use c5store.HashMap
use c5store.Crates.SkipMap.{SkipMap, IsLawful, same_key}
use c5store.Secrets.{SecretKeyStore, SecretDecryptor, get_decryptor, get_key}
use c5store.Value.{C5DataValue, bytes}
use c5store.DataStore.{Store, get_data, set_data, insert_value, calc_hash_value}
use c5store.DataStore.Plain.{set_data_plain}
use c5store.DataStore.SecretValues.{secret_value, decrypt_with_ok, get_secret-new}

-- The entry is a secret, which is opened as the value under the key without the segment.
pub record IsSecret (segment : Str) (keys : SecretKeyStore) (key : Str) (value : C5DataValue)
    (base : Str) (opened : C5DataValue) : Type 0 where
  pub algo : Str
  pub key_name : Str
  pub encoded : Str
  pub decrypt : SecretDecryptor
  pub secret_key : List ℕ
  pub plain : List ℕ
  pub key_is : key ≡ base ++ segment
  pub value_is : value ≡ secret_value algo key_name encoded
  pub opened_is : opened ≡ bytes plain
  pub decryptor : get_decryptor keys algo ≡ some decrypt
  pub key_there : get_key keys key_name ≡ some secret_key
  pub decrypts : decrypt encoded secret_key ≡ returned (ok plain)

-- The entry is stored as it is, or is a secret that is opened.
abbrev pub EntryOpens : Str → SecretKeyStore → Str → C5DataValue → Str → C5DataValue → Type 0
EntryOpens segment keys key value base opened =
    ((ends_with key segment ≡ false) × (key ≡ base) × (value ≡ opened))
    ⊎ IsSecret segment keys key value base opened

module _ (s : SkipMap C5DataValue) (sha256 : List ℕ → List ℕ) where
  -- What a call of `set_data` writes: the one value, and no record of a hash but under its key.
  pub record Sets (d : Store s sha256) (key base : Str) (opened : C5DataValue)
      (r : Outcome (Option C5DataValue) × Store s sha256) : Type 0 where
    pub old : Option C5DataValue
    pub finished : r.0 ≡ returned old
    pub reads :
        (j : Str)
        → get_data s sha256 r.1 j
          ≡ (if same_key s base j then some opened else get_data s sha256 d j)
    pub segment : r.1.secret_key_path_segment ≡ d.secret_key_path_segment
    pub keys : r.1.secret_key_store ≡ d.secret_key_store
    pub cache :
        (k : Str)
        → (key == k) ≡ false
        → HashMap.lookup k r.1.value_hash_cache ≡ HashMap.lookup k d.value_hash_cache

module _ (s : SkipMap C5DataValue) (lawful : IsLawful s) (sha256 : List ℕ → List ℕ) where
  secret_state :
      (d : Store s sha256) (base algo key_name encoded : Str) (decrypt : SecretDecryptor)
      (key plain : List ℕ)
      → get_decryptor d.secret_key_store algo ≡ some decrypt
      → get_key d.secret_key_store key_name ≡ some key
      → decrypt encoded key ≡ returned (ok plain)
      → HashMap.lookup (base ++ d.secret_key_path_segment) d.value_hash_cache ≡ none
      → set_data s sha256 d (base ++ d.secret_key_path_segment) (secret_value algo key_name encoded)
        ≡ insert_value s sha256
            (record d {
              value_hash_cache =
                  HashMap.insert
                    (base ++ d.secret_key_path_segment)
                    (calc_hash_value sha256 algo key_name encoded)
                    d.value_hash_cache;
            })
            base
            (bytes plain)
  unfolding set_data
  secret_state d base algo key_name encoded decrypt key plain hd hk hp hc =
      let segment = d.secret_key_path_segment in
      rw
        (
          ends_with-append base segment,
          get_secret-new s sha256 d (base ++ segment) algo key_name encoded hc,
        )
        (rw
          (
            decrypt_with_ok d.secret_key_store algo key_name encoded decrypt key plain hd hk hp,
            take_suffix base segment,
          )
          refl)

  plain-Sets :
      (d : Store s sha256) (key : Str) (value : C5DataValue)
      → ends_with key d.secret_key_path_segment ≡ false
      → Sets s sha256 d key key value (set_data s sha256 d key value)
  unfolding set_data insert_value
  plain-Sets d key value h =
      let (ret, reads, cache) = set_data_plain s lawful sha256 d key value h in
      record {
        old = get_data s sha256 d key;
        finished = ret;
        reads = reads;
        segment = rw h refl;
        keys = rw h refl;
        cache = λ k other. ap (HashMap.lookup k) cache;
      }

  insert-Sets :
      (d : Store s sha256) (key base : Str) (hash plain : List ℕ)
      → Sets s sha256 d key base (bytes plain) (
          insert_value s sha256
            (record d { value_hash_cache = HashMap.insert key hash d.value_hash_cache })
            base
            (bytes plain))
  unfolding insert_value get_data
  insert-Sets d key base hash plain = record {
    old = (s.insert base (bytes plain) d.contents).0;
    finished = refl;
    reads = λ j. lawful.get-insert base j (bytes plain) d.contents;
    segment = refl;
    keys = refl;
    cache = λ k other. ground (arith, HashMap.lookup-insert key k hash d.value_hash_cache);
  }

  secret-Sets :
      (d : Store s sha256) (key base : Str) (value opened : C5DataValue)
      → IsSecret d.secret_key_path_segment d.secret_key_store key value base opened
      → HashMap.lookup key d.value_hash_cache ≡ none
      → Sets s sha256 d key base opened (set_data s sha256 d key value)
  secret-Sets d key base value opened e fresh =
      let k = base ++ d.secret_key_path_segment in
      let hash = calc_hash_value sha256 e.algo e.key_name e.encoded in
      rw (e.key_is, e.value_is, e.opened_is)
        (rw
          (secret_state d base e.algo e.key_name e.encoded e.decrypt e.secret_key e.plain
            e.decryptor e.key_there e.decrypts (rw e.key_is at fresh))
          (insert-Sets d k base hash e.plain))

  -- An entry that opens is set without a panic, and nothing else changes, if no secret has been
  -- recorded under its key.
  pub set_data-Sets :
      (d : Store s sha256) (key base : Str) (value opened : C5DataValue)
      → EntryOpens d.secret_key_path_segment d.secret_key_store key value base opened
      → HashMap.lookup key d.value_hash_cache ≡ none
      → Sets s sha256 d key base opened (set_data s sha256 d key value)
  set_data-Sets d key base value opened (inr e) fresh = secret-Sets d key base value opened e fresh
  set_data-Sets d key base value opened (inl (plain, key_same, value_same)) fresh =
      rw (← key_same, ← value_same) (plain-Sets d key value plain)
