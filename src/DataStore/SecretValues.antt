-- ===== src/DataStore/SecretValues.antt =====
-- Setting secrets (c5store_rust/src/internal.rs).
use c5store.Base.{
  ℕ, ◌≡◌, refl, ap, ◌⊎◌, inl, inr, true, List, ◌++◌, nat_eq, Option, Option-cases, Bool-cases, none,
  some, Outcome, returned, panicked, Result, ok, err, arith, if◌then◌else◌,
}
use c5store.Text.{Str, str_eq, ends_with}
use c5store.Text.Suffix.{ends_with_split}
use c5store.HashMap
use c5store.Crates.SkipMap.{SkipMap, IsLawful, same_key}
use c5store.Secrets.{SecretKeyStore, SecretDecryptor, SecretDecryptorError, get_decryptor, get_key}
use c5store.Value.{C5DataValue, bytes, string, array, Items, nil, cons}
use c5store.Value.Convert.{try_into_vec, try_into_string}
use c5store.Value.Path.{and_then}
use c5store.DataStore.{
  Store, ok_of, get_data, set_data, get_secret, insert_value, secret_args, three_strings,
  check_hash, calc_hash_value, decrypt_with, decrypted, data_path, store_secret,
}

-- An array of a decryptor's name, a key's name and encrypted data.
abbrev pub secret_value : Str → Str → Str → C5DataValue
secret_value algo key_name encoded =
    array (cons (string algo) (cons (string key_name) (cons (string encoded) nil)))

pub decrypt_with_ok :
    (store : SecretKeyStore) (algo key_name encoded : Str) (decrypt : SecretDecryptor)
    (key plain : List ℕ)
    → get_decryptor store algo ≡ some decrypt
    → get_key store key_name ≡ some key
    → decrypt encoded key ≡ returned (ok plain)
    → decrypt_with store algo key_name encoded ≡ returned (some plain)
unfolding decrypt_with
decrypt_with_ok store algo key_name encoded decrypt key plain hd hk hp =
    rw (hd, decrypt_with) (rw (hk, decrypt_with) (rw hp))

module _ (s : SkipMap C5DataValue) (sha256 : List ℕ → List ℕ) where
  pub get_secret-new :
      (d : Store s sha256) (key_path algo key_name encoded : Str)
      → HashMap.lookup key_path d.value_hash_cache ≡ none
      → get_secret s sha256 d key_path (secret_value algo key_name encoded) ≡ (
        decrypt_with d.secret_key_store algo key_name encoded,
        record d {
          value_hash_cache =
              HashMap.insert key_path
                (calc_hash_value sha256 algo key_name encoded)
                d.value_hash_cache;
        },
      )
  unfolding get_secret secret_args
  get_secret-new d key_path algo key_name encoded h = ground arith

-- The text is what a decryptor of the store makes of the value, which is an array of the names of the
-- decryptor and of a key of the store, and of encrypted data.
pub record Decrypts (keys : SecretKeyStore) (value : C5DataValue) (plain : List ℕ) : Type 0 where
  pub algo : Str
  pub key_name : Str
  pub encoded : Str
  pub decrypt : SecretDecryptor
  pub key : List ℕ
  pub value_is : value ≡ secret_value algo key_name encoded
  pub decryptor : get_decryptor keys algo ≡ some decrypt
  pub key_there : get_key keys key_name ≡ some key
  pub decrypts : decrypt encoded key ≡ returned (ok plain)

decrypted-some :
    (o : Outcome (Result (List ℕ) SecretDecryptorError)) (plain : List ℕ)
    → decrypted o ≡ returned (some plain)
    → o ≡ returned (ok plain)
decrypted-some (returned (ok value)) plain h = cc
decrypted-some (returned (err e)) plain h = cc
decrypted-some panicked plain h = cc

and_then-some :
    {A B : Type 0} (o : Option A) (f : A → Option B) (b : B)
    → and_then o f ≡ some b
    → (a : A) × (o ≡ some a) × (f a ≡ some b)
and_then-some none f b h = cc
and_then-some (some a) f b h = (a, refl, h)

string_of_ok : (v : C5DataValue) (t : Str) → ok_of (try_into_string v) ≡ some t → v ≡ string t
unfolding try_into_string
string_of_ok (string t) u h = cc
string_of_ok _ u h = cc

three_strings-some :
    (items : Items) (algo key_name encoded : Str)
    → three_strings items ≡ some (algo, key_name, encoded)
    → array items ≡ secret_value algo key_name encoded
unfolding three_strings
three_strings-some (cons u (cons v (cons w nil))) algo key_name encoded h =
    let (a, ea, ha) = and_then-some _ _ _ h in
    let (k, ek, hk) = and_then-some _ _ _ ha in
    let (d, ed, hd) = and_then-some _ _ _ hk in
    cc (string_of_ok u a ea, string_of_ok v k ek, string_of_ok w d ed)
three_strings-some nil algo key_name encoded h = cc
three_strings-some (cons u nil) algo key_name encoded h = cc
three_strings-some (cons u (cons v nil)) algo key_name encoded h = cc
three_strings-some (cons u (cons v (cons w (cons x items)))) algo key_name encoded h = cc

secret_args-some :
    (value : C5DataValue) (algo key_name encoded : Str)
    → secret_args value ≡ some (algo, key_name, encoded)
    → value ≡ secret_value algo key_name encoded
unfolding secret_args try_into_vec
secret_args-some (array items) algo key_name encoded h =
    three_strings-some items algo key_name encoded h
secret_args-some _ algo key_name encoded h = cc

decrypt_with-Decrypts :
    (keys : SecretKeyStore) (value : C5DataValue) (algo key_name encoded : Str) (plain : List ℕ)
    → value ≡ secret_value algo key_name encoded
    → decrypt_with keys algo key_name encoded ≡ returned (some plain)
    → Decrypts keys value plain
unfolding decrypt_with
decrypt_with-Decrypts keys value algo key_name encoded plain e h =
    elim (Option-cases (get_decryptor keys algo)) [
      | inl none_there ↦ let clash = rw (decrypt_with, none_there) at h in cc
      | inr (decrypt, hd) ↦ elim (Option-cases (get_key keys key_name)) [
        | inl none_there ↦ let clash = rw (decrypt_with, hd, decrypt_with, none_there) at h in cc
        | inr (key, hk) ↦ record {
          algo = algo;
          key_name = key_name;
          encoded = encoded;
          decrypt = decrypt;
          key = key;
          value_is = e;
          decryptor = hd;
          key_there = hk;
          decrypts =
              decrypted-some (decrypt encoded key) plain
                (rw (decrypt_with, hd, decrypt_with, hk) at h);
        }
      ]
    ]

module _ (s : SkipMap C5DataValue) (lawful : IsLawful s) (sha256 : List ℕ → List ℕ) where
  contents-get_secret :
      (d : Store s sha256) (key : Str) (value : C5DataValue)
      → (get_secret s sha256 d key value).1.contents ≡ d.contents
  unfolding get_secret
  contents-get_secret d key value = ground arith

  get_secret-Decrypts :
      (d : Store s sha256) (key : Str) (value : C5DataValue) (plain : List ℕ)
      → (get_secret s sha256 d key value).0 ≡ returned (some plain)
      → Decrypts d.secret_key_store value plain
  unfolding get_secret
  get_secret-Decrypts d key value plain h = elim (Option-cases (secret_args value)) [
    | inl none_there ↦ let clash = rw (get_secret, none_there) at h in cc
    | inr ((algo, key_name, encoded), e) ↦
        let hash = calc_hash_value sha256 algo key_name encoded in
        elim (Bool-cases (check_hash s sha256 key hash d.value_hash_cache).0) [
          | inl fresh ↦
              decrypt_with-Decrypts d.secret_key_store value algo key_name encoded plain
                (secret_args-some value algo key_name encoded e) (rw (get_secret, e, fresh) at h)
          | inr known ↦ let clash = rw (get_secret, e, known) at h in cc
        ]
  ]

  -- Nothing changes, or the plain text of the value is written under the path.
  abbrev pub WritesPlainOnly : Str → C5DataValue → Store s sha256 → Store s sha256 → Type 0
  WritesPlainOnly base value d d' =
      ((j : Str) → get_data s sha256 d' j ≡ get_data s sha256 d j)
      ⊎ ((plain : List ℕ) × Decrypts d.secret_key_store value plain
          × ((j : Str)
              → get_data s sha256 d' j
                ≡ (if same_key s base j then some (bytes plain) else get_data s sha256 d j)))

  store_secret_writes :
      (base : Str) (value : C5DataValue) (r : Outcome (Option (List ℕ))) (d d' : Store s sha256)
      → d'.contents ≡ d.contents
      → ((plain : List ℕ) → r ≡ returned (some plain) → Decrypts d.secret_key_store value plain)
      → WritesPlainOnly base value d (store_secret s sha256 base (r, d')).1
  unfolding get_data insert_value
  store_secret_writes base value (returned none) d d' e h = inl (λ j. ap (s.get j) e)
  store_secret_writes base value panicked d d' e h = inl (λ j. ap (s.get j) e)
  store_secret_writes base value (returned (some plain)) d d' e h =
      inr (plain, h plain refl, λ j. rw (lawful.get-insert base j (bytes plain) d'.contents, e))

  -- A call under a key that ends in the secret segment changes no value, or writes one value under
  -- the key without the segment: the plain text that the named decryptor of the store makes, with
  -- the named key of the store, of the encrypted data in the array that the call is given.
  pub set_data_secret :
      (d : Store s sha256) (key : Str) (value : C5DataValue)
      → ends_with key d.secret_key_path_segment ≡ true
      → (base : Str) × (key ≡ base ++ d.secret_key_path_segment)
        × WritesPlainOnly base value d (set_data s sha256 d key value).1
  unfolding set_data
  set_data_secret d key value h =
      let segment = d.secret_key_path_segment in
      let base = data_path s sha256 segment key in
      let (r, d') = get_secret s sha256 d key value in
      (
        base,
        ends_with_split key segment h,
        rw h (
            store_secret_writes base value r d d' (contents-get_secret d key value)
              (get_secret-Decrypts d key value)),
      )
