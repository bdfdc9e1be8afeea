-- ===== src/Secrets.antt =====
-- c5store_rust/src/secrets.rs: the decryptors of secrets and the store of their keys. Base64 and ECIES
-- are parameters; a decryptor is the function that its `decrypt` is.
pub mod Files
pub mod Loading
use c5store.Base.{
  ℕ, Option, none, some, List, [], ◌==◌, nat_eq, Result, ok, err, Outcome, returned, panicked,
  if◌then◌else◌, length,
}
use c5store.Text.{Str, str_eq}
use c5store.HashMap

pub data SecretDecryptorError : Type 0 where
  encryption_failed decryption_failed decode_failed bad_key_pub_priv : SecretDecryptorError

-- `trait SecretDecryptor`: from the encrypted value and the key.
abbrev pub SecretDecryptor : Type 0
SecretDecryptor = List ℕ → List ℕ → Outcome (Result (List ℕ) SecretDecryptorError)

unfoldable pub base64_decryptor : (List ℕ → Option (List ℕ)) → SecretDecryptor
base64_decryptor decode encrypted_value key_bytes = elim (decode encrypted_value) [
  | none ↦ returned (err decode_failed)
  | some output ↦ returned (ok output)
]

-- The errors of `ecies_25519`, as the source tells them apart.
pub data EciesError : Type 0 where
  encryption_failed encryption_failed_rng : EciesError
  decryption_failed decryption_failed_ciphertext_short : EciesError
  invalid_public_key_bytes invalid_secret_key_bytes : EciesError

unfoldable pub of_ecies : EciesError → SecretDecryptorError
of_ecies EciesError.encryption_failed = SecretDecryptorError.encryption_failed
of_ecies EciesError.encryption_failed_rng = SecretDecryptorError.encryption_failed
of_ecies EciesError.decryption_failed = SecretDecryptorError.decryption_failed
of_ecies EciesError.decryption_failed_ciphertext_short = SecretDecryptorError.decryption_failed
of_ecies EciesError.invalid_public_key_bytes = SecretDecryptorError.bad_key_pub_priv
of_ecies EciesError.invalid_secret_key_bytes = SecretDecryptorError.bad_key_pub_priv

-- `clone_from_slice` panics unless the key has 32 bytes.
unfoldable pub ecies_decryptor :
    (List ℕ → Option (List ℕ)) → (List ℕ → List ℕ → Result (List ℕ) EciesError) → SecretDecryptor
unfolding of_ecies
ecies_decryptor decode decrypt encrypted_value key_bytes = elim (decode encrypted_value) [
  | none ↦ returned (err decode_failed)
  | some decoded_value ↦
      if length key_bytes == 32
      then elim (decrypt key_bytes decoded_value) [
        | ok value ↦ returned (ok value)
        | err e ↦ returned (err (of_ecies e))
      ]
      else panicked
]

pub record SecretKeyStore : Type 0 where
  pub secret_decryptors : List (Str × SecretDecryptor)
  pub keys : List (Str × List ℕ)

abbrev pub new : SecretKeyStore
new = record { secret_decryptors = []; keys = [] }

unfoldable pub get_decryptor : SecretKeyStore → Str → Option SecretDecryptor
get_decryptor s name = HashMap.lookup name s.secret_decryptors

unfoldable pub set_decryptor : SecretKeyStore → Str → SecretDecryptor → SecretKeyStore
set_decryptor s name decryptor = record s {
  secret_decryptors = HashMap.insert name decryptor s.secret_decryptors;
}

unfoldable pub get_key : SecretKeyStore → Str → Option (List ℕ)
get_key s name = HashMap.lookup name s.keys

unfoldable pub set_key : SecretKeyStore → Str → List ℕ → SecretKeyStore
set_key s name key = record s { keys = HashMap.insert name key s.keys }
