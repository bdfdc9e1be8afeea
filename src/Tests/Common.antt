-- ===== src/Tests/Common.antt =====
-- The containers, keys and states that the examples run on.
use c5store.Base.{ℕ, List, [], ◌∷◌, ok, returned}
use c5store.Text.{Str, bytes_of}
use c5store.Crates.SkipMap.{SkipMap, IsLawful}
use c5store.Crates.ListMultiMap.{ListMultiMap}
use c5store.Fixtures.Sorted.{sorted, sorted-IsLawful}
use c5store.Fixtures.Listeners.{by_function}
use c5store.Secrets.{SecretKeyStore, SecretDecryptor}
use c5store.Value.{C5DataValue}
use c5store.DataStore as DataStore
use c5store.DataStore.{Store}
use c5store.Notifier as Notifier
use c5store.C5Store.{State}

abbrev pub skip : SkipMap C5DataValue
skip = sorted C5DataValue

pub skip-IsLawful : IsLawful skip
skip-IsLawful = sorted-IsLawful C5DataValue

abbrev pub listeners : ListMultiMap ℕ
listeners = by_function ℕ

-- In the place of SHA-256.
abbrev pub hash : List ℕ → List ℕ
hash l = l

-- The decryptor that hands its input back.
abbrev pub identity : SecretDecryptor
identity encrypted_value key = returned (ok encrypted_value)

abbrev pub key_store : SecretKeyStore
key_store = record {
  secret_decryptors = (bytes_of "base64", identity) ∷ [];
  keys = (bytes_of "k", 1 ∷ []) ∷ [];
}

unfoldable pub empty_store : Store skip hash
unfolding DataStore.new
empty_store = DataStore.new skip hash (bytes_of ".c5encval") key_store

abbrev pub stored : Str → C5DataValue → Store skip hash → Store skip hash
stored key value d = (DataStore.set_data skip hash d key value).1

abbrev pub with_store : Store skip hash → State skip hash listeners
with_store d = record { data_store = d; subscriptions = listeners.new; notifier = Notifier.new }
