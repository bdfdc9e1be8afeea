-- ===== src/Tests/Telemetry.antt =====
-- Secrets set under the eyes of a logger and a recorder that keep what they are told in a list.
use c5store.Base.{◌≡◌, refl, List, [], ◌∷◌}
use c5store.Text.{Str, str_eq, bytes_of, starts_with, ends_with}
use c5store.HashMap
use c5store.Secrets.{SecretDecryptorError, get_decryptor, get_key}
use c5store.Value.{C5DataValue, string}
use c5store.Value.Convert.{try_into_vec, try_into_string}
use c5store.DataStore.{check_hash, calc_hash_value}
use c5store.DataStore.SecretValues.{secret_value}
use c5store.Telemetry.{Logger, StatsRecorder}
use c5store.Telemetry.Observed.{get_secret_observed, set_data_observed}
use c5store.Telemetry.Warnings.{EndsWell, get_secret_observed_ends}
use c5store.Tests.Common.{skip, hash, empty_store}

abbrev Told : Type 0
Told = List Str

abbrev listing : Logger (Unit {0}) Told
listing = record {
  debug = λ message w. message ∷ w;
  info = λ message w. message ∷ w;
  warn = λ message w. message ∷ w;
  error = λ message error w. message ∷ w;
}

abbrev counting : StatsRecorder (Unit {0}) (Unit {0}) Told
counting = record {
  record_counter_increment = λ tags name w. name ∷ w;
  record_timer = λ tags name value w. name ∷ w;
  record_gauge = λ tags name value w. name ∷ w;
}

abbrev said : SecretDecryptorError → Str
said e = bytes_of "E"

abbrev name : Str
name = bytes_of "s..c5encval"

-- The decryptor is there, the key `j` is not.
abbrev no_key : C5DataValue
no_key = secret_value (bytes_of "base64") (bytes_of "j") (bytes_of "x")

no_key_told :
    (set_data_observed skip hash listing counting said name no_key (empty_store, [])).1.1
    ≡ bytes_of "Key Path `s..c5encval` decryptor or key is not loaded"
      ∷ bytes_of "set_secret_attempts"
      ∷ bytes_of "set_attempts"
      ∷ []
unfolding set_data_observed starts_with ends_with empty_store get_decryptor get_key HashMap.lookup
    HashMap.insert check_hash calc_hash_value try_into_vec try_into_string str_eq
no_key_told = refl

not_an_array_told :
    (set_data_observed skip hash listing counting said name (string name) (empty_store, [])).1.1
    ≡ bytes_of "Key Path `s..c5encval` data is invalid" ∷ bytes_of "set_attempts" ∷ []
unfolding set_data_observed starts_with ends_with empty_store try_into_vec
not_an_array_told = refl

get_secret_observed_ends_example :
    EndsWell skip hash listing counting said name no_key empty_store []
      (get_secret_observed skip hash listing counting said name no_key (empty_store, []))
get_secret_observed_ends_example =
    get_secret_observed_ends skip hash listing counting said name no_key empty_store []
