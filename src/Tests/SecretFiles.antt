-- ===== src/Tests/SecretFiles.antt =====
-- A run of the start of a store from a file that holds a secret.
use c5store.Base.{
  ◌≡◌, refl, none, some, Option, List, [], ◌∷◌, ◌==◌, returned, arith, inr, if◌then◌else◌,
}
use c5store.Text.{Str, str_eq, bytes_of, starts_with, ends_with}
use c5store.HashMap
use c5store.Fixtures.Sorted.{find}
use c5store.Fixtures.Order.{lower, lex}
use c5store.Fixtures.Numbers.{kinds, kinds-IsLawful}
use c5store.Crates.Documents.{YamlValue, item, no_items}
use c5store.Secrets.{get_decryptor, get_key}
use c5store.Secrets.Files.{load_secret_key_files}
use c5store.Value.{C5DataValue, bytes, Fields, end, field}
use c5store.Value.Map as ValueMap
use c5store.Merge.{merge_files, merge}
use c5store.Serialization.{serde_yaml_val_to_c5_value}
use c5store.Flatten.{take_provided, build_flat_map, join_keypath}
use c5store.Flatten.Leaves.{dotted, LeafIn}
use c5store.DataStore as DataStore
use c5store.DataStore.{get_data}
use c5store.DataStore.Opens.{EntryOpens}
use c5store.DataStore.SecretValues.{secret_value}
use c5store.Notifier as Notifier
use c5store.Manager as Manager
use c5store.C5Store.{State, root_get}
use c5store.C5Store.ConfigFiles.{Document, map_entries, map_from_serde_yaml_valuemap}
use c5store.C5Store.Create.{C5StoreOptions, create_c5store, completed, default_options, secret_keys}
use c5store.C5Store.SecretFiles.{create_c5store_opens}
use c5store.Tests.Common.{skip, skip-IsLawful, listeners, hash, key_store, identity}
use c5store.Tests.Create.{sections, converts, no_pem, paths}

abbrev name : Str
name = bytes_of "pw..c5encval"

abbrev secret : C5DataValue
secret = secret_value (bytes_of "base64") (bytes_of "k") (bytes_of "one")

abbrev holds : Fields
holds = field name secret end

abbrev text : Str → YamlValue kinds.Number
text t = YamlValue.string t

-- The file `y`, `pw..c5encval: ["base64", "k", "one"]`.
abbrev files : Str → Option (Document kinds converts)
files path =
    if path == bytes_of "y"
    then some (
        (
          name,
          YamlValue.sequence (
              item (text (bytes_of "base64"))
                (item (text (bytes_of "k")) (item (text (bytes_of "one")) no_items))),
        )
        ∷ [])
    else none

-- The decryptor and the key are set by the client.
abbrev options : Option C5StoreOptions
options = some (record {
  change_delay_period = none;
  secret_opts = record {
    secret_key_path_segment = some (bytes_of ".c5encval");
    secret_keys_path = none;
    secret_key_store_configure_fn = some (λ store. returned key_store);
  };
})

only_secret :
    (js : List Str) (other : C5DataValue)
    → LeafIn js holds other
    → dotted [] (name ∷ []) ≡ dotted [] js
    → other ≡ secret
unfolding ValueMap.lookup
only_secret [] other h e = elim h [ ]
only_secret (k ∷ []) other (u, e, h) eq = ground arith
only_secret (k ∷ j ∷ js) other (u, e, h) eq =
    let q : u ≡ secret = ground arith in elim (rw q at h) [ ]

create_c5store_opens_example :
    (t : State skip hash listeners) × (create_c5store skip hash listeners sections kinds converts
        no_pem files paths options
      ≡ returned (
        t,
        Manager.new
            (take_provided sections.insert
              (merge_files end (none ∷ some holds ∷ []))
              end
              sections.new
              []).2,
      ))
    × ((base : Str) × (w : C5DataValue) × EntryOpens
          (b'.' ∷ bytes_of ".c5encval")
          key_store
          (dotted [] (name ∷ []))
          secret
          base
          w
        × (root_get skip hash listeners t base ≡ some w))
    × (t.notifier ≡ Notifier.new)
unfolding str_eq ends_with ValueMap.lookup ValueMap.insert merge_files merge build_flat_map
    join_keypath completed default_options secret_keys load_secret_key_files HashMap.lookup
    map_from_serde_yaml_valuemap map_entries serde_yaml_val_to_c5_value starts_with get_data
    DataStore.new find lower lex get_decryptor get_key
create_c5store_opens_example =
    create_c5store_opens skip skip-IsLawful hash listeners sections kinds kinds-IsLawful converts
      no_pem files paths options key_store (bytes_of ".c5encval") (none ∷ some holds ∷ [])
      (field (bytes_of "pw") (bytes (bytes_of "one")) end) (name ∷ []) secret refl refl (refl, tt)
      (secret, refl, (refl, refl)) only_secret
      (
        inr (record {
          algo = bytes_of "base64";
          key_name = bytes_of "k";
          encoded = bytes_of "one";
          decrypt = identity;
          secret_key = 1 ∷ [];
          plain = bytes_of "one";
          key_is = refl;
          value_is = refl;
          opened_is = refl;
          decryptor = refl;
          key_there = refl;
          decrypts = refl;
        }),
        refl,
        refl,
        refl,
        tt,
        tt,
        tt,
      )
