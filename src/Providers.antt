-- ===== src/Providers.antt =====
-- c5store_rust/src/providers.rs: the schemas of provided values, and the table that the provider of
-- file values keeps of them. The table of deserializers holds functions, and the logger's warnings
-- leave no trace.
pub mod Schema
pub mod Sections
use c5store.Base.{
  Bool, true, false, not, Option, none, some, List, [], ◌∷◌, ◌==◌, Result, ok, err, Outcome,
  returned, panicked, unwrap, unwrap_option, ◌>>=◌, if◌then◌else◌, ℕ,
}
use c5store.Text.{Str, str_eq, bytes_of}
use c5store.Value.{C5DataValue, null, bytes, string, map, Fields, end, field}
use c5store.Value.Map as ValueMap
use c5store.HashMap
use c5store.Flatten.{config_key_keyname, config_key_keypath, config_key_provider}

pub record C5ValueProviderSchema : Type 0 where
  pub value_provider : Str
  pub value_key_path : Str
  pub value_key : Str

-- `if let C5DataValue::String(s) = value { f(s) } else { return otherwise }`
abbrev pub if_string : {A : Type 0} → C5DataValue → (Str → A) → A → A
if_string (string s) f otherwise = f s
if_string _ f otherwise = otherwise

-- A key that is missing is a panic, a value that is no string an error.
unfoldable pub from_map : Fields → Outcome (Result C5ValueProviderSchema (Unit {0}))
from_map section = do
  provider ← unwrap_option (ValueMap.lookup config_key_provider section)
  if_string provider
      (λ value_provider. do
        path ← unwrap_option (ValueMap.lookup config_key_keypath section)
        if_string path
            (λ value_key_path. do
              key ← unwrap_option (ValueMap.lookup config_key_keyname section)
              if_string key
                  (λ value_key. returned (
                    ok (record {
                      value_provider = value_provider;
                      value_key_path = value_key_path;
                      value_key = value_key;
                    })))
                  (returned (err tt)))
            (returned (err tt)))
      (returned (err tt))

pub record C5FileValueProviderSchema : Type 0 where
  pub value_schema : C5ValueProviderSchema
  pub path : Str
  pub encoding : Str
  pub format : Str

unfoldable pub new_raw_utf8 : C5ValueProviderSchema → Str → C5FileValueProviderSchema
new_raw_utf8 value_schema path = record {
  value_schema = value_schema;
  path = path;
  encoding = bytes_of "utf8";
  format = bytes_of "raw";
}

-- `enum C5RawValue`
pub data C5RawValue : Type 0 where
  raw_bytes : List ℕ → C5RawValue
  raw_string : Str → C5RawValue

abbrev pub C5ValueDeserializer : Type 0
C5ValueDeserializer = C5RawValue → Outcome C5DataValue

pub record C5FileValueProvider : Type 0 where
  pub base_dir_path : Str
  pub key_data_map : List (Str × C5FileValueProviderSchema)
  pub deserializer : List (Str × C5ValueDeserializer)

unfoldable pub new : Str → C5FileValueProvider
new base_path = record { base_dir_path = base_path; key_data_map = []; deserializer = [] }

unfoldable pub register_deserializer :
    C5FileValueProvider → Str → C5ValueDeserializer → C5FileValueProvider
register_deserializer p format_name deserializer = record p {
  deserializer = HashMap.insert format_name deserializer p.deserializer;
}

-- `default`, given `deserialize_json` and `deserialize_yaml`
unfoldable pub default_provider :
    C5ValueDeserializer → C5ValueDeserializer → Str → C5FileValueProvider
unfolding new register_deserializer
default_provider deserialize_json deserialize_yaml base_path =
    let provider = register_deserializer (new base_path) (bytes_of "json") deserialize_json in
    register_deserializer provider (bytes_of "yaml") deserialize_yaml

-- An optional string of a section: the default if the key is missing, and an early return (`none`)
-- if there is a value of another kind.
abbrev pub text_or : Str → Option C5DataValue → Option Str
text_or default none = some default
text_or default (some value) = if_string value some none

-- The early returns leave the provider as it was.
abbrev pub unless_returned :
    {A : Type 0} → Option A → (A → C5FileValueProvider) → C5FileValueProvider → C5FileValueProvider
unless_returned none f p = p
unless_returned (some a) f p = f a

unfoldable pub register : C5FileValueProvider → C5DataValue → Outcome C5FileValueProvider
unfolding from_map
register p (map section) = do
  schema ← from_map section
  value_schema ← unwrap schema
  path_value ← unwrap_option (ValueMap.lookup (bytes_of "path") section)
  returned (
      unless_returned (if_string path_value some none)
        (λ path.
          unless_returned
            (text_or (bytes_of "utf8") (ValueMap.lookup (bytes_of "encoding") section))
            (λ encoding.
              unless_returned
                (text_or (bytes_of "raw") (ValueMap.lookup (bytes_of "format") section))
                (λ format. record p {
                  key_data_map =
                      HashMap.insert value_schema.value_key_path
                        (record {
                          value_schema = value_schema;
                          path = path;
                          encoding = encoding;
                          format = format;
                        })
                        p.key_data_map;
                })
                p)
            p)
        p)
register p _ = returned p

unfoldable pub unregister : C5FileValueProvider → Str → C5FileValueProvider
unregister p key = record p { key_data_map = HashMap.remove key p.key_data_map }
