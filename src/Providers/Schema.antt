-- ===== src/Providers/Schema.antt =====
-- `C5ValueProviderSchema::from_map` of c5store_rust/src/providers.rs on the sections that the walk over
-- the configuration files hands to a value provider.
use c5store.Base.{◌≡◌, refl, some, ok, returned, eq_refl, false, ◌==◌}
use c5store.Text.{Str, str_eq}
use c5store.Value.{string, Fields}
use c5store.Value.Map as ValueMap
use c5store.Flatten.{config_key_keyname, config_key_keypath, config_key_provider, with_place}
use c5store.Providers.{from_map}

-- The three keys differ.
keypath_ne_keyname : (config_key_keyname == config_key_keypath) ≡ false
unfolding str_eq
keypath_ne_keyname = refl

keypath_ne_provider : (config_key_keypath == config_key_provider) ≡ false
unfolding str_eq
keypath_ne_provider = refl

keyname_ne_provider : (config_key_keyname == config_key_provider) ≡ false
unfolding str_eq
keyname_ne_provider = refl

module _ (key path : Str) (section : Fields) where
  pub keyname-with_place :
      ValueMap.lookup config_key_keyname (with_place key path section) ≡ some (string key)
  unfolding with_place
  keyname-with_place = simp (ValueMap.lookup-insert, eq_refl)

  pub keypath-with_place :
      ValueMap.lookup config_key_keypath (with_place key path section) ≡ some (string path)
  unfolding with_place
  keypath-with_place = simp (ValueMap.lookup-insert, eq_refl, keypath_ne_keyname)

  -- Another key keeps its value.
  pub lookup-with_place :
      (k : Str)
      → (config_key_keyname == k) ≡ false
      → (config_key_keypath == k) ≡ false
      → ValueMap.lookup k (with_place key path section) ≡ ValueMap.lookup k section
  unfolding with_place
  lookup-with_place k n m = simp (ValueMap.lookup-insert, n, m)

  pub provider-with_place :
      ValueMap.lookup config_key_provider (with_place key path section)
      ≡ ValueMap.lookup config_key_provider section
  provider-with_place =
      lookup-with_place config_key_provider keyname_ne_provider keypath_ne_provider

  -- A section whose provider is named by a string always yields its schema, with the place at which
  -- the section was found.
  pub from_map-with_place :
      (name : Str)
      → ValueMap.lookup config_key_provider section ≡ some (string name)
      → from_map (with_place key path section)
        ≡ returned (ok (record { value_provider = name; value_key_path = path; value_key = key }))
  unfolding from_map
  from_map-with_place name h =
      rw (provider-with_place, h) (rw keypath-with_place (rw keyname-with_place))
