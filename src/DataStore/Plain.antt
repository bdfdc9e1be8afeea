-- ===== src/DataStore/Plain.antt =====
-- Setting and reading values that are no secrets (c5store_rust/src/internal.rs).
use c5store.Base.{◌≡◌, ap, List, ℕ, false, some, returned, arith, if◌then◌else◌, is_some}
use c5store.Text.{Str, ends_with}
use c5store.Crates.SkipMap.{SkipMap, IsLawful, same_key}
use c5store.Value.{C5DataValue}
use c5store.Value.Path.{and_then}
use c5store.DataStore.{Store, get_data, exists, get_data_ref, ref_value, set_data}

module _ (s : SkipMap C5DataValue) (lawful : IsLawful s) (sha256 : List ℕ → List ℕ) where
  -- A value set under a key that is no secret's is read back under every spelling of the key, every
  -- other key keeps its value, the value that was there before is returned, and the record of
  -- secrets is left alone.
  pub set_data_plain :
      (d : Store s sha256) (key : Str) (value : C5DataValue)
      → ends_with key d.secret_key_path_segment ≡ false
      → ((set_data s sha256 d key value).0 ≡ returned (get_data s sha256 d key))
        × ((j : Str)
            → get_data s sha256 (set_data s sha256 d key value).1 j
              ≡ (if same_key s key j then some value else get_data s sha256 d j))
        × ((set_data s sha256 d key value).1.value_hash_cache ≡ d.value_hash_cache)
  unfolding set_data get_data
  set_data_plain d key value h = (
    rw h (ap returned (lawful.insert_old key value d.contents)),
    λ j. rw h (lawful.get-insert key j value d.contents),
    rw h,
  )

  -- A key exists exactly when it has a value, and a reference to the value shows that value.
  pub exists_lem :
      (d : Store s sha256) (key : Str)
      → (exists s sha256 d key ≡ is_some (get_data s sha256 d key))
        × (and_then (get_data_ref s sha256 d key) (ref_value s sha256 d) ≡ get_data s sha256 d key)
  unfolding exists get_data get_data_ref ref_value
  exists_lem d key = (
    lawful.contains_key-get key d.contents,
    ground (arith, lawful.contains_key-get key d.contents),
  )
