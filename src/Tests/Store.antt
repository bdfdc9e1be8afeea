-- ===== src/Tests/Store.antt =====
-- Runs of the operations of the store.
use c5store.Base.{
  ◌≡◌, refl, none, some, List, [], ◌∷◌, ◌++◌, returned, panicked, if◌then◌else◌, inl,
}
use c5store.Base.Int.{pos}
use c5store.HashMap
use c5store.Text.{Str, str_eq, bytes_of, starts_with, ends_with}
use c5store.Crates.SkipMap.{same_key, drop_below}
use c5store.Secrets.{get_decryptor, get_key}
use c5store.Fixtures.Sorted.{find, place}
use c5store.Fixtures.Order.{lower, lex}
use c5store.Value.{C5DataValue, integer, bytes}
use c5store.Value.Equality.{value_eq}
use c5store.DataStore as DataStore
use c5store.DataStore.{Store, get_data, set_data, keys_with_prefix, all_keys}
use c5store.DataStore.SecretValues.{secret_value, set_data_secret, WritesPlainOnly}
use c5store.DataStore.HashCache.{run, first_secret_sticks}
use c5store.DataStore.Prefix.{keys_with_prefix-IsSplit, keys_with_prefix_hidden, IsSplit}
use c5store.C5Store.{State, set_data_fn, set_entries, root_branch}
use c5store.C5Store.SetData.{with_change, set_data_fn_changed}
use c5store.C5Store.Branches.{descend, ActsAtRoot, nested_branches}
use c5store.Tests.Common.{skip, skip-IsLawful, listeners, hash, empty_store, stored, with_store}

abbrev one : C5DataValue
one = integer (pos 1)

abbrev two : C5DataValue
two = integer (pos 2)

abbrev with_one : State skip hash listeners
with_one = with_store (stored (bytes_of "a.b") one empty_store)

-- What the examples compute with.
computes : Unit {0}
unfolding empty_store get_decryptor get_key DataStore.secret_args DataStore.decrypt_with str_eq
    starts_with ends_with find place lower lex value_eq HashMap.lookup HashMap.insert get_data
    set_data keys_with_prefix all_keys set_data_fn set_entries
computes = tt

set_data_fn_changed_example :
    let (result, a') = set_data_fn skip hash listeners (bytes_of "a.b") two with_one in
    (result ≡ panicked)
    × (a'.notifier ≡ with_change (bytes_of "a.b") with_one.notifier)
    × ((j : Str)
        → get_data skip hash a'.data_store j ≡ (
            if same_key skip (bytes_of "a.b") j
            then some two
            else get_data skip hash with_one.data_store j))
unfolding computes
set_data_fn_changed_example =
    set_data_fn_changed skip skip-IsLawful hash listeners with_one (bytes_of "a.b") two one
      (record { no_handle = refl; no_readers = refl; no_writer = refl }) refl refl refl

nested_branches_example :
    ActsAtRoot skip hash listeners with_one
      (descend (root_branch (bytes_of "a")) (bytes_of "b" ∷ bytes_of "c" ∷ []))
      (bytes_of "a.b.c")
nested_branches_example =
    nested_branches skip hash listeners with_one (bytes_of "a") (bytes_of "b" ∷ bytes_of "c" ∷ [])

abbrev first : C5DataValue
first = secret_value (bytes_of "base64") (bytes_of "k") (bytes_of "one")

abbrev second : C5DataValue
second = secret_value (bytes_of "base64") (bytes_of "k") (bytes_of "two")

set_data_secret_example :
    (base : Str) × (bytes_of "pw..c5encval" ≡ base ++ bytes_of "..c5encval")
    × WritesPlainOnly skip skip-IsLawful hash base first empty_store
        (set_data skip hash empty_store (bytes_of "pw..c5encval") first).1
unfolding computes
set_data_secret_example =
    set_data_secret skip skip-IsLawful hash empty_store (bytes_of "pw..c5encval") first refl

first_secret_sticks_example :
    let later =
      run skip hash
        ((bytes_of "pw..c5encval", second) ∷ [])
        (set_data skip hash empty_store (bytes_of "pw..c5encval") first).1 in
    set_data skip hash later (bytes_of "pw..c5encval") first ≡ (returned none, later)
unfolding computes
first_secret_sticks_example =
    first_secret_sticks skip hash empty_store (bytes_of "pw") (bytes_of "base64") (bytes_of "k")
      (bytes_of "one") ((bytes_of "pw..c5encval", second) ∷ []) refl

-- The second value is what is read then.
second_stays :
    let key = bytes_of "pw..c5encval" in
    get_data skip hash
      (run skip hash ((key, first) ∷ (key, second) ∷ (key, first) ∷ []) empty_store)
      (bytes_of "pw")
    ≡ some (bytes (bytes_of "two"))
unfolding computes
second_stays = refl

abbrev several : Store skip hash
several =
    stored (bytes_of "a.c") two
      (stored (bytes_of "b") one (stored (bytes_of "a.b") one empty_store))

keys_with_prefix-IsSplit_example :
    (found : List (Str × C5DataValue)) × (rest : List (Str × C5DataValue)) × IsSplit skip hash
      (bytes_of "a.")
      (drop_below skip (bytes_of "a") (skip.iter several.contents))
      found
      rest
    × (keys_with_prefix skip hash several (some (bytes_of "a")) ≡ all_keys skip hash found)
keys_with_prefix-IsSplit_example =
    keys_with_prefix-IsSplit skip hash several (bytes_of "a") skip-IsLawful

keys_found :
    keys_with_prefix skip hash several (some (bytes_of "a")) ≡ bytes_of "a.b" ∷ bytes_of "a.c" ∷ []
unfolding computes
keys_found = refl

-- A key between the key path and the keys below it hides them too.
keys_hidden_between :
    keys_with_prefix skip hash (stored (bytes_of "a-b") one several) (some (bytes_of "a")) ≡ []
unfolding computes
keys_hidden_between = refl

keys_with_prefix_hidden_example :
    keys_with_prefix skip hash (stored (bytes_of "a") one several) (some (bytes_of "a")) ≡ []
unfolding computes
keys_with_prefix_hidden_example =
    keys_with_prefix_hidden skip skip-IsLawful hash (stored (bytes_of "a") one several)
      (bytes_of "a") one (inl refl)
