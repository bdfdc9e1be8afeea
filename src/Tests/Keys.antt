-- ===== src/Tests/Keys.antt =====
-- A run of the reading of the key files.
use c5store.Base.{ℕ, ◌≡◌, refl, true, false, Option, none, some, List, [], ◌∷◌, returned}
use c5store.Text.{Str, str_eq, bytes_of}
use c5store.Secrets.{get_key}
use c5store.Secrets.Files.{DirEntry, listed, key_of, load_secret_key_files}
use c5store.Secrets.Loading.{IsKeyFile, Lists, last_key, load_secret_key_files_lem}
use c5store.Tests.Common.{key_store}

-- The parser of PEM keys takes the first byte away.
abbrev parse : List ℕ → Option (List ℕ)
parse [] = none
parse (c ∷ l) = some l

abbrev sub_folder : DirEntry
sub_folder = record {
  is_dir = true;
  content = none;
  extension = none;
  file_name = some (bytes_of "old");
}

abbrev raw_key : DirEntry
raw_key = record {
  is_dir = false;
  content = some (5 ∷ []);
  extension = some (bytes_of "key");
  file_name = some (bytes_of "k.key");
}

abbrev pem_key : DirEntry
pem_key = record {
  is_dir = false;
  content = some (6 ∷ 7 ∷ []);
  extension = some (bytes_of "pem");
  file_name = some (bytes_of "k.pem");
}

abbrev loaded : List (Str × List ℕ)
loaded = (bytes_of "k", 5 ∷ []) ∷ (bytes_of "k", 7 ∷ []) ∷ []

raw_key-IsKeyFile : IsKeyFile parse raw_key (bytes_of "k") (5 ∷ [])
unfolding key_of str_eq
raw_key-IsKeyFile = record {
  ext = bytes_of "key";
  raw = 5 ∷ [];
  is_file = refl;
  readable = refl;
  extension_is = refl;
  named = refl;
  key_is = refl;
}

pem_key-IsKeyFile : IsKeyFile parse pem_key (bytes_of "k") (7 ∷ [])
unfolding key_of str_eq
pem_key-IsKeyFile = record {
  ext = bytes_of "pem";
  raw = 6 ∷ 7 ∷ [];
  is_file = refl;
  readable = refl;
  extension_is = refl;
  named = refl;
  key_is = refl;
}

listing-Lists : Lists parse (some raw_key ∷ some sub_folder ∷ some pem_key ∷ []) loaded
listing-Lists =
    Lists.file raw_key-IsKeyFile (Lists.directory refl (Lists.file pem_key-IsKeyFile Lists.nothing))

-- The second file replaces the key of the first.
load_secret_key_files_lem_example :
    let (result, store') =
      load_secret_key_files parse
        (some (listed (some raw_key ∷ some sub_folder ∷ some pem_key ∷ [])))
        key_store in
    (result ≡ returned tt)
    × ((name : Str) → get_key store' name ≡ last_key name loaded (get_key key_store name))
    × (store'.secret_decryptors ≡ key_store.secret_decryptors)
load_secret_key_files_lem_example = load_secret_key_files_lem parse key_store listing-Lists
