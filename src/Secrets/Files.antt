-- ===== src/Secrets/Files.antt =====
-- `load_secret_key_files` of c5store_rust/src/lib.rs: the keys of the secrets are read from the files
-- of a directory. What the directory holds and the parser of PEM keys are parameters; a step that
-- panics ends the call.
use c5store.Base.{
  ℕ, ◌-◌, Bool, Option, none, some, List, [], ◌∷◌, ◌==◌, Outcome, returned, panicked, unwrap_option,
  if◌then◌else◌, length, take,
}
use c5store.Base.Exec.{Exec, pure, lift, ◌>>=◌, ◌>>◌}
use c5store.Text.{Str, str_eq, bytes_of}
use c5store.Secrets.{SecretKeyStore, set_key}

-- An entry of the directory: what `is_dir`, `std::fs::read`, `extension` and `file_name` say of it. A name
-- or an extension that is missing or is not UTF-8 is `none`.
pub record DirEntry : Type 0 where
  pub is_dir : Bool
  pub content : Option (List ℕ)
  pub extension : Option Str
  pub file_name : Option Str

-- What is found at the path of the keys: nothing, something that `read_dir` fails for, or the entries,
-- of which one that cannot be read is `none`.
pub data KeysPath : Type 0 where
  nothing_there : KeysPath
  unlisted : KeysPath
  listed : List (Option DirEntry) → KeysPath

-- `parse_openssl_25519_privkey` for a PEM file.
unfoldable pub key_of : (List ℕ → Option (List ℕ)) → Str → List ℕ → Outcome (List ℕ)
key_of parse file_ext key =
    if file_ext == bytes_of "pem" then unwrap_option (parse key) else returned key

abbrev pub insert_key : Str → List ℕ → Exec SecretKeyStore (Unit {0})
insert_key name key store = (returned tt, set_key store name key)

unfoldable pub load_entry : (List ℕ → Option (List ℕ)) → DirEntry → Exec SecretKeyStore (Unit {0})
unfolding key_of
load_entry parse entry = do
  content ← lift (unwrap_option entry.content)
  file_ext ← lift (unwrap_option entry.extension)
  file_name ← lift (unwrap_option entry.file_name)
  let key_name = take (length file_name - length file_ext - 1) file_name
  key ← lift (key_of parse file_ext content)
  insert_key key_name key

unfoldable pub load_entries :
    (List ℕ → Option (List ℕ)) → List (Option DirEntry) → Exec SecretKeyStore (Unit {0})
unfolding load_entry
load_entries parse [] = pure tt
load_entries parse (none ∷ entries) = lift panicked
load_entries parse (some entry ∷ entries) =
    let rest = load_entries parse entries in
    if entry.is_dir then rest else (do load_entry parse entry; rest)

-- No path, or a path with nothing there, loads nothing; a path that is no readable directory is a panic.
unfoldable pub load_secret_key_files :
    (List ℕ → Option (List ℕ)) → Option KeysPath → Exec SecretKeyStore (Unit {0})
unfolding load_entries
load_secret_key_files parse (some unlisted) = lift panicked
load_secret_key_files parse (some (listed entries)) = load_entries parse entries
load_secret_key_files parse _ = pure tt
