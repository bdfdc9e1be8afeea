-- ===== src/Secrets/Loading.antt =====
-- The keys after `load_secret_key_files` of c5store_rust/src/lib.rs.
use c5store.Base.{
  ℕ, ◌-◌, true, false, ◌≡◌, refl, Option, some, List, [], ◌∷◌, ◌++◌, ◌==◌, returned, if◌then◌else◌,
  arith, length, take, ap, ◌∙◌,
}
use c5store.Text.{Str, str_eq}
use c5store.Text.Suffix.{take_suffix}
use c5store.HashMap
use c5store.Secrets.{SecretKeyStore, set_key, get_key}
use c5store.Secrets.Files.{DirEntry, listed, key_of, load_entry, load_secret_key_files}

-- The entry is a file with an extension from which this key can be read, under the name that stands
-- before the extension.
pub record IsKeyFile (parse : List ℕ → Option (List ℕ)) (entry : DirEntry) (name : Str)
    (key : List ℕ) : Type 0 where
  pub ext : Str
  pub raw : List ℕ
  pub is_file : entry.is_dir ≡ false
  pub readable : entry.content ≡ some raw
  pub extension_is : entry.extension ≡ some ext
  pub named : entry.file_name ≡ some (name ++ (b'.' ∷ ext))
  pub key_is : key_of parse ext raw ≡ returned key

-- The entries are directories, or files of the keys in turn.
pub data Lists (parse : List ℕ → Option (List ℕ))
    : List (Option DirEntry) → List (Str × List ℕ) → Type 0 where
  nothing : Lists parse [] []
  directory :
      {entry : DirEntry} {entries : List (Option DirEntry)} {keys : List (Str × List ℕ)}
      → entry.is_dir ≡ true
      → Lists parse entries keys
      → Lists parse (some entry ∷ entries) keys
  file :
      {entry : DirEntry} {entries : List (Option DirEntry)} {name : Str} {key : List ℕ}
      {keys : List (Str × List ℕ)}
      → IsKeyFile parse entry name key
      → Lists parse entries keys
      → Lists parse (some entry ∷ entries) ((name, key) ∷ keys)

-- The last key of the name in the list, or else the one before.
abbrev pub last_key : Str → List (Str × List ℕ) → Option (List ℕ) → Option (List ℕ)
last_key name [] old = old
last_key name ((j, key) ∷ keys) old = last_key name keys (if j == name then some key else old)

stem : (name ext : Str) → let f = name ++ (b'.' ∷ ext) in take (length f - length ext - 1) f ≡ name
stem name ext =
    let f = name ++ (b'.' ∷ ext) in
    let e : length f - length ext - 1 ≡ length f - length (b'.' ∷ ext) = omega arith in
    ap (λ n. take n f) e ∙ take_suffix name (b'.' ∷ ext)

module _ (parse : List ℕ → Option (List ℕ)) where
  load_entry-IsKeyFile :
      (entry : DirEntry) (name : Str) (key : List ℕ) (store : SecretKeyStore)
      → IsKeyFile parse entry name key
      → load_entry parse entry store ≡ (returned tt, set_key store name key)
  unfolding load_entry
  load_entry-IsKeyFile entry name key store h =
      rw (h.readable) (rw (h.extension_is) (rw (h.key_is) (rw (h.named) (rw (stem name h.ext)))))

  -- After a directory of sub-directories and readable key files has been read, which does not panic,
  -- the store has under each name the key of the last file with that name before its extension, or
  -- the key that it had if there is none; the decryptors are as they were.
  pub load_secret_key_files_lem :
      {entries : List (Option DirEntry)} {keys : List (Str × List ℕ)} (store : SecretKeyStore)
      → Lists parse entries keys
      → let (result, store') = load_secret_key_files parse (some (listed entries)) store in
        (result ≡ returned tt)
        × ((name : Str) → get_key store' name ≡ last_key name keys (get_key store name))
        × (store'.secret_decryptors ≡ store.secret_decryptors)
  unfolding load_secret_key_files get_key set_key
  load_secret_key_files_lem store nothing = (refl, (λ name. refl), refl)
  load_secret_key_files_lem store (directory d l) = rw d (load_secret_key_files_lem store l)
  load_secret_key_files_lem store (file {entry} {entries} {name} {key} {keys} h l) =
      let (r, reads, ds) = load_secret_key_files_lem (set_key store name key) l in
      rw (h.is_file) (
        rw (load_entry-IsKeyFile entry name key store h) (
          r,
          (λ other.
              reads other
              ∙ ap (last_key other keys) (HashMap.lookup-insert name other key store.keys)),
          ds,
        ))
