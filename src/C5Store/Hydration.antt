-- ===== src/C5Store/Hydration.antt =====
-- The behaviour of `hydrate` (c5store_rust/src/providers.rs) on files that are there and files that
-- are missing.
use c5store.Base.{
  ℕ, Bool, true, false, ◌≡◌, refl, ◌⊎◌, inl, inr, Option, none, some, List, [], ◌∷◌, ◌++◌,
  append-nil, subst, sym, Outcome, returned, panicked,
}
use c5store.Base.Exec.{Exec, pure, ◌>>◌, continue}
use c5store.Text.{Str}
use c5store.Crates.SkipMap.{SkipMap}
use c5store.Crates.ListMultiMap.{ListMultiMap}
use c5store.Value.{C5DataValue, null}
use c5store.Providers.{C5FileValueProvider, C5FileValueProviderSchema}
use c5store.C5Store.{State, set_data_fn, push_value_to_data_store}
use c5store.C5Store.Hydrate.{
  FileSystem, resolved, deserialized, hydrate_entries, hydrate, push_unless_skipped,
}

-- The file can be found and read, and has this value.
pub record Holds (fs : FileSystem) (p : C5FileValueProvider) (schema : C5FileValueProviderSchema)
    (value : Option C5DataValue) : Type 0 where
  pub file_path : Str
  pub content : List ℕ
  pub found : resolved fs p.base_dir_path schema.path ≡ returned file_path
  pub there : fs.exists file_path ≡ true
  pub readable : fs.read file_path ≡ some content
  pub value_is : deserialized p schema content ≡ returned value

-- The files of the entries hold the values, in order.
abbrev pub AllHold :
    FileSystem
    → C5FileValueProvider
    → List (Str × C5FileValueProviderSchema)
    → List (Option C5DataValue)
    → Type 0
AllHold fs p [] [] = Unit
AllHold fs p ((key_path, schema) ∷ entries) (value ∷ values) =
    Holds fs p schema value × AllHold fs p entries values
AllHold fs p _ _ = ⊥

-- There is no file at the path, if it is absolute, or none can be found by it below the directory.
abbrev pub IsMissing : FileSystem → Str → Str → Type 0
IsMissing fs base path =
    ((fs.is_absolute path ≡ true) × (fs.exists path ≡ false))
    ⊎ ((fs.is_absolute path ≡ false) × (fs.canonicalize base path ≡ none))

continue-ap :
    {S A B : Type 0} {f g : A → Exec S B} (r : Outcome A × S)
    → ((x : A) (t : S) → f x t ≡ g x t)
    → continue r.0 f r.1 ≡ continue r.0 g r.1
continue-ap (returned x, t) h = h x t
continue-ap (panicked, t) h = refl

module _ {L : Type 0} (s : SkipMap C5DataValue) (sha256 : List ℕ → List ℕ) (m : ListMultiMap L)
    (fs : FileSystem) where
  -- The values pushed one after the other, each under the key path of its entry.
  abbrev pub push_all :
      List (Str × C5FileValueProviderSchema)
      → List (Option C5DataValue)
      → Exec (State s sha256 m) (Unit {0})
      → Exec (State s sha256 m) (Unit {0})
  push_all ((key_path, schema) ∷ entries) (some value ∷ values) rest = do
    push_value_to_data_store s sha256 m key_path value
    push_all entries values rest
  push_all ((key_path, schema) ∷ entries) (none ∷ values) rest = push_all entries values rest
  push_all _ _ rest = rest

  pub one_file :
      (p : C5FileValueProvider) (key_path : Str) (schema : C5FileValueProviderSchema)
      (value : Option C5DataValue) (entries : List (Str × C5FileValueProviderSchema))
      (a : State s sha256 m)
      → Holds fs p schema value
      → hydrate_entries s sha256 m fs p ((key_path, schema) ∷ entries) a
        ≡ (do
          push_unless_skipped s sha256 m fs key_path value
          hydrate_entries s sha256 m fs p entries)
            a
  unfolding hydrate_entries
  one_file p key_path schema value entries a h =
      rw h.found (rw h.there (rw h.readable (rw h.value_is)))

  entries_pushed :
      (p : C5FileValueProvider) (entries more : List (Str × C5FileValueProviderSchema))
      (values : List (Option C5DataValue)) (rest : Exec (State s sha256 m) (Unit {0}))
      (a : State s sha256 m)
      → AllHold fs p entries values
      → ((t : State s sha256 m) → hydrate_entries s sha256 m fs p more t ≡ rest t)
      → hydrate_entries s sha256 m fs p (entries ++ more) a ≡ push_all entries values rest a
  entries_pushed p [] more [] rest a h r = r a
  entries_pushed p [] more (v ∷ values) rest a h r = elim h [ ]
  entries_pushed p (e ∷ entries) more [] rest a h r = elim h [ ]
  entries_pushed p ((key_path, schema) ∷ entries) more (none ∷ values) rest a h r =
      rw (one_file p key_path schema none (entries ++ more) a h.0)
        (entries_pushed p entries more values rest a h.1 r)
  entries_pushed p ((key_path, schema) ∷ entries) more (some v ∷ values) rest a h r =
      rw (one_file p key_path schema (some v) (entries ++ more) a h.0) (
        continue-ap (push_value_to_data_store s sha256 m key_path v a)
          (λ u t. entries_pushed p entries more values rest t h.1 r))

  -- What hydrate does at a missing file: the path is absolute, or `canonicalize` panics.
  abbrev pub at_missing : Bool → Str → Exec (State s sha256 m) (Unit {0})
  at_missing true key_path = set_data_fn s sha256 m key_path null
  at_missing false key_path = λ t. (panicked, t)

  missing_file :
      (p : C5FileValueProvider) (key_path : Str) (schema : C5FileValueProviderSchema)
      (entries : List (Str × C5FileValueProviderSchema)) (t : State s sha256 m)
      → IsMissing fs p.base_dir_path schema.path
      → hydrate_entries s sha256 m fs p ((key_path, schema) ∷ entries) t
        ≡ at_missing (fs.is_absolute schema.path) key_path t
  unfolding hydrate_entries resolved
  missing_file p key_path schema entries t (inl (absolute, gone)) = rw absolute (rw gone)
  missing_file p key_path schema entries t (inr (relative, gone)) = rw relative (rw gone)

  whole :
      (p : C5FileValueProvider) (entries : List (Str × C5FileValueProviderSchema))
      (values : List (Option C5DataValue)) (a : State s sha256 m)
      → AllHold fs p entries values
      → hydrate_entries s sha256 m fs p entries a ≡ push_all entries values (pure tt) a
  unfolding hydrate_entries
  whole p entries values a h =
      subst (λ l. hydrate_entries s sha256 m fs p l a ≡ push_all entries values (pure tt) a)
        (append-nil entries) (entries_pushed p entries [] values (pure tt) a h (λ t. refl))

  -- Where every file can be found and read, `hydrate` pushes the values of the files in the order of
  -- the table, each under its key path, and passes over those whose format has no deserializer.
  pub hydrate_lem :
      (p : C5FileValueProvider) (values : List (Option C5DataValue)) (a : State s sha256 m)
      → AllHold fs p p.key_data_map values
      → hydrate s sha256 m fs p a ≡ push_all p.key_data_map values (pure tt) a
  unfolding hydrate
  hydrate_lem p values a h = whole p p.key_data_map values a h

  -- A missing file ends hydrate, if the files before it can be read: the values of these are
  -- pushed, and whatever stands behind it in the table is not looked at. If its path is absolute, a
  -- null is set under its key path; if it is given relative to the base directory, and so cannot be
  -- made canonical, the call panics.
  pub hydrate_stops :
      (p : C5FileValueProvider) (before after : List (Str × C5FileValueProviderSchema))
      (values : List (Option C5DataValue)) (key_path : Str) (schema : C5FileValueProviderSchema)
      (a : State s sha256 m)
      → p.key_data_map ≡ before ++ ((key_path, schema) ∷ after)
      → AllHold fs p before values
      → IsMissing fs p.base_dir_path schema.path
      → hydrate s sha256 m fs p a
        ≡ push_all before values (at_missing (fs.is_absolute schema.path) key_path) a
  unfolding hydrate
  hydrate_stops p before after values key_path schema a e h missing =
      let ending = at_missing (fs.is_absolute schema.path) key_path in
      subst (λ l. hydrate_entries s sha256 m fs p l a ≡ push_all before values ending a) (sym e)
        (entries_pushed p before ((key_path, schema) ∷ after) values ending a h
          (λ t. missing_file p key_path schema after t missing))
