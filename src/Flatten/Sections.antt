-- ===== src/Flatten/Sections.antt =====
-- The sections of value providers as a list: the description that `_take_provided_data` of
-- c5store_rust/src/lib.rs is compared with.
use c5store.Base.{
  ◌≡◌, refl, sym, ◌∙◌, ap, Bool-cases, inl, inr, Option, none, some, List, [], ◌∷◌, ◌++◌, ◌==◌,
  append_assoc, if◌then◌else◌,
}
use c5store.Text.{Str, str_eq}
use c5store.Crates.ListMultiMap.{ListMultiMap, IsLawful, or_empty}
use c5store.Value.{C5DataValue, string, map, Fields, end, field}
use c5store.Value.Map as ValueMap
use c5store.Flatten.{
  join_keypath, config_key_provider, provide, with_place, take_provided, take_value,
}
use c5store.Providers.Schema.{provider-with_place}

-- A section under the name of its provider, unless that is no string.
abbrev named : Option C5DataValue → C5DataValue → List (Str × C5DataValue)
named (some (string name)) section = (name, section) ∷ []
named _ section = []

-- The sections, as they are handed over. There is none inside another.
unfoldable mutual
  pub sections : Str → Fields → List (Str × C5DataValue)
  sections keypath end = []
  sections keypath (field key value m) =
      sections_of key (join_keypath keypath key) value ++ sections keypath m

  pub sections_of : Str → Str → C5DataValue → List (Str × C5DataValue)
  sections_of key path (map m) =
      let below = sections path m in
      if ValueMap.contains_key config_key_provider m
      then named (ValueMap.lookup config_key_provider m) (map (with_place key path m))
      else below
  sections_of key path value = []

-- The sections of the provider with this name.
abbrev pub sections_for : Str → List (Str × C5DataValue) → List C5DataValue
sections_for name [] = []
sections_for name ((n, section) ∷ l) =
    let rest = sections_for name l in if n == name then section ∷ rest else rest

module _ {P : Type 0} (insert_provided : Str → C5DataValue → P → P) where
  abbrev provide_all : List (Str × C5DataValue) → P → P
  provide_all [] q = q
  provide_all ((name, section) ∷ l) q = provide_all l (insert_provided name section q)

  provide_all-append :
      (l r : List (Str × C5DataValue)) (q : P)
      → provide_all (l ++ r) q ≡ provide_all r (provide_all l q)
  provide_all-append [] r q = refl
  provide_all-append ((name, section) ∷ l) r q =
      provide_all-append l r (insert_provided name section q)

  provide-named :
      (o : Option C5DataValue) (section : Fields) (q : P)
      → ValueMap.lookup config_key_provider section ≡ o
      → provide insert_provided section q ≡ provide_all (named o (map section)) q
  unfolding provide
  provide-named none section q e = rw (e, provide) refl
  provide-named (some (string name)) section q e = rw (e, provide) refl
  provide-named (some v) section q e = rw (e, provide) refl

  mutual
    unfolding take_provided sections

    provided_walk :
        (m config : Fields) (q : P) (keypath : Str)
        → (take_provided insert_provided m config q keypath).2 ≡ provide_all (sections keypath m) q
    provided_walk end config q keypath = refl
    provided_walk (field key value m) config q keypath =
        let path = join_keypath keypath key in
        let (kept, config', q') = take_value insert_provided value config q key path in
        provided_walk m config' q' keypath
        ∙ ap (provide_all (sections keypath m)) (provided_value_walk value config q key path)
        ∙ sym (provide_all-append (sections_of key path value) (sections keypath m) q)

    provided_value_walk :
        (v : C5DataValue) (config : Fields) (q : P) (key path : Str)
        → (take_value insert_provided v config q key path).2
          ≡ provide_all (sections_of key path v) q
    provided_value_walk (map m) config q key path =
        elim (Bool-cases (ValueMap.contains_key config_key_provider m)) [
          | inl section ↦ rw section (
              provide-named (ValueMap.lookup config_key_provider m) (with_place key path m) q
                (provider-with_place key path m))
          | inr open_map ↦ rw open_map (provided_walk m config q path)
        ]
    provided_value_walk v config q key path = refl

-- The vector of a key with more behind it.
abbrev pub with_more : Option (List C5DataValue) → List C5DataValue → Option (List C5DataValue)
with_more o [] = o
with_more o (v ∷ l) = some (or_empty o ++ (v ∷ l))

with_more-cons :
    (o : Option (List C5DataValue)) (v : C5DataValue) (l : List C5DataValue)
    → with_more (some (or_empty o ++ (v ∷ []))) l ≡ with_more o (v ∷ l)
with_more-cons o v [] = refl
with_more-cons o v (w ∷ l) = ap some (append_assoc (or_empty o) (v ∷ []) (w ∷ l))

module _ (pm : ListMultiMap C5DataValue) (lawful : IsLawful pm) where
  get_vec-provide_all :
      (name : Str) (l : List (Str × C5DataValue)) (q : pm.Map)
      → pm.get_vec name (provide_all pm.insert l q)
        ≡ with_more (pm.get_vec name q) (sections_for name l)
  get_vec-provide_all name [] q = refl
  get_vec-provide_all name ((n, section) ∷ l) q =
      get_vec-provide_all name l (pm.insert n section q) ∙ elim (Bool-cases (n == name)) [
        | inl same ↦
            rw (lawful.get_vec-insert n name section q, same)
              (with_more-cons (pm.get_vec name q) section (sections_for name l))
        | inr other ↦ rw (lawful.get_vec-insert n name section q, other) refl
      ]

  -- The walk over the configuration files leaves, under each name, the sections that name it as
  -- their value provider, in the order of the walk, and nothing if there is none.
  pub get_vec-take_provided :
      (name : Str) (raw config : Fields) (keypath : Str)
      → pm.get_vec name (take_provided pm.insert raw config pm.new keypath).2
        ≡ with_more none (sections_for name (sections keypath raw))
  get_vec-take_provided name raw config keypath =
      rw (provided_walk pm.insert raw config pm.new keypath) (
        get_vec-provide_all name (sections keypath raw) pm.new
        ∙ ap (λ o. with_more o (sections_for name (sections keypath raw)))
            (lawful.get_vec-new name))
