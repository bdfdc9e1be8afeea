-- ===== src/Providers/Sections.antt =====
-- What `_take_provided_data` of c5store_rust/src/lib.rs leaves in `provided_data`.
use c5store.Base.{◌≡◌, refl, ◌∙◌, inl, inr, Option, none, some, Bool-cases, ok, returned}
use c5store.Text.{Str, str_eq}
use c5store.Value.{C5DataValue, string, map, Fields, end, field}
use c5store.Value.Map as ValueMap
use c5store.Flatten.{
  join_keypath, config_key_provider, provide, with_place, take_provided, take_value,
}
use c5store.Providers.{from_map}
use c5store.Providers.Schema.{from_map-with_place, provider-with_place}

-- The value is a section from which the schema of the provider can be read.
pub record HasSchema (provider_name : Str) (value : C5DataValue) : Type 0 where
  pub section : Fields
  pub key : Str
  pub path : Str
  pub is_section : value ≡ map section
  pub read :
      from_map section
      ≡ returned
          (ok (record { value_provider = provider_name; value_key_path = path; value_key = key }))

with_place-HasSchema :
    (key path name : Str) (section : Fields)
    → ValueMap.lookup config_key_provider section ≡ some (string name)
    → HasSchema name (map (with_place key path section))
with_place-HasSchema key path name section h = record {
  section = with_place key path section;
  key = key;
  path = path;
  is_section = refl;
  read = from_map-with_place key path section name h;
}

module _ {P : Type 0} (insert_provided : Str → C5DataValue → P → P) (Inv : P → Type 0)
    (keeps : (name : Str) (value : C5DataValue) (q : P)
      → HasSchema name value
      → Inv q
      → Inv (insert_provided name value q)) where
  provide_section :
      (key path : Str) (section : Fields) (q : P) (o : Option C5DataValue)
      → ValueMap.lookup config_key_provider section ≡ o
      → Inv q
      → Inv (provide insert_provided (with_place key path section) q)
  unfolding provide
  provide_section key path section q none e h =
      rw (provider-with_place key path section ∙ e, provide) h
  provide_section key path section q (some (string name)) e h =
      rw (provider-with_place key path section ∙ e, provide)
        (keeps name (map (with_place key path section)) q
          (with_place-HasSchema key path name section e) h)
  provide_section key path section q (some v) e h =
      rw (provider-with_place key path section ∙ e, provide) h

  mutual
    unfolding take_provided

    take_Inv :
        (m config : Fields) (q : P) (keypath : Str)
        → Inv q
        → Inv (take_provided insert_provided m config q keypath).2
    take_Inv end config q keypath h = h
    take_Inv (field key value m) config q keypath h =
        let path = join_keypath keypath key in
        let (kept, config', q') = take_value insert_provided value config q key path in
        take_Inv m config' q' keypath (take_value_Inv value config q key path h)

    take_value_Inv :
        (v : C5DataValue) (config : Fields) (q : P) (key path : Str)
        → Inv q
        → Inv (take_value insert_provided v config q key path).2
    take_value_Inv (map m) config q key path h =
        elim (Bool-cases (ValueMap.contains_key config_key_provider m)) [
          | inl section ↦
              rw section
                (provide_section key path m q (ValueMap.lookup config_key_provider m) refl h)
          | inr open_map ↦ rw open_map (take_Inv m config q path h)
        ]
    take_value_Inv v config q key path h = h

  -- Each value that the walk over the configuration hands to the value providers is a section whose
  -- schema can be read, under the name of the provider that the section names; what inserting such
  -- values keeps holds after the walk.
  pub take_provided-HasSchema :
      (m config : Fields) (q : P) (keypath : Str)
      → Inv q
      → Inv (take_provided insert_provided m config q keypath).2
  take_provided-HasSchema m config q keypath h = take_Inv m config q keypath h
