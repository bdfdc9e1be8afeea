-- ===== src/Crates/ListMultiMap.antt =====
-- `multimap::MultiMap`: a map from keys to vectors of values.
use c5store.Base.{◌≡◌, Option, none, some, List, [], ◌∷◌, ◌++◌, ◌==◌, if◌then◌else◌}
use c5store.Text.{Str, str_eq}

pub record ListMultiMap (V : Type 0) : Type 1 where
  pub Map : Type 0
  pub new : Map
  pub insert : Str → V → Map → Map
  pub get_vec : Str → Map → Option (List V)

-- The vector of a key, empty if there is none.
abbrev pub or_empty : {V : Type 0} → Option (List V) → List V
or_empty none = []
or_empty (some l) = l

module _ {V : Type 0} (s : ListMultiMap V) where
  pub record IsLawful : Type 0 where
    pub get_vec-new : (k : Str) → s.get_vec k s.new ≡ none
    pub get_vec-insert :
        (k j : Str) (v : V) (m : s.Map)
        → s.get_vec j (s.insert k v m)
          ≡ (if k == j then some (or_empty (s.get_vec j m) ++ (v ∷ [])) else s.get_vec j m)
