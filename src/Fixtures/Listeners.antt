-- ===== src/Fixtures/Listeners.antt =====
-- A multimap as a function from keys to vectors.
use c5store.Base.{refl, Option, none, some, List, [], ◌∷◌, ◌++◌, ◌==◌, if◌then◌else◌}
use c5store.Text.{Str, str_eq}
use c5store.Crates.ListMultiMap.{ListMultiMap, IsLawful, or_empty}

abbrev pub by_function : (V : Type 0) → ListMultiMap V
by_function V = record {
  Map = Str → Option (List V);
  new = λ k. none;
  insert = λ k v m j. if k == j then some (or_empty (m j) ++ (v ∷ [])) else m j;
  get_vec = λ k m. m k;
}

pub by_function-IsLawful : (V : Type 0) → IsLawful (by_function V)
by_function-IsLawful V = record { get_vec-new = λ k. refl; get_vec-insert = λ k j v m. refl }
