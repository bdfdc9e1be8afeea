-- ===== src/Fixtures/Templates.antt =====
-- Templates that are one variable, or no variable at all where they begin with no dollar sign.
use c5store.Base.{refl, ◌==◌, nat_eq, some, List, [], ◌∷◌, returned, ◌>>=◌, if◌then◌else◌}
use c5store.Text.{Str}
use c5store.Crates.ShellExpand.{ShellExpand, IsLawful, Part, literal, variable, expanded}

abbrev whole : Str → List Part
whole [] = []
whole (c ∷ name) = if c == b'$' then variable name (c ∷ name) ∷ [] else literal (c ∷ name) ∷ []

abbrev pub templates : ShellExpand
templates = record {
  parts = whole;
  env_with_context = λ template context. do
    text ← expanded context (whole template)
    returned (some text);
}

pub templates-IsLawful : IsLawful templates
templates-IsLawful = record { expands = λ template context. refl }
