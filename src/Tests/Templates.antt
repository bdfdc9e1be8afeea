-- ===== src/Tests/Templates.antt =====
-- A run of the expansion of variables.
use c5store.Base.{◌≡◌, refl, List, [], ◌∷◌, returned}
use c5store.Text.{Str, str_eq, bytes_of}
use c5store.HashMap
use c5store.Fixtures.Templates.{templates}
use c5store.Variables.{expand_vars}

abbrev variables : List (Str × Str)
variables = (bytes_of "home", bytes_of "/h") ∷ []

home_expanded :
    expand_vars (λ s. s) templates (bytes_of "$home") variables ≡ returned (bytes_of "/h")
unfolding expand_vars HashMap.lookup str_eq
home_expanded = refl
