-- ===== src/Variables.antt =====
-- `expand_vars` of c5store_rust/src/util.rs. `str::to_lowercase` is a parameter.
use c5store.Base.{
  ◌≡◌, refl, Option, none, some, is_some, List, [], ◌∷◌, ◌++◌, Outcome, returned, panicked,
  unwrap_option, ◌>>=◌, if◌then◌else◌,
}
use c5store.Text.{Str, str_eq}
use c5store.HashMap
use c5store.Crates.ShellExpand.{
  ShellExpand, IsLawful, Part, literal, variable, or_written, expanded,
}

module _ (to_lowercase : Str → Str) where
  -- The closure that looks a variable up.
  unfoldable pub interpolator : List (Str × Str) → Str → Outcome (Option Str)
  interpolator variables var_name =
      let lower_var_name = to_lowercase var_name in
      if HashMap.contains_key lower_var_name variables
      then returned (HashMap.lookup lower_var_name variables)
      else panicked

  unfoldable pub expand_vars : ShellExpand → Str → List (Str × Str) → Outcome Str
  unfolding interpolator
  expand_vars e template_str variables = do
    result ← e.env_with_context template_str (interpolator variables)
    unwrap_option result

abbrev joined : Option Str → Option Str → Option Str
joined (some text) (some rest) = some (text ++ rest)
joined (some text) none = none
joined none o = none

abbrev or_panic : Option Str → Outcome Str
or_panic none = panicked
or_panic (some text) = returned text

module _ (to_lowercase : Str → Str) (variables : List (Str × Str)) where
  -- The text with each variable replaced, where all of them are known.
  abbrev pub replaced : List Part → Option Str
  replaced [] = some []
  replaced (literal text ∷ parts) = joined (some text) (replaced parts)
  replaced (variable name text ∷ parts) =
      joined (HashMap.lookup (to_lowercase name) variables) (replaced parts)

  expanded-interpolator :
      (parts : List Part)
      → expanded (interpolator to_lowercase variables) parts ≡ or_panic (replaced parts)
  unfolding interpolator
  expanded-interpolator [] = refl
  expanded-interpolator (literal text ∷ parts) =
      rw (expanded-interpolator parts) (literal_first text (replaced parts))
    where
      literal_first :
          (text : Str) (o : Option Str)
          → (do rest ← or_panic o; returned (text ++ rest)) ≡ or_panic (joined (some text) o)
      literal_first text none = refl
      literal_first text (some rest) = refl
  expanded-interpolator (variable name text ∷ parts) =
      rw (expanded-interpolator parts)
        (variable_first (HashMap.lookup (to_lowercase name) variables) (replaced parts))
    where
      variable_first :
          (v o : Option Str)
          → (do
            value ← (if is_some v then returned v else panicked)
            rest ← or_panic o
            returned (or_written text value ++ rest))
            ≡ or_panic (joined v o)
      variable_first none o = refl
      variable_first (some value) none = refl
      variable_first (some value) (some rest) = refl

  -- A template all of whose variables are known, in lower case, gives its text with each replaced by
  -- its value, and any other template a panic.
  pub expand_vars_lem :
      (e : ShellExpand) (lawful : IsLawful e) (template_str : Str)
      → expand_vars to_lowercase e template_str variables
        ≡ or_panic (replaced (e.parts template_str))
  unfolding expand_vars
  expand_vars_lem e lawful template_str =
      rw (lawful.expands template_str (interpolator to_lowercase variables)) (
        rw (expanded-interpolator (e.parts template_str))
          (unwrapped (replaced (e.parts template_str))))
    where
      unwrapped :
          (o : Option Str)
          → (do result ← (do text ← or_panic o; returned (some text)); unwrap_option result)
            ≡ or_panic o
      unwrapped none = refl
      unwrapped (some text) = refl
