-- ===== src/Crates/ShellExpand.antt =====
-- `shellexpand::env_with_context`: a template with variables, each replaced by what the context says of
-- it.
use c5store.Base.{◌≡◌, Option, none, some, List, [], ◌∷◌, ◌++◌, Outcome, returned, ◌>>=◌}
use c5store.Text.{Str}

pub data Part : Type 0 where
  literal : Str → Part
  -- the name, and the text of the template that it was read from
  variable : Str → Str → Part

pub record ShellExpand : Type 0 where
  pub parts : Str → List Part
  -- `Err` is `none`; the context may panic.
  pub env_with_context : Str → (Str → Outcome (Option Str)) → Outcome (Option Str)

-- The literal text is kept, and a variable of which the context knows nothing stays as it is written.
abbrev pub or_written : Str → Option Str → Str
or_written text none = text
or_written text (some value) = value

abbrev pub expanded : (Str → Outcome (Option Str)) → List Part → Outcome Str
expanded context [] = returned []
expanded context (literal text ∷ parts) = do rest ← expanded context parts; returned (text ++ rest)
expanded context (variable name text ∷ parts) = do
  value ← context name
  rest ← expanded context parts
  returned (or_written text value ++ rest)

pub record IsLawful (e : ShellExpand) : Type 0 where
  -- A context without errors gives a text.
  pub expands :
      (template : Str) (context : Str → Outcome (Option Str))
      → e.env_with_context template context
        ≡ (do text ← expanded context (e.parts template); returned (some text))
