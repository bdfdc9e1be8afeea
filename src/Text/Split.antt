-- ===== src/Text/Split.antt =====
-- `str::split(".")`: the parts between the dots, of which there is always one.
use c5store.Base.{
  ℕ, ◌≡◌, refl, ap, ◌≢◌, Bool-cases, inl, inr, List, [], ◌∷◌, ◌++◌, ◌==◌, nat_eq, eq_iff,
  if◌then◌else◌,
}
use c5store.Text.{Str}

abbrev pub cons_first : ℕ → List Str → List Str
cons_first c [] = (c ∷ []) ∷ []
cons_first c (part ∷ parts) = (c ∷ part) ∷ parts

unfoldable pub split : Str → List Str
split [] = [] ∷ []
split (c ∷ s) = let rest = split s in if c == b'.' then [] ∷ rest else cons_first c rest

-- The parts put together again, each behind a dot.
abbrev pub dots : List Str → Str
dots [] = []
dots (part ∷ parts) = b'.' ∷ (part ++ dots parts)

dots-cons_first :
    (c : ℕ) (parts : List Str) (s : Str)
    → dots parts ≡ b'.' ∷ s
    → dots (cons_first c parts) ≡ b'.' ∷ c ∷ s
dots-cons_first c [] s e = cc
dots-cons_first c (part ∷ parts) s e = cc

-- Splitting loses nothing.
pub dots-split : (s : Str) → dots (split s) ≡ b'.' ∷ s
unfolding split
dots-split [] = refl
dots-split (c ∷ s) = elim (Bool-cases (c == b'.')) [
  | inl dot ↦ rw (dot, dots-split s) (rw ((eq_iff c b'.').0 dot))
  | inr other ↦ rw other (dots-cons_first c (split s) s (dots-split s))
]

pub split-nonempty : (s : Str) → split s ≢ []
split-nonempty s e = cc (dots-split s, ap dots e)

cons_first-append :
    (c : ℕ) (parts more : List Str)
    → parts ≢ []
    → cons_first c (parts ++ more) ≡ cons_first c parts ++ more
cons_first-append c [] more n = absurd (n refl)
cons_first-append c (part ∷ parts) more n = refl

pub split-append : (s t : Str) → split (s ++ (b'.' ∷ t)) ≡ split s ++ split t
unfolding split
split-append [] t = refl
split-append (c ∷ s) t = elim (Bool-cases (c == b'.')) [
  | inl dot ↦ rw (dot, split-append s t)
  | inr other ↦
      rw (other, split-append s t) (cons_first-append c (split s) (split t) (split-nonempty s))
]
