-- ===== src/Fixtures/Order.antt =====
-- An order of byte strings that ignores the case of ASCII letters: byte by byte, in lower case. It
-- stands in for `natord::compare_ignore_case`, which also reads runs of digits as numbers.
use Prim.Native.Nat.{Ordering, compare}
use Prim.Native.Nat.Ordering.{lt, eq, gt}
use c5store.Base.{ℕ, ◌+◌, ◌≡◌, refl, ◌&&◌, [], ◌∷◌, arith, leb, if◌then◌else◌}
use c5store.Text.{Str}

abbrev pub lower_byte : ℕ → ℕ
lower_byte c = if leb b'A' c && leb c b'Z' then c + 32 else c

unfoldable pub lower : Str → Str
lower [] = []
lower (c ∷ s) = lower_byte c ∷ lower s

unfoldable pub lex : Str → Str → Ordering
lex [] [] = eq
lex [] (b ∷ t) = lt
lex (a ∷ s) [] = gt
lex (a ∷ s) (b ∷ t) = elim (compare a b) [ lt ↦ lt | gt ↦ gt | eq ↦ lex s t ]

pub lex_refl : (s : Str) → lex s s ≡ eq
unfolding lex
lex_refl [] = refl
lex_refl (a ∷ s) = ground (arith, lex_refl s)

pub eq_of_lex : (s t : Str) → lex s t ≡ eq → s ≡ t
unfolding lex
eq_of_lex [] [] h = refl
eq_of_lex [] (b ∷ t) h = cc
eq_of_lex (a ∷ s) [] h = cc
eq_of_lex (a ∷ s) (b ∷ t) h = ground (arith, eq_of_lex s t)

pub lt_of_gt : (s t : Str) → lex s t ≡ gt → lex t s ≡ lt
unfolding lex
lt_of_gt [] [] h = cc
lt_of_gt [] (b ∷ t) h = cc
lt_of_gt (a ∷ s) [] h = refl
lt_of_gt (a ∷ s) (b ∷ t) h = ground (arith, lt_of_gt s t)

pub gt_of_lt : (s t : Str) → lex s t ≡ lt → lex t s ≡ gt
unfolding lex
gt_of_lt [] [] h = cc
gt_of_lt [] (b ∷ t) h = refl
gt_of_lt (a ∷ s) [] h = cc
gt_of_lt (a ∷ s) (b ∷ t) h = ground (arith, gt_of_lt s t)

pub lt_trans : (s t u : Str) → lex s t ≡ lt → lex t u ≡ lt → lex s u ≡ lt
unfolding lex
lt_trans [] [] u h k = cc
lt_trans [] (b ∷ t) [] h k = cc
lt_trans [] (b ∷ t) (c ∷ u) h k = refl
lt_trans (a ∷ s) [] u h k = cc
lt_trans (a ∷ s) (b ∷ t) [] h k = cc
lt_trans (a ∷ s) (b ∷ t) (c ∷ u) h k = ground (arith, lt_trans s t u)
