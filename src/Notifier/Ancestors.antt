-- ===== src/Notifier/Ancestors.antt =====
-- The paths whose subscribers a job tells of a changed key path (c5store_rust/src/lib.rs).
use c5store.Base.{
  ℕ, ◌≡◌, refl, ap, sym, ◌∙◌, ◌≢◌, ◌⊎◌, ◌↔◌, inl, inr, false, List, [], ◌∷◌, ◌++◌, ◌==◌, nat_eq,
  append-nil, append_assoc, In, if◌then◌else◌, subst,
}
use c5store.Text.{Str, is_empty}
use c5store.Text.Split.{split, dots, dots-split, split-append, split-nonempty}
use c5store.Notifier.{ancestor_paths}

-- The path is the key path, or stands before a dot of it.
abbrev pub IsAncestor : Str → Str → Type 0
IsAncestor p key = (p ≡ key) ⊎ ((rest : Str) × (key ≡ p ++ (b'.' ∷ rest)))

abbrev pub IsProper : Str → Type 0
IsProper [] = ⊥
IsProper (c ∷ s) = (c == b'.') ≡ false

regroup :
    (acc part : Str) (rest : Str)
    → acc ++ (b'.' ∷ (part ++ rest)) ≡ ((acc ++ (b'.' ∷ [])) ++ part) ++ rest
regroup acc part rest = simp append_assoc

stem-IsAncestor : (p : Str) (parts : List Str) → IsAncestor p (p ++ dots parts)
stem-IsAncestor p [] = inl (sym (append-nil p))
stem-IsAncestor p (part ∷ parts) = inr (part ++ dots parts, refl)

-- From a path that is not empty on, with the parts that are still to come.
paths_sound :
    (a : ℕ) (acc p : Str) (parts : List Str)
    → In p (ancestor_paths (a ∷ acc) parts)
    → IsAncestor p ((a ∷ acc) ++ dots parts)
unfolding ancestor_paths
paths_sound a acc p [] i = elim i [ ]
paths_sound a acc p (part ∷ parts) i =
    let acc' = (acc ++ (b'.' ∷ [])) ++ part in
    let whole : (a ∷ acc) ++ dots (part ∷ parts) ≡ (a ∷ acc') ++ dots parts =
      ap (◌∷◌ a) (regroup acc part (dots parts)) in
    rw whole (elim i [
      | inl e ↦ rw e (stem-IsAncestor (a ∷ acc') parts)
      | inr later ↦ paths_sound a acc' p parts later
    ])

last_path :
    (a : ℕ) (acc : Str) (parts : List Str)
    → parts ≢ []
    → In ((a ∷ acc) ++ dots parts) (ancestor_paths (a ∷ acc) parts)
unfolding ancestor_paths
last_path a acc [] n = absurd (n refl)
last_path a acc (part ∷ []) n =
    inl (ap (◌∷◌ a) (regroup acc part [] ∙ append-nil ((acc ++ (b'.' ∷ [])) ++ part)))
last_path a acc (part ∷ next ∷ parts) n =
    let acc' = (acc ++ (b'.' ∷ [])) ++ part in
    let whole : (a ∷ acc) ++ dots (part ∷ next ∷ parts) ≡ (a ∷ acc') ++ dots (next ∷ parts) =
      ap (◌∷◌ a) (regroup acc part (dots (next ∷ parts))) in
    subst (λ w. In w (ancestor_paths (a ∷ acc) (part ∷ next ∷ parts))) (sym whole)
      (inr (last_path a acc' (next ∷ parts) (λ e. cc)))

-- The accumulator after the parts.
ancestor_paths-append :
    (p acc : Str) (parts more : List Str)
    → In p (ancestor_paths acc parts)
    → In p (ancestor_paths acc (parts ++ more))
unfolding ancestor_paths
ancestor_paths-append p acc [] more i = elim i [ ]
ancestor_paths-append p acc (part ∷ parts) more (inl e) = inl e
ancestor_paths-append p acc (part ∷ parts) more (inr i) = inr (
    ancestor_paths-append p ((if is_empty acc then [] else acc ++ (b'.' ∷ [])) ++ part) parts more
      i)

-- From the start: the first part is not empty.
from_start :
    (c : ℕ) (s : Str)
    → (c == b'.') ≡ false
    → (part : Str) × (parts : List Str) × (split (c ∷ s) ≡ (c ∷ part) ∷ parts)
      × (c ∷ s ≡ (c ∷ part) ++ dots parts)
unfolding split
from_start c s n = go (split s) refl
  where
    go :
        (l : List Str)
        → split s ≡ l
        → (part : Str) × (parts : List Str) × (split (c ∷ s) ≡ (c ∷ part) ∷ parts)
          × (c ∷ s ≡ (c ∷ part) ++ dots parts)
    go [] e = absurd (split-nonempty s e)
    go (part ∷ parts) e = (part, parts, rw (n, e), cc (dots-split s, ap dots e))

self_path : (key : Str) → IsProper key → In key (ancestor_paths [] (split key))
unfolding ancestor_paths
self_path [] h = elim h [ ]
self_path (c ∷ s) h =
    let (part, parts, e, whole) = from_start c s h in
    subst (λ k. In k (ancestor_paths [] (split (c ∷ s)))) (sym whole)
      (subst (λ l. In ((c ∷ part) ++ dots parts) (ancestor_paths [] l)) (sym e) (told part parts))
  where
    told :
        (part : Str) (parts : List Str)
        → In ((c ∷ part) ++ dots parts) (ancestor_paths [] ((c ∷ part) ∷ parts))
    told part [] = inl (append-nil (c ∷ part))
    told part (next ∷ parts) = inr (last_path c part (next ∷ parts) (λ e. cc))

first_sound :
    (c : ℕ) (part p : Str) (parts : List Str)
    → In p (ancestor_paths [] ((c ∷ part) ∷ parts))
    → IsAncestor p ((c ∷ part) ++ dots parts)
unfolding ancestor_paths
first_sound c part p parts (inl e) = rw e (stem-IsAncestor (c ∷ part) parts)
first_sound c part p parts (inr i) = paths_sound c part p parts i

pub sound : (key p : Str) → IsProper key → In p (ancestor_paths [] (split key)) → IsAncestor p key
sound [] p h i = elim h [ ]
sound (c ∷ s) p h i =
    let (part, parts, e, whole) = from_start c s h in
    subst (IsAncestor p) (sym whole)
      (first_sound c part p parts (subst (λ l. In p (ancestor_paths [] l)) e i))

complete :
    (key p : Str)
    → IsProper key
    → IsProper p
    → IsAncestor p key
    → In p (ancestor_paths [] (split key))
complete key p h hp (inl e) = subst (λ k. In p (ancestor_paths [] (split k))) e (self_path p hp)
complete key p h hp (inr (rest, e)) =
    subst (λ k. In p (ancestor_paths [] (split k))) (sym e)
      (rw (split-append p rest)
        (ancestor_paths-append p [] (split p) (split rest) (self_path p hp)))

-- For a key path and a path that are not empty and begin with no dot, the path is told of exactly
-- when it is the key path or stands before a dot of it.
pub ancestor_paths_exact :
    (key p : Str)
    → IsProper key
    → IsProper p
    → In p (ancestor_paths [] (split key)) ↔ IsAncestor p key
ancestor_paths_exact key p h hp = (sound key p h, complete key p h hp)
