-- ===== src/Text/Suffix.antt =====
-- Prefixes and suffixes of byte strings.
use c5store.Base.{
  ℕ, zero, suc, append-nil, ◌-◌, ◌≤◌, ◌≡◌, refl, ap, sym, ◌∙◌, true, [], ◌∷◌, ◌++◌, arith, nat_eq,
  eq_iff, eq_refl, length, take, drop, length-append, take-append, drop-append,
}
use c5store.Text.{Str, starts_with, ends_with}

pub starts_with-append : (p s : Str) → starts_with (p ++ s) p ≡ true
unfolding starts_with
starts_with-append [] [] = refl
starts_with-append [] (c ∷ s) = refl
starts_with-append (c ∷ p) s = rw (eq_refl c) (starts_with-append p s)

starts_with_rest : (s p : Str) → starts_with s p ≡ true → s ≡ p ++ drop (length p) s
unfolding starts_with
starts_with_rest s [] h = refl
starts_with_rest [] (c ∷ p) h = cc
starts_with_rest (a ∷ s) (c ∷ p) h = ground (arith, eq_iff a c, starts_with_rest s p)

drop_all : (n : ℕ) (s : Str) → length s ≤ n → drop n s ≡ []
drop_all zero [] h = refl
drop_all zero (c ∷ s) h = absurd (omega arith)
drop_all (suc n) [] h = refl
drop_all (suc n) (c ∷ s) h = drop_all n s (omega arith)

length-drop : (n : ℕ) (s : Str) → length (drop n s) ≡ length s - n
length-drop zero s = omega arith
length-drop (suc n) [] = omega arith
length-drop (suc n) (c ∷ s) = omega (arith, length-drop n s)

take-append-drop : (n : ℕ) (s : Str) → take n s ++ drop n s ≡ s
take-append-drop zero s = refl
take-append-drop (suc n) [] = refl
take-append-drop (suc n) (c ∷ s) = rw (take-append-drop n s)

-- Where a suffix begins.
suffix_start : (s suffix : Str) → length (s ++ suffix) - length suffix ≡ length s
suffix_start s suffix = omega (arith, length-append s suffix)

pub take_suffix : (s suffix : Str) → take (length (s ++ suffix) - length suffix) (s ++ suffix) ≡ s
take_suffix s suffix = rw (suffix_start s suffix) (take-append s suffix)

starts_with_self : (p : Str) → starts_with p p ≡ true
starts_with_self p = rw (append-nil p) at (starts_with-append p [])

pub ends_with-append : (s suffix : Str) → ends_with (s ++ suffix) suffix ≡ true
unfolding ends_with
ends_with-append s suffix =
    rw (suffix_start s suffix, drop-append s suffix, starts_with_self suffix)
      (ground (arith, length-append s suffix))

-- A string with a suffix is what stands before the suffix, and the suffix.
pub ends_with_split :
    (s suffix : Str) → ends_with s suffix ≡ true → s ≡ take (length s - length suffix) s ++ suffix
unfolding ends_with
ends_with_split s suffix h =
    let n = length s - length suffix in
    let rest = drop n s in
    let fits : length suffix ≤ length s = ground arith in
    let e : rest ≡ suffix ++ drop (length suffix) rest =
      starts_with_rest rest suffix (ground arith) in
    let nothing : drop (length suffix) rest ≡ [] =
      drop_all (length suffix) rest (omega (arith, length-drop n s)) in
    let same : rest ≡ suffix = e ∙ (rw nothing (append-nil suffix)) in
    sym (take-append-drop n s) ∙ ap (λ t. take n s ++ t) same
