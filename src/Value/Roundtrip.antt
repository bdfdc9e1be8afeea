-- ===== src/Value/Roundtrip.antt =====
-- The conversions of c5store_rust/src/value.rs over all values.
use c5store.Base.{
  ℕ, ◌≡◌, refl, ◌⊎◌, ◌↔◌, inl, inr, List, [], ◌∷◌, ok, err, returned, arith, ◌<◌, ◌%◌, subst,
}
use c5store.Base.Int.{ℤ, pos}
use c5store.Value.{C5DataValue, integer, uinteger, array, Items, nil, cons}
use c5store.Value.Casts.{
  SignedType, UnsignedType, signed_bound, unsigned_bound, i64_bound, IsWithin, residue, as_signed,
  as_unsigned, as_signed-IsWithin, residue-as_signed, as_signed_within,
}
use c5store.Value.Convert.{
  Try, from_i64, try_into_i64, try_into_u64, try_into_signed, try_into_unsigned, collect, to_vec,
  try_into_vec,
}

-- An integer read as a narrower signed type gives a number in the range of that type with the same
-- low bits, and that is the integer itself exactly when the integer lies in the range.
pub try_into_signed_narrows :
    (ty : SignedType) (z : ℤ)
    → (r : ℤ) × (try_into_signed ty (integer z) ≡ ok r)
      × IsWithin (signed_bound ty) r
      × (residue (signed_bound ty) r ≡ residue (signed_bound ty) z)
      × ((r ≡ z) ↔ IsWithin (signed_bound ty) z)
unfolding try_into_signed
try_into_signed_narrows ty z = (
  as_signed ty z,
  refl,
  as_signed-IsWithin ty z,
  residue-as_signed ty z,
  (λ e. subst (IsWithin (signed_bound ty)) e (as_signed-IsWithin ty z), as_signed_within ty z),
)

-- A natural number that is read as a narrower unsigned type gives its remainder modulo the bound of
-- that type, which is below the bound, and is the number itself exactly when the number is below it.
pub try_into_unsigned_narrows :
    (ty : UnsignedType) (n : ℕ)
    → (r : ℕ) × (try_into_unsigned ty (uinteger n) ≡ ok r)
      × (r < unsigned_bound ty)
      × (r ≡ n % unsigned_bound ty)
      × ((r ≡ n) ↔ (n < unsigned_bound ty))
unfolding try_into_unsigned as_unsigned
try_into_unsigned_narrows UnsignedType.u8 n =
    (as_unsigned UnsignedType.u8 n, refl, omega arith, refl, (λ e. omega arith, λ h. omega arith))
try_into_unsigned_narrows UnsignedType.u16 n =
    (as_unsigned UnsignedType.u16 n, refl, omega arith, refl, (λ e. omega arith, λ h. omega arith))
try_into_unsigned_narrows UnsignedType.u32 n =
    (as_unsigned UnsignedType.u32 n, refl, omega arith, refl, (λ e. omega arith, λ h. omega arith))
try_into_unsigned_narrows UnsignedType.usize n = (
  as_unsigned UnsignedType.usize n,
  refl,
  omega arith,
  refl,
  (λ e. omega arith, λ h. omega arith),
)

-- An i64 is read exactly from a UInteger of at most i64::MAX, so from no value that was made from
-- an i64.
pub try_into_i64_exact :
    (v : C5DataValue) (z : ℤ)
    → (try_into_i64 v ≡ ok z) ↔ ((n : ℕ) × (v ≡ uinteger n) × (n < i64_bound) × (z ≡ pos n))
unfolding try_into_i64
try_into_i64_exact (uinteger n) z = (λ h. (n, refl, ground arith, ground arith), λ h. ground arith)
try_into_i64_exact v z = (λ h. cc, λ h. cc (h.1))

pub try_into_i64-from_i64 : (z : ℤ) → try_into_i64 (from_i64 z) ≡ err tt
unfolding try_into_i64
try_into_i64-from_i64 z = refl

-- A `u64` is read exactly from a `UInteger` or from an `Integer` that is not negative.
pub try_into_u64_exact :
    (v : C5DataValue) (n : ℕ) → (try_into_u64 v ≡ ok n) ↔ ((v ≡ uinteger n) ⊎ (v ≡ integer (pos n)))
unfolding try_into_u64
try_into_u64_exact (uinteger m) n = (λ h. inl (cc), λ h. ground arith)
try_into_u64_exact (integer (pos m)) n = (λ h. inr (cc), λ h. ground arith)
try_into_u64_exact v n = (λ h. cc, λ h. ground arith)

-- The items are read as the elements of the list, one by one.
abbrev pub Reads : {A : Type 0} → (C5DataValue → Try A) → Items → List A → Type 0
Reads f nil [] = Unit
Reads f (cons v vs) (a ∷ l) = (f v ≡ ok a) × Reads f vs l
Reads f _ _ = ⊥

module _ {A : Type 0} (f : C5DataValue → Try A) where
  collect_sound : (vs : Items) (l : List A) → collect f vs ≡ returned l → Reads f vs l
  unfolding collect
  collect_sound nil [] h = tt
  collect_sound nil (a ∷ l) h = cc
  collect_sound (cons v vs) [] h = ground arith
  collect_sound (cons v vs) (a ∷ l) h = ground (arith, collect_sound vs l)

  collect_complete : (vs : Items) (l : List A) → Reads f vs l → collect f vs ≡ returned l
  unfolding collect
  collect_complete nil [] h = refl
  collect_complete nil (a ∷ l) h = elim h [ ]
  collect_complete (cons v vs) [] h = elim h [ ]
  collect_complete (cons v vs) (a ∷ l) h = ground (arith, collect_complete vs l)

  -- A to_vec call returns exactly when the value is an array each item of which is read, and panics
  -- in every other case.
  pub to_vec_returns :
      (v : C5DataValue) (l : List A)
      → (to_vec f v ≡ returned l) ↔ ((vs : Items) × (v ≡ array vs) × Reads f vs l)
  unfolding to_vec try_into_vec
  to_vec_returns (array vs) l = (
    λ h. (vs, refl, collect_sound vs l h),
    λ h. let e : h.0 ≡ vs = cc (h.1) in collect_complete vs l (subst (λ s. Reads f s l) e h.2),
  )
  to_vec_returns v l = (λ h. cc, λ h. cc (h.1))
