-- ===== src/Fixtures/Numbers.antt =====
-- Numbers that have the laws of `Number`: a float, an integer that is not negative, or a negative one.
use c5store.Base.{
  [], ℕ, Bool, true, false, Option, none, some, ltb, is_some, ◌≡◌, refl, ◌<◌, arith, if◌then◌else◌,
}
use c5store.Base.Int.{ℤ, pos, negsuc}
use c5store.Value.Casts.{i64_bound}
use c5store.Crates.Documents.{Numbers, IsLawful}

pub data Num : Type 0 where
  float : ℕ → Num
  natural : ℕ → Num
  negative : ℕ → Num

abbrev floats : Num → Bool
floats (float b) = true
floats _ = false

abbrev naturals : Num → Bool
naturals (natural a) = true
naturals _ = false

abbrev signed : Num → Bool
signed (float b) = false
signed (natural a) = ltb a i64_bound
signed (negative a) = true

abbrev float_of : Num → Option ℕ
float_of (float b) = some b
float_of _ = none

abbrev natural_of : Num → Option ℕ
natural_of (natural a) = some a
natural_of _ = none

abbrev signed_of : Num → Option ℤ
signed_of (float b) = none
signed_of (natural a) = if ltb a i64_bound then some (pos a) else none
signed_of (negative a) = some (negsuc a)

abbrev of_signed : ℤ → Num
of_signed (pos a) = natural a
of_signed (negsuc a) = negative a

abbrev pub kinds : Numbers
kinds = record {
  Number = Num;
  is_f64 = floats;
  is_u64 = naturals;
  is_i64 = signed;
  as_f64 = float_of;
  as_u64 = natural_of;
  as_i64 = signed_of;
  to_string = λ v. [];
  from_f64 = float;
  from_u64 = natural;
  from_i64 = of_signed;
}

f64_there : (v : Num) → floats v ≡ true → is_some (float_of v) ≡ true
f64_there (float b) h = refl
f64_there (natural a) h = ground arith
f64_there (negative a) h = ground arith

u64_there : (v : Num) → naturals v ≡ true → is_some (natural_of v) ≡ true
u64_there (float b) h = ground arith
u64_there (natural a) h = refl
u64_there (negative a) h = ground arith

i64_there : (v : Num) → signed v ≡ true → is_some (signed_of v) ≡ true
i64_there (float b) h = ground arith
i64_there (natural a) h = rw h refl
i64_there (negative a) h = refl

one_kind : (v : Num) → floats v ≡ false → naturals v ≡ false → signed v ≡ true
one_kind (float b) h g = ground arith
one_kind (natural a) h g = ground arith
one_kind (negative a) h g = refl

small :
    (a : ℕ) → a < i64_bound → (signed (natural a) ≡ true) × (signed_of (natural a) ≡ some (pos a))
small a h = ground arith

pub kinds-IsLawful : IsLawful kinds
kinds-IsLawful = record {
  f64_there = f64_there;
  u64_there = u64_there;
  i64_there = i64_there;
  one_kind = one_kind;
  of_f64 = λ b. (refl, refl);
  of_u64 = λ a. (refl, refl, refl);
  of_small = small;
  of_negative = λ a. (refl, refl, refl, refl);
}
