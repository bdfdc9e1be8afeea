-- ===== src/Value/Casts.antt =====
-- The `as` casts between integer types in value.rs. An `iN` is an integer, a `uN` a natural number,
-- and a cast keeps the low N bits in two's complement.
use c5store.Base.{ℕ, ◌+◌, ◌-◌, ◌%◌, ◌<◌, ◌^◌, ◌≡◌, arith, ltb, if◌then◌else◌}
use c5store.Base.Int.{ℤ, pos, negsuc}

-- The instances of `int_from_into_impl!`. `isize` is taken with 64 bits.
pub data SignedType : Type 0 where
  i8 i16 i32 isize : SignedType

-- The instances of `uint_from_into_impl!`. `usize` is taken with 64 bits.
pub data UnsignedType : Type 0 where
  u8 u16 u32 usize : UnsignedType

-- 2 ^ (N - 1)
abbrev pub signed_bound : SignedType → ℕ
signed_bound i8 = 2 ^ 7
signed_bound i16 = 2 ^ 15
signed_bound i32 = 2 ^ 31
signed_bound isize = 2 ^ 63

-- 2 ^ N
abbrev pub unsigned_bound : UnsignedType → ℕ
unsigned_bound u8 = 2 ^ 8
unsigned_bound u16 = 2 ^ 16
unsigned_bound u32 = 2 ^ 32
unsigned_bound usize = 2 ^ 64

abbrev pub i64_bound : ℕ
i64_bound = 2 ^ 63

abbrev pub u64_bound : ℕ
u64_bound = 2 ^ 64

-- An integer lies between -h and h - 1.
abbrev pub IsWithin : ℕ → ℤ → Type 0
IsWithin h (pos n) = n < h
IsWithin h (negsuc n) = n < h

-- The low bits of an integer, as a number below 2h.
abbrev pub residue : ℕ → ℤ → ℕ
residue h (pos n) = n % (h + h)
residue h (negsuc n) = h + h - 1 - n % (h + h)

-- The number below 2h read in two's complement.
abbrev pub signed_of : ℕ → ℕ → ℤ
signed_of h r = if ltb r h then pos r else negsuc (h + h - 1 - r)

-- `z as iN`
unfoldable pub as_signed : SignedType → ℤ → ℤ
as_signed ty z = let h = signed_bound ty in signed_of h (residue h z)

-- `n as uN`
unfoldable pub as_unsigned : UnsignedType → ℕ → ℕ
as_unsigned ty n = n % unsigned_bound ty

-- A cast never leaves the range of its type.
pub as_signed-IsWithin : (ty : SignedType) (z : ℤ) → IsWithin (signed_bound ty) (as_signed ty z)
unfolding as_signed
as_signed-IsWithin i8 z = ground arith
as_signed-IsWithin _ z = ground arith

-- A cast keeps the low bits.
pub residue-as_signed :
    (ty : SignedType) (z : ℤ)
    → residue (signed_bound ty) (as_signed ty z) ≡ residue (signed_bound ty) z
unfolding as_signed
residue-as_signed i8 z = ground arith
residue-as_signed _ z = ground arith

-- A value of the type is kept.
pub as_signed_within : (ty : SignedType) (z : ℤ) → IsWithin (signed_bound ty) z → as_signed ty z ≡ z
unfolding as_signed
as_signed_within i8 z h = ground arith
as_signed_within _ z h = ground arith
