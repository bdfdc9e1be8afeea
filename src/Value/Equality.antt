-- ===== src/Value/Equality.antt =====
-- The derived `PartialEq` of `C5DataValue`, with the standard library's equality of `HashMap` and
-- the IEEE equality of `f64`, read from the bit patterns.
use c5store.Base.{
  ℕ, ◌%◌, ◌^◌, Bool, true, false, not, ◌&&◌, ◌||◌, ◌≡◌, refl, none, some, arith, ◌==◌, nat_eq, ltb,
  eq_refl, eq_iff,
}
use c5store.Base.Int.{ℤ, pos, negsuc}
use c5store.Text.{Str, str_eq}
use c5store.Value.{
  C5DataValue, null, bytes, boolean, integer, uinteger, float, string, array, map, Items, nil, cons,
  Fields, end, field,
}
use c5store.Value.Map.{lookup, len, HasDistinctKeys}

-- The bits without the sign; above the exponent 0x7ff there is a payload in a NaN only.
abbrev pub magnitude : ℕ → ℕ
magnitude b = b % 2 ^ 63

abbrev pub is_nan : ℕ → Bool
is_nan b = ltb 0x7ff0_0000_0000_0000 (magnitude b)

unfoldable pub f64_eq : ℕ → ℕ → Bool
f64_eq a b = not (is_nan a) && not (is_nan b) && (a == b || magnitude a == 0 && magnitude b == 0)

abbrev pub bool_eq : Bool → Bool → Bool
bool_eq true b = b
bool_eq false b = not b

abbrev pub int_eq : ℤ → ℤ → Bool
int_eq (pos a) (pos b) = a == b
int_eq (negsuc a) (negsuc b) = a == b
int_eq _ _ = false

unfoldable mutual
  pub value_eq : C5DataValue → C5DataValue → Bool
  value_eq null null = true
  value_eq (bytes a) (bytes b) = a == b
  value_eq (boolean a) (boolean b) = bool_eq a b
  value_eq (integer a) (integer b) = int_eq a b
  value_eq (uinteger a) (uinteger b) = a == b
  value_eq (float a) (float b) = f64_eq a b
  value_eq (string a) (string b) = a == b
  value_eq (array a) (array b) = items_eq a b
  value_eq (map a) (map b) = len a == len b && fields_eq a b
  value_eq _ _ = false

  pub items_eq : Items → Items → Bool
  items_eq nil nil = true
  items_eq (cons a s) (cons b t) = value_eq a b && items_eq s t
  items_eq _ _ = false

  -- `self.iter().all(|(key, value)| other.get(key).map_or(false, |v| *value == *v))`
  pub fields_eq : Fields → Fields → Bool
  fields_eq end other = true
  fields_eq (field k v m) other =
      elim (lookup k other) [ none ↦ false | some w ↦ value_eq v w ] && fields_eq m other

-- No NaN stands in the value, and no key twice in a map of it.
abbrev mutual
  pub IsPlain : C5DataValue → Type 0
  IsPlain (float b) = is_nan b ≡ false
  IsPlain (array vs) = ArePlain vs
  IsPlain (map m) = HasDistinctKeys m × ArePlainFields m
  IsPlain _ = Unit

  pub ArePlain : Items → Type 0
  ArePlain nil = Unit
  ArePlain (cons v vs) = IsPlain v × ArePlain vs

  pub ArePlainFields : Fields → Type 0
  ArePlainFields end = Unit
  ArePlainFields (field k v m) = IsPlain v × ArePlainFields m

-- Every entry of the first map is found in the second.
abbrev AllFound : Fields → Fields → Type 0
AllFound end other = Unit
AllFound (field k v m) other = (lookup k other ≡ some v) × AllFound m other

AllFound-field :
    (m other : Fields) (k : Str) (v : C5DataValue)
    → lookup k m ≡ none
    → AllFound m other
    → AllFound m (field k v other)
unfolding lookup
AllFound-field end other k v n a = tt
AllFound-field (field j w m) other k v n a =
    ground (arith, eq_iff j k, eq_iff k j, AllFound-field m other k v)

AllFound-self : (m : Fields) → HasDistinctKeys m → AllFound m m
unfolding lookup
AllFound-self end d = tt
AllFound-self (field k v m) d = (rw (eq_refl k), AllFound-field m m k v d.0 (AllFound-self m d.1))

mutual
  unfolding value_eq f64_eq

  value_refl : (v : C5DataValue) → IsPlain v → value_eq v v ≡ true
  value_refl null p = refl
  value_refl (bytes a) p = eq_refl a
  value_refl (boolean b) p = ground arith
  value_refl (integer (pos n)) p = ground arith
  value_refl (integer (negsuc n)) p = ground arith
  value_refl (uinteger n) p = ground arith
  value_refl (float b) p = ground (arith, eq_refl b)
  value_refl (string s) p = eq_refl s
  value_refl (array vs) p = items_refl vs p
  value_refl (map m) p = ground (arith, eq_refl (len m), fields_refl m m p.1 (AllFound-self m p.0))

  items_refl : (vs : Items) → ArePlain vs → items_eq vs vs ≡ true
  items_refl nil p = refl
  items_refl (cons v vs) p = ground (arith, value_refl v, items_refl vs)

  fields_refl : (m other : Fields) → ArePlainFields m → AllFound m other → fields_eq m other ≡ true
  fields_refl end other p a = refl
  fields_refl (field k v m) other p a =
      rw (a.0, fields_eq) (ground (arith, value_refl v p.0, fields_refl m other p.1 a.1))

-- A value equals itself under the derived equality if no NaN stands in it and no map of it has a
-- key twice.
pub value_eq_refl : (v : C5DataValue) → IsPlain v → value_eq v v ≡ true
value_eq_refl v p = value_refl v p

-- A NaN differs from itself, so this needs no other value.
pub value_eq_nan : (b : ℕ) → is_nan b ≡ true → value_eq (float b) (float b) ≡ false
unfolding value_eq f64_eq
value_eq_nan b h = rw h
