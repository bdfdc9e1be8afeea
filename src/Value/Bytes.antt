-- ===== src/Value/Bytes.antt =====
-- `C5DataValue::as_bytes` (c5store_rust/src/value.rs). The byte order of the machine is a parameter.
use c5store.Base.{
  ℕ, zero, suc, ◌+◌, ◌*◌, ◌/◌, ◌%◌, ◌<◌, ◌≡◌, refl, ◌∙◌, Bool, true, false, Option, none, some,
  List, [], ◌∷◌, ◌++◌, if◌then◌else◌, arith,
}
use c5store.Value.{C5DataValue, bytes, boolean, integer, uinteger, float, string}
use c5store.Value.Casts.{i64_bound, u64_bound, residue}

-- The low bytes of a number, the least significant one first, and last.
unfoldable pub little_endian : ℕ → ℕ → List ℕ
little_endian zero n = []
little_endian (suc k) n = (n % 256) ∷ little_endian k (n / 256)

unfoldable pub big_endian : ℕ → ℕ → List ℕ
big_endian zero n = []
big_endian (suc k) n = big_endian k (n / 256) ++ (n % 256 ∷ [])

-- `to_ne_bytes` of a 64-bit number, whose bits are those of the natural number.
unfoldable pub to_ne_bytes : Bool → ℕ → List ℕ
unfolding little_endian big_endian
to_ne_bytes big n = if big then big_endian 8 n else little_endian 8 n

unfoldable pub as_bytes : Bool → C5DataValue → Option (List ℕ)
unfolding to_ne_bytes
as_bytes big (string value) = some value
as_bytes big (bytes value) = some value
as_bytes big (boolean value) = some (if value then 1 ∷ [] else 0 ∷ [])
as_bytes big (float value) = some (to_ne_bytes big value)
as_bytes big (integer value) = some (to_ne_bytes big (residue i64_bound value))
as_bytes big (uinteger value) = some (to_ne_bytes big value)
as_bytes big _ = none

-- The number that the bytes stand for.
abbrev from_little : List ℕ → ℕ
from_little [] = 0
from_little (b ∷ l) = b + 256 * from_little l

abbrev from_big : ℕ → List ℕ → ℕ
from_big n [] = n
from_big n (b ∷ l) = from_big (256 * n + b) l

abbrev pub from_ne_bytes : Bool → List ℕ → ℕ
from_ne_bytes big l = if big then from_big 0 l else from_little l

-- 256 to the number of bytes.
abbrev word : ℕ → ℕ
word zero = 1
word (suc k) = 256 * word k

from_little-little_endian : (k n : ℕ) → n < word k → from_little (little_endian k n) ≡ n
unfolding little_endian
from_little-little_endian zero n h = omega arith
from_little-little_endian (suc k) n h =
    rw (from_little-little_endian k (n / 256) (omega arith)) (omega arith)

from_big-append : (l : List ℕ) (n b : ℕ) → from_big n (l ++ (b ∷ [])) ≡ 256 * from_big n l + b
from_big-append [] n b = refl
from_big-append (c ∷ l) n b = from_big-append l (256 * n + c) b

from_big-big_endian : (k n : ℕ) → n < word k → from_big 0 (big_endian k n) ≡ n
unfolding big_endian
from_big-big_endian zero n h = omega arith
from_big-big_endian (suc k) n h =
    from_big-append (big_endian k (n / 256)) 0 (n % 256)
    ∙ rw (from_big-big_endian k (n / 256) (omega arith)) (omega arith)

-- A 64-bit number is read back from its bytes, whatever the byte order of the machine.
pub from_ne_bytes-to_ne_bytes :
    (big : Bool) (n : ℕ) → n < u64_bound → from_ne_bytes big (to_ne_bytes big n) ≡ n
unfolding to_ne_bytes
from_ne_bytes-to_ne_bytes true n h = from_big-big_endian 8 n h
from_ne_bytes-to_ne_bytes false n h = from_little-little_endian 8 n h
