-- ===== src/Tests/Values.antt =====
-- Runs of the conversions of values.
use c5store.Base.{◌≡◌, ◌↔◌, ok}
use c5store.Base.Int.{ℤ, pos}
use c5store.Text.{str_eq}
use c5store.Value.{integer}
use c5store.Value.Casts.{SignedType, signed_bound, IsWithin, residue}
use c5store.Value.Convert.{try_into_signed}
use c5store.Value.Roundtrip.{try_into_signed_narrows}

try_into_signed_narrows_example :
    (r : ℤ) × (try_into_signed SignedType.i8 (integer (pos 200)) ≡ ok r)
    × IsWithin (signed_bound SignedType.i8) r
    × (residue (signed_bound SignedType.i8) r ≡ residue (signed_bound SignedType.i8) (pos 200))
    × ((r ≡ pos 200) ↔ IsWithin (signed_bound SignedType.i8) (pos 200))
try_into_signed_narrows_example = try_into_signed_narrows SignedType.i8 (pos 200)
