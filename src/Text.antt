-- ===== src/Text.antt =====
-- Byte strings: `str`, `String` and `Box<str>` are the list of their UTF-8 bytes, with the standard
-- library's functions that the program calls on them.
pub mod Suffix
pub mod Split
use Prim.Native.Char.{code}
use Prim.Native.String.{String}
use c5store.Base.{
  ℕ, ◌-◌, Bool, true, false, ◌&&◌, List, [], ◌∷◌, Eq, ◌==◌, nat_eq, list_eq, list_beq, leb, length,
  drop,
}

abbrev pub Str : Type 0
Str = List ℕ

instance unfoldable pub str_eq : Eq Str
unfolding list_eq list_beq
str_eq = list_eq

-- The bytes of a literal, which is ASCII wherever the program writes one.
abbrev pub bytes_of : String → Str
bytes_of String.[] = []
bytes_of (String.◌∷◌ c s) = code c ∷ bytes_of s

-- `str::is_empty`
abbrev pub is_empty : Str → Bool
is_empty [] = true
is_empty (c ∷ s) = false

-- `str::starts_with`
unfoldable pub starts_with : Str → Str → Bool
starts_with s [] = true
starts_with [] (p ∷ ps) = false
starts_with (c ∷ s) (p ∷ ps) = c == p && starts_with s ps

-- `str::ends_with`
unfoldable pub ends_with : Str → Str → Bool
ends_with s suffix =
    starts_with (drop (length s - length suffix) s) suffix && leb (length suffix) (length s)
