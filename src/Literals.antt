-- ===== src/Literals.antt =====
-- Characters of string literals: `append_utf8` of virc/support/literals.cc.
pub mod Utf8
pub mod Escapes
pub mod Tests
use Prim.Native.Nat.{bit_and, bit_or}
use verona_bc.Prelude.{
  ℕ, ◌+◌, ◌*◌, ◌/◌, ◌%◌, ◌^◌, Bool, ◌&&◌, ◌||◌, Option, none, some, List, [], ◌∷◌, ◌++◌, ltb, leb,
  if◌then◌else◌,
}

-- `char(n)`: a byte.
abbrev pub char : ℕ → ℕ
char n = n % 256

-- `none` is the result false, with `out` as it was.
pub append_utf8 : ℕ → List ℕ → Option (List ℕ)
append_utf8 cp out =
    if ltb 0x10ffff cp || (leb 0xd800 cp && leb cp 0xdfff)
    then none
    else if ltb cp 0x80
    then some (out ++ (char cp ∷ []))
    else if ltb cp 0x800
    then some (out ++ (char (bit_or 0xc0 (cp / 2 ^ 6)) ∷ char (bit_or 0x80 (bit_and cp 0x3f)) ∷ []))
    else if ltb cp 0x10000
    then some (
        out
        ++ (char (bit_or 0xe0 (cp / 2 ^ 12))
            ∷ char (bit_or 0x80 (bit_and (cp / 2 ^ 6) 0x3f))
            ∷ char (bit_or 0x80 (bit_and cp 0x3f))
            ∷ []))
    else some (
        out
        ++ (char (bit_or 0xf0 (cp / 2 ^ 18))
            ∷ char (bit_or 0x80 (bit_and (cp / 2 ^ 12) 0x3f))
            ∷ char (bit_or 0x80 (bit_and (cp / 2 ^ 6) 0x3f))
            ∷ char (bit_or 0x80 (bit_and cp 0x3f))
            ∷ []))
