-- ===== src/Literals/Utf8.antt =====
-- What `append_utf8` writes is UTF-8: an independent decoder reads the character back.
use verona_bc.Prelude.{
  ◌↔◌, ℕ, ◌+◌, ◌-◌, ◌*◌, ◌%◌, ◌≡◌, Bool, false, not, ◌&&◌, Option, none, some, List, [], ◌∷◌, ◌++◌,
  ltb, leb, if◌then◌else◌, arith,
}
use verona_bc.Literals.{append_utf8}

-- A continuation byte.
trail : ℕ → ℕ
trail x = 128 + x % 64

-- RFC 3629, as far as it tells characters from their bytes.
is_trail : ℕ → Bool
is_trail b = leb 128 b && ltb b 192

decode_two : ℕ → List ℕ → Option (ℕ × List ℕ)
unfolding is_trail
decode_two a (b ∷ bs) = if is_trail b then some ((a - 192) * 64 + (b - 128), bs) else none
decode_two a [] = none

decode_three : ℕ → List ℕ → Option (ℕ × List ℕ)
unfolding is_trail
decode_three a (b ∷ c ∷ bs) =
    if is_trail b && is_trail c
    then some ((a - 224) * 4096 + (b - 128) * 64 + (c - 128), bs)
    else none
decode_three a _ = none

decode_four : ℕ → List ℕ → Option (ℕ × List ℕ)
unfolding is_trail
decode_four a (b ∷ c ∷ d ∷ bs) =
    if is_trail b && is_trail c && is_trail d
    then some ((a - 240) * 262144 + (b - 128) * 4096 + (c - 128) * 64 + (d - 128), bs)
    else none
decode_four a _ = none

abbrev pub is_scalar : ℕ → Bool
is_scalar cp = ltb cp 0x110000 && not (leb 0xd800 cp && ltb cp 0xe000)

pub decode_char : List ℕ → Option (ℕ × List ℕ)
unfolding decode_two decode_three decode_four
decode_char [] = none
decode_char (a ∷ bs) =
    if ltb a 128
    then some (a, bs)
    else if ltb a 192
    then none
    else if ltb a 224
    then decode_two a bs
    else if ltb a 240
    then decode_three a bs
    else if ltb a 248
    then decode_four a bs
    else none

-- What `append_utf8` promises for a scalar value.
abbrev Appends : ℕ → List ℕ → List ℕ → Type 0
Appends cp out rest =
    (bs : List ℕ) × (append_utf8 cp out ≡ some (out ++ bs))
    × (decode_char (bs ++ rest) ≡ some (cp, rest))

-- `append_utf8` returns false exactly for a number that is no Unicode scalar value.
pub append_utf8_refuses_iff :
    (cp : ℕ) (out : List ℕ) → (append_utf8 cp out ≡ none) ↔ (is_scalar cp ≡ false)
unfolding append_utf8
append_utf8_refuses_iff cp out = ground arith
