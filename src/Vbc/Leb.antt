-- ===== src/Vbc/Leb.antt =====
-- ULEB128 and zigzag SLEB128: the `<<` operators of virc/vbc/emitter.cc on `uleb` and `sleb`, and
-- `Program::uleb` and `Program::sleb` of vbci/program.h. A signed number is its bit pattern.
pub mod RoundTrip
pub mod Zigzag
pub mod Promoted
use Prim.Native.Nat.{bit_and, bit_or, bit_xor}
use verona_bc.Prelude.{
  ℕ, zero, suc, ◌+◌, ◌-◌, ◌*◌, ◌/◌, ◌%◌, ◌^◌, List, [], ◌∷◌, none, some, ltb, ◌==◌, if◌then◌else◌,
  get_elem?,
}
use verona_bc.Vbc.Reader.{Parsed, parsed, fault, Reader}

-- The loop of `b << uleb(value)`. It halves the value seven times a round, so `fuel = value` is
-- enough; where the fuel is 0, so is the value, and the loop's test fails.
put_uleb_loop : ℕ → ℕ → List ℕ
put_uleb_loop zero value = value % 256 ∷ []
put_uleb_loop (suc fuel) value =
    let more = bit_or (bit_and value 0x7f) 0x80 ∷ put_uleb_loop fuel (value / 2 ^ 7) in
    if ltb 0x7f value then more else value % 256 ∷ []

unfoldable pub put_uleb : ℕ → List ℕ
unfolding put_uleb_loop
put_uleb value = put_uleb_loop value value

-- `sleb<T>` for a `T` of `width` bits, 32 or 64: unsigned arithmetic at that width.
pub zigzag : ℕ → ℕ → ℕ
zigzag width bits =
    bit_xor ((bits * 2) % 2 ^ width) (if ltb bits (2 ^ (width - 1)) then 0 else 2 ^ width - 1)

pub put_sleb : ℕ → ℕ → List ℕ
put_sleb width bits = put_uleb (zigzag width bits)

-- `uleb<int>`: `value > 0x7F` is a signed comparison, so a negative value is one byte, cut to 8 bits.
pub put_uleb_int : ℕ → List ℕ
put_uleb_int value = if ltb value (2 ^ 31) then put_uleb value else value % 256 ∷ []

-- `sleb<T>` for `int8_t` and `int16_t`: both operands of `^` are promoted to `int`, so the mask of a
-- negative number is the int -1 and the result is a negative int.
pub zigzag_promoted : ℕ → ℕ → ℕ
zigzag_promoted width bits =
    bit_xor (bits * 2) (if ltb bits (2 ^ (width - 1)) then 0 else 2 ^ 32 - 1)

pub put_sleb_promoted : ℕ → ℕ → List ℕ
put_sleb_promoted width bits = put_uleb_int (zigzag_promoted width bits)

-- `for (shift = 0; shift <= 63; shift += 7)` makes ten rounds at most.
pub uleb_loop : ℕ → ℕ → ℕ → Reader ℕ
uleb_loop zero shift value pc from = parsed value pc
uleb_loop (suc rounds) shift value pc from = elim (get_elem? from pc) [
  | none ↦ fault
  | some byte ↦
      let value' = bit_or value ((bit_and byte 0x7f * 2 ^ shift) % 2 ^ 64) in
      let more = uleb_loop rounds (shift + 7) value' (pc + 1) from in
      if bit_and byte 0x80 == 0 then parsed value' (pc + 1) else more
]

pub uleb : Reader ℕ
unfolding uleb_loop
uleb pc from = uleb_loop 10 0 0 pc from

-- `(value >> 1) ^ -(value & 1)` on a uint64_t.
pub unzigzag : ℕ → ℕ
unzigzag value = bit_xor (value / 2) ((2 ^ 64 - bit_and value 1) % 2 ^ 64)

pub sleb : Reader ℕ
sleb pc from = elim (uleb pc from) [
  | parsed value pc' ↦ parsed (unzigzag value) pc'
  | Parsed.refused ↦ Parsed.refused
  | fault ↦ fault
]
