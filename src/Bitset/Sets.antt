-- ===== src/Bitset/Sets.antt =====
-- The laws of Bitset's operations in terms of `test`: what each one does to every bit, and when it throws.
use Prim.Native.Nat.{bit_and, bit_or}
use verona_bc.Prelude.{
  ℕ, ◌^◌, ◌<◌, ◌≡◌, true, false, none, some, arith, ◌==◌, ltb, if◌then◌else◌, length-set,
  get_elem?_past,
}
use verona_bc.Bitset.{Bitset, idx, off, complement_word, test, set_bit, reset_bit}
use verona_bc.Bitset.Laws.{
  word, has, capacity, test_in, test_out, set_bit_in, reset_bit_in, has-put, has-clear,
}
use native.Mathlib.Decide.{dec_lt}

pub test_lem :
    (b : Bitset) (i : ℕ) → test b i ≡ (if ltb i (capacity b) then some (has b i) else none)
test_lem b i = elim (dec_lt i (capacity b)) [
  | yes h ↦ rw (test_in b i h) (ground arith)
  | no h ↦ rw (test_out b i (omega arith)) (ground arith)
]

set_bit_fits : (b c : Bitset) (i : ℕ) → set_bit b i ≡ some c → i < capacity b
unfolding set_bit
set_bit_fits b c i e = elim (dec_lt i (capacity b)) [
  | yes h ↦ h
  | no h ↦ ground (arith, get_elem?_past b.bits (idx i) (omega arith))
]

reset_bit_fits : (b c : Bitset) (i : ℕ) → reset_bit b i ≡ some c → i < capacity b
unfolding reset_bit
reset_bit_fits b c i e = elim (dec_lt i (capacity b)) [
  | yes h ↦ h
  | no h ↦ ground (arith, get_elem?_past b.bits (idx i) (omega arith))
]

-- Where `set(i)` does not throw, the index `i` tests true and every other index tests as before, out
-- of range included.
pub test-set_bit :
    (b c : Bitset) (i j : ℕ)
    → set_bit b i ≡ some c
    → test c j ≡ (if i == j then some true else test b j)
test-set_bit b c i j e =
    let h = set_bit_fits b c i e in
    ground (
      arith,
      set_bit_in b i h,
      test_lem c j,
      test_lem b j,
      has-put b i j h,
      length-set b.bits (idx i) (bit_or (word b (idx i)) (2 ^ off i)),
    )

-- Where `reset(i)` does not throw, the index `i` tests false and every other index tests as before, out
-- of range included.
pub test-reset_bit :
    (b c : Bitset) (i j : ℕ)
    → reset_bit b i ≡ some c
    → test c j ≡ (if i == j then some false else test b j)
test-reset_bit b c i j e =
    let h = reset_bit_fits b c i e in
    ground (
      arith,
      reset_bit_in b i h,
      test_lem c j,
      test_lem b j,
      has-clear b i j h,
      length-set b.bits (idx i) (bit_and (word b (idx i)) (complement_word (2 ^ off i))),
    )
