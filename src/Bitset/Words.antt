-- ===== src/Bitset/Words.antt =====
-- What each operation of Bitset does to the bits of one 64-bit word.
use Prim.Native.Nat.{bit_and, bit_or}
use verona_bc.Prelude.{ℕ, ◌^◌, ◌<◌, ◌≡◌, Bool, not, ◌&&◌, ◌||◌, ◌==◌, arith}
use verona_bc.Prelude.Bits.{
  bit_at, bit_at-lt, bit_at-bit_or, bit_at-bit_and, bit_at-complement, bit_at-pow,
}
use verona_bc.Bitset.{word_mod, complement_word}

abbrev pub has_bit : ℕ → ℕ → Bool
has_bit w k = bit_at w k == 1

pub has_bit-bit_or : (w v k : ℕ) → has_bit (bit_or w v) k ≡ (has_bit w k || has_bit v k)
has_bit-bit_or w v k = ground (arith, bit_at-bit_or k w v, bit_at-lt k w, bit_at-lt k v)

pub has_bit-bit_and : (w v k : ℕ) → has_bit (bit_and w v) k ≡ (has_bit w k && has_bit v k)
has_bit-bit_and w v k = ground (arith, bit_at-bit_and k w v, bit_at-lt k w, bit_at-lt k v)

pub has_bit-complement :
    (w k : ℕ) → k < 64 → w < word_mod → has_bit (complement_word w) k ≡ not (has_bit w k)
has_bit-complement w k h l = ground (arith, bit_at-complement 64 k w h l, bit_at-lt k w)

pub has_bit-pow : (o k : ℕ) → has_bit (2 ^ o) k ≡ (o == k)
has_bit-pow o k = ground (arith, bit_at-pow o k)
