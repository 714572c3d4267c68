-- ===== src/Bitset.antt =====
-- virc/analysis/bitset.h and bitset.cc: register sets over words of 64 bits.
-- `none` is the std::out_of_range that `bits.at` throws.
pub mod Words
pub mod Laws
pub mod Sets
pub mod Algebra
pub mod Views
pub mod Extensional
pub mod Counting
pub mod Tests
use Prim.Native.Nat.{bit_and, bit_or}
use verona_bc.Prelude.{
  ℕ, ◌+◌, ◌-◌, ◌/◌, ◌%◌, ◌^◌, Bool, true, false, not, ◌&&◌, Option, none, some, List, [], ◌∷◌, map,
  ◌==◌, if◌then◌else◌, get_elem?, set, length, resize,
}
use verona_bc.Prelude.Fallible.{◌>>=◌}

pub record Bitset : Type 0 where
  pub bits : List ℕ

abbrev pub word_bits : ℕ
word_bits = 64

abbrev pub word_mod : ℕ
word_mod = 2 ^ 64

abbrev pub idx : ℕ → ℕ
idx i = i / word_bits

abbrev pub off : ℕ → ℕ
off i = i % word_bits

-- `~w` on a uint64_t.
abbrev pub complement_word : ℕ → ℕ
complement_word w = word_mod - 1 - w

unfoldable pub resize_set : Bitset → ℕ → Bitset
resize_set b size =
    if size == 0
    then record { bits = [] }
    else record { bits = resize (idx (size - 1) + 1) 0 b.bits }

unfoldable pub make : ℕ → Bitset
unfolding resize_set
make size = if size == 0 then record { bits = [] } else resize_set (record { bits = [] }) size

all_zero : List ℕ → Bool
all_zero [] = true
all_zero (w ∷ ws) = w == 0 && all_zero ws

pub is_empty : Bitset → Bool
unfolding all_zero
is_empty b = all_zero b.bits

unfoldable pub is_nonempty : Bitset → Bool
unfolding is_empty
is_nonempty b = not (is_empty b)

unfoldable pub test : Bitset → ℕ → Option Bool
test b i = do w ← get_elem? b.bits (idx i); some ((w / 2 ^ off i) % 2 == 1)

unfoldable pub set_bit : Bitset → ℕ → Option Bitset
set_bit b i = do
  w ← get_elem? b.bits (idx i)
  some (record { bits = set b.bits (idx i) (bit_or w (2 ^ off i)) })

unfoldable pub reset_bit : Bitset → ℕ → Option Bitset
reset_bit b i = do
  w ← get_elem? b.bits (idx i)
  some (record { bits = set b.bits (idx i) (bit_and w (complement_word (2 ^ off i))) })

unfoldable pub complement : Bitset → Bitset
complement b = record { bits = map complement_word b.bits }

-- `for (i < bits.size()) bits.at(i) op= that.bits.at(i)`: the right side may be longer, not shorter.
combine : (ℕ → ℕ → ℕ) → List ℕ → List ℕ → Option (List ℕ)
combine f [] ys = some []
combine f (x ∷ xs) [] = none
combine f (x ∷ xs) (y ∷ ys) = do rest ← combine f xs ys; some (f x y ∷ rest)

unfoldable pub and_with : Bitset → Bitset → Option Bitset
unfolding combine
and_with b that = do ws ← combine bit_and b.bits that.bits; some (record { bits = ws })

unfoldable pub or_with : Bitset → Bitset → Option Bitset
unfolding combine
or_with b that = do ws ← combine bit_or b.bits that.bits; some (record { bits = ws })

same_words : List ℕ → List ℕ → Bool
same_words [] [] = true
same_words [] (y ∷ ys) = false
same_words (x ∷ xs) [] = false
same_words (x ∷ xs) (y ∷ ys) = x == y && same_words xs ys

pub equals : Bitset → Bitset → Bool
unfolding same_words
equals b that = length b.bits == length that.bits && same_words b.bits that.bits

unfoldable pub differs : Bitset → Bitset → Bool
unfolding equals
differs b that = not (equals b that)
