-- ===== src/Bitset/Laws.antt =====
-- Bitset seen as a set of numbers: `has b i` for the members, `capacity b` for how far they go.
use Prim.Native.Nat.{bit_and, bit_or}
use native.Mathlib.Nat.{pow-le-pow_right}
use verona_bc.Prelude.{
  ℕ, zero, suc, ◌*◌, ◌^◌, ◌≤◌, ◌<◌, ◌≡◌, Bool, not, ◌&&◌, ◌||◌, none, some, List, [], ◌∷◌, arith,
  ◌==◌, get_or, set, length, get_or-set, get_elem?-eq-get_or, get_elem?_past, All, length-set,
}
use verona_bc.Prelude.Bits.{div-pow-mod}
use verona_bc.Bitset.{Bitset, word_mod, idx, off, complement_word, test, set_bit, reset_bit}
use verona_bc.Bitset.Words.{
  has_bit, has_bit-bit_or, has_bit-bit_and, has_bit-complement, has_bit-pow,
}

abbrev pub word : Bitset → ℕ → ℕ
word b k = get_or b.bits k 0

abbrev pub has : Bitset → ℕ → Bool
has b i = has_bit (word b (idx i)) (off i)

abbrev pub capacity : Bitset → ℕ
capacity b = length b.bits * 64

-- Every word is a uint64_t.
abbrev pub IsWords : Bitset → Type 0
IsWords b = All (λ w. w < word_mod) b.bits

abbrev pub put : Bitset → ℕ → Bitset
put b i = record { bits = set b.bits (idx i) (bit_or (word b (idx i)) (2 ^ off i)) }

abbrev pub clear : Bitset → ℕ → Bitset
clear b i = record {
  bits = set b.bits (idx i) (bit_and (word b (idx i)) (complement_word (2 ^ off i)));
}

pub word-lt : (ws : List ℕ) (k : ℕ) → All (λ w. w < word_mod) ws → get_or ws k 0 < word_mod
word-lt [] k h = omega arith
word-lt (w ∷ ws) zero h = h.0
word-lt (w ∷ ws) (suc k) h = word-lt ws k h.1

pow_off-lt : (i : ℕ) → 2 ^ off i < word_mod
pow_off-lt i =
    omega (arith, pow-le-pow_right {n = 2} (omega arith) {i = off i} {j = 63} (omega arith))

pub test_in : (b : Bitset) (i : ℕ) → i < capacity b → test b i ≡ some (has b i)
unfolding test
test_in b i h =
    rw (get_elem?-eq-get_or b.bits (idx i) 0 (omega arith))
      (ground (arith, div-pow-mod (off i) (word b (idx i))))

pub test_out : (b : Bitset) (i : ℕ) → capacity b ≤ i → test b i ≡ none
unfolding test
test_out b i h = rw (get_elem?_past b.bits (idx i) (omega arith))

pub set_bit_in : (b : Bitset) (i : ℕ) → i < capacity b → set_bit b i ≡ some (put b i)
unfolding set_bit
set_bit_in b i h = rw (get_elem?-eq-get_or b.bits (idx i) 0 (omega arith))

pub reset_bit_in : (b : Bitset) (i : ℕ) → i < capacity b → reset_bit b i ≡ some (clear b i)
unfolding reset_bit
reset_bit_in b i h = rw (get_elem?-eq-get_or b.bits (idx i) 0 (omega arith))

same_place : (i j : ℕ) → (i == j) ≡ ((idx i == idx j) && (off i == off j))
same_place i j = ground arith

pub has-put : (b : Bitset) (i j : ℕ) → i < capacity b → has (put b i) j ≡ (i == j || has b j)
has-put b i j h = ground (
  arith,
  get_or-set b.bits (idx i) (idx j) (bit_or (word b (idx i)) (2 ^ off i)) 0 (omega arith),
  has_bit-bit_or (word b (idx i)) (2 ^ off i) (off j),
  has_bit-pow (off i) (off j),
  same_place i j,
)

pub has-clear :
    (b : Bitset) (i j : ℕ) → i < capacity b → has (clear b i) j ≡ (not (i == j) && has b j)
has-clear b i j h = ground (
  arith,
  get_or-set b.bits (idx i) (idx j) (bit_and (word b (idx i)) (complement_word (2 ^ off i))) 0
      (omega arith),
  has_bit-bit_and (word b (idx i)) (complement_word (2 ^ off i)) (off j),
  has_bit-complement (2 ^ off i) (off j) (omega arith) (pow_off-lt i),
  has_bit-pow (off i) (off j),
  same_place i j,
)

pub capacity-put : (b : Bitset) (i : ℕ) → capacity (put b i) ≡ capacity b
capacity-put b i = omega (arith, length-set b.bits (idx i) (bit_or (word b (idx i)) (2 ^ off i)))

pub capacity-clear : (b : Bitset) (i : ℕ) → capacity (clear b i) ≡ capacity b
capacity-clear b i =
    omega
      (arith, length-set b.bits (idx i) (bit_and (word b (idx i)) (complement_word (2 ^ off i))))
