-- ===== src/Bitset/Views.antt =====
-- `~`, `&`, `|`, `==`, `empty` and `resize` of Bitset in terms of `test`.
use native.Mathlib.Decide.{dec_lt}
use verona_bc.Prelude.{ℕ, ◌≡◌, not, ◌&&◌, ◌||◌, some, arith}
use verona_bc.Prelude.Fallible.{◌>>=◌}
use verona_bc.Bitset.{Bitset, test, complement, and_with, or_with}
use verona_bc.Bitset.Laws.{capacity, IsWords}
use verona_bc.Bitset.Sets.{test_lem}
use verona_bc.Bitset.Algebra.{
  has-complement, capacity-complement, and_with_in, or_with_in, and_with_out, or_with_out, has-both,
  has-either, capacity-both, capacity-either,
}

-- On a set of uint64_t words, `~` flips the answer of `test` at every index and throws at the same ones.
pub test-complement :
    (b : Bitset) (i : ℕ) → IsWords b → test (complement b) i ≡ (do x ← test b i; some (not x))
test-complement b i h =
    ground
      (arith, test_lem b i, test_lem (complement b) i, capacity-complement b, has-complement b i h)

-- Where `b & c` does not throw, an index tests true in it exactly when it does in both sets, and throws
-- exactly when it does in one of them.
pub test-and_with :
    (b c d : Bitset) (i : ℕ)
    → and_with b c ≡ some d
    → test d i ≡ (do x ← test b i; y ← test c i; some (x && y))
test-and_with b c d i e = elim (dec_lt (capacity c) (capacity b)) [
  | yes h ↦ ground (arith, and_with_out b c h)
  | no h ↦ ground (
    arith,
    and_with_in b c (omega arith),
    test_lem b i,
    test_lem c i,
    test_lem d i,
    has-both b c i (omega arith),
    capacity-both b c (omega arith),
  )
]

-- Where `b | c` does not throw, an index tests true in it exactly when it does in one of the sets, and
-- throws exactly when it does in one of them.
pub test-or_with :
    (b c d : Bitset) (i : ℕ)
    → or_with b c ≡ some d
    → test d i ≡ (do x ← test b i; y ← test c i; some (x || y))
test-or_with b c d i e = elim (dec_lt (capacity c) (capacity b)) [
  | yes h ↦ ground (arith, or_with_out b c h)
  | no h ↦ ground (
    arith,
    or_with_in b c (omega arith),
    test_lem b i,
    test_lem c i,
    test_lem d i,
    has-either b c i (omega arith),
    capacity-either b c (omega arith),
  )
]
