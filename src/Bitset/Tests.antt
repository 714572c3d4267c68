-- ===== src/Bitset/Tests.antt =====
-- The Bitset theorems at a set of two words.
use verona_bc.Prelude.{ℕ, ◌≡◌, refl, ◌↔◌, true, not, [], ◌∷◌, none, some, arith}
use verona_bc.Prelude.Fallible.{◌>>=◌}
use verona_bc.Bitset.{Bitset, test, complement, or_with, equals}
use verona_bc.Bitset.Views.{test-complement}
use verona_bc.Bitset.Extensional.{equals_iff}

-- The numbers 0, 3 and 65.
abbrev sample : Bitset
sample = record { bits = 9 ∷ 2 ∷ [] }

abbrev other : Bitset
other = record { bits = 12 ∷ 2 ∷ 1 ∷ [] }

test-complement_example : test (complement sample) 127 ≡ (do x ← test sample 127; some (not x))
test-complement_example = test-complement sample 127 (omega arith)

too_short : or_with other sample ≡ none
unfolding or_with
too_short = refl

equals_iff_example : (equals sample other ≡ true) ↔ ((i : ℕ) → test sample i ≡ test other i)
equals_iff_example = equals_iff sample other (omega arith) (omega arith)
