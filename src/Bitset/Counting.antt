-- ===== src/Bitset/Counting.antt =====
-- The words and the number of elements of the sets that Bitset's operations make.
use Prim.Native.Nat.{bit_and, bit_or}
use native.Mathlib.Decide.{dec_lt}
use verona_bc.Prelude.{
  ℕ, ◌≤◌, ◌<◌, ◌≡◌, refl, ap, Bool, true, false, ◌&&◌, List, [], ◌∷◌, arith, map, if◌then◌else◌,
  All,
}
use verona_bc.Prelude.Bits.{bit_or-lt, bit_and-le}
use verona_bc.Prelude.Sums.{total, total-le, total_rigid}
use verona_bc.Bitset.{
  Bitset, equals, complement, complement_word, word_mod, test, differs, is_nonempty, is_empty,
}
use verona_bc.Bitset.Laws.{has, capacity, IsWords, test_in, test_out}
use verona_bc.Bitset.Algebra.{zip_words, both, either, has-both, capacity-both}
use verona_bc.Bitset.Extensional.{equals_iff, is_empty_iff}

zip_words-All :
    (f : ℕ → ℕ → ℕ) (xs ys : List ℕ)
    → ((x y : ℕ) → x < word_mod → y < word_mod → f x y < word_mod)
    → All (λ w. w < word_mod) xs
    → All (λ w. w < word_mod) ys
    → All (λ w. w < word_mod) (zip_words f xs ys)
zip_words-All f [] ys h a b = tt
zip_words-All f (x ∷ xs) [] h a b = tt
zip_words-All f (x ∷ xs) (y ∷ ys) h a b = (h x y a.0 b.0, zip_words-All f xs ys h a.1 b.1)

map-All : (ws : List ℕ) → All (λ w. w < word_mod) (map complement_word ws)
map-All [] = tt
map-All (w ∷ ws) = (omega arith, map-All ws)

pub IsWords-either : (b c : Bitset) → IsWords b → IsWords c → IsWords (either b c)
IsWords-either b c hb hc =
    zip_words-All bit_or b.bits c.bits (λ x y hx hy. bit_or-lt 64 x y hx hy) hb hc

zip_and-All :
    (xs ys : List ℕ)
    → All (λ w. w < word_mod) xs
    → All (λ w. w < word_mod) (zip_words bit_and xs ys)
zip_and-All [] ys h = tt
zip_and-All (x ∷ xs) [] h = tt
zip_and-All (x ∷ xs) (y ∷ ys) h = (omega (arith, bit_and-le 64 x y h.0), zip_and-All xs ys h.1)

pub IsWords-both : (b c : Bitset) → IsWords b → IsWords (both b c)
IsWords-both b c hb = zip_and-All b.bits c.bits hb

-- Sets whose `&` is empty have no element in common.
pub nothing_common :
    (b c : Bitset) (i : ℕ)
    → IsWords b
    → capacity b ≤ capacity c
    → is_nonempty (both b c) ≡ false
    → i < capacity b
    → (has b i && has c i) ≡ false
unfolding is_nonempty
nothing_common b c i hb e none_common h =
    let empty : is_empty (both b c) ≡ true = ground arith in
    let absent = (is_empty_iff (both b c) (IsWords-both b c hb)).0 empty i in
    let size = capacity-both b c e in
    let there = test_in (both b c) i (omega arith) in let meets = has-both b c i e h in ground arith

pub IsWords-complement : (b : Bitset) → IsWords (complement b)
unfolding complement
IsWords-complement b = map-All b.bits

bit : Bool → ℕ
bit b = if b then 1 else 0

-- The number of elements.
pub count : Bitset → ℕ
unfolding bit
count b = total (capacity b) (λ i. bit (has b i))

pub count-le : (b : Bitset) → count b ≤ capacity b
unfolding count bit
count-le b = total-le (capacity b) (λ i. bit (has b i)) (λ i. ground arith)

-- A set that differs from one that it contains has more elements.
pub count_grows :
    (b c : Bitset)
    → IsWords b
    → IsWords c
    → capacity b ≡ capacity c
    → ((i : ℕ) → i < capacity b → has b i ≡ true → has c i ≡ true)
    → differs c b ≡ true
    → count b < count c
unfolding count bit differs
count_grows b c hb hc e grows d = elim (dec_lt (count b) (count c)) [
  | yes l ↦ l
  | no l ↦
      let size : total (capacity b) (λ i. bit (has c i)) ≤ total (capacity b) (λ i. bit (has b i)) =
        omega (arith, ap (λ n. total n (λ i. bit (has c i))) e) in
      let back = total_rigid (capacity b) (λ i. bit (has b i)) (λ i. bit (has c i)) ge size in
      let same : equals c b ≡ true = (equals_iff c b hc hb).1 (λ i. alike i back) in ground arith
]
  where
    ge : (i : ℕ) → i < capacity b → bit (has b i) ≤ bit (has c i)
    ge i m = ground (arith, grows i m)

    alike :
        (i : ℕ) → ((j : ℕ) → j < capacity b → bit (has c j) ≤ bit (has b j)) → test c i ≡ test b i
    alike i back = elim (dec_lt i (capacity b)) [
      | yes m ↦ ground (arith, test_in b i m, test_in c i (omega arith), grows i m, back i m)
      | no m ↦ rw (test_out b i (omega arith), test_out c i (omega arith)) refl
    ]
