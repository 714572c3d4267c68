-- ===== src/Bitset/Algebra.antt =====
-- `~`, `&`, `|`, `==`, `empty` and `resize` of Bitset, bit by bit.
use Prim.Native.Nat.{bit_and, bit_or}
use mathlib.Core.List.{map}
use verona_bc.Prelude.{
  ℕ, zero, suc, ◌≤◌, ◌<◌, ◌≡◌, refl, ap, not, ◌&&◌, ◌||◌, none, some, List, [], ◌∷◌, arith, get_or,
  length, length-map,
}
use verona_bc.Bitset.{Bitset, idx, off, complement_word, complement, combine, and_with, or_with}
use verona_bc.Bitset.Words.{has_bit-bit_or, has_bit-bit_and, has_bit-complement}
use verona_bc.Bitset.Laws.{word, has, capacity, IsWords, word-lt}

get_or-map :
    (f : ℕ → ℕ) (ws : List ℕ) (k : ℕ) → k < length ws → get_or (map f ws) k 0 ≡ f (get_or ws k 0)
get_or-map f [] k h = absurd (omega arith)
get_or-map f (w ∷ ws) zero h = refl
get_or-map f (w ∷ ws) (suc k) h = get_or-map f ws k (omega arith)

pub has-complement :
    (b : Bitset) (i : ℕ) → IsWords b → i < capacity b → has (complement b) i ≡ not (has b i)
unfolding complement
has-complement b i h l =
    rw (get_or-map complement_word b.bits (idx i) (omega arith))
      (has_bit-complement (word b (idx i)) (off i) (omega arith) (word-lt b.bits (idx i) h))

pub capacity-complement : (b : Bitset) → capacity (complement b) ≡ capacity b
unfolding complement
capacity-complement b = omega (arith, length-map {0, 0} b.bits complement_word)

-- The loop of `&=` and `|=` where no access is out of range.
abbrev pub zip_words : (ℕ → ℕ → ℕ) → List ℕ → List ℕ → List ℕ
zip_words f [] ys = []
zip_words f (x ∷ xs) [] = []
zip_words f (x ∷ xs) (y ∷ ys) = f x y ∷ zip_words f xs ys

combine_in :
    (f : ℕ → ℕ → ℕ) (xs ys : List ℕ)
    → length xs ≤ length ys
    → combine f xs ys ≡ some (zip_words f xs ys)
unfolding combine
combine_in f [] ys h = refl
combine_in f (x ∷ xs) [] h = absurd (omega arith)
combine_in f (x ∷ xs) (y ∷ ys) h = rw (combine_in f xs ys (omega arith))

combine_out : (f : ℕ → ℕ → ℕ) (xs ys : List ℕ) → length ys < length xs → combine f xs ys ≡ none
unfolding combine
combine_out f [] ys h = absurd (omega arith)
combine_out f (x ∷ xs) [] h = refl
combine_out f (x ∷ xs) (y ∷ ys) h = rw (combine_out f xs ys (omega arith))

length-zip_words :
    (f : ℕ → ℕ → ℕ) (xs ys : List ℕ)
    → length xs ≤ length ys
    → length (zip_words f xs ys) ≡ length xs
length-zip_words f [] ys h = refl
length-zip_words f (x ∷ xs) [] h = absurd (omega arith)
length-zip_words f (x ∷ xs) (y ∷ ys) h = ap suc (length-zip_words f xs ys (omega arith))

get_or-zip_words :
    (f : ℕ → ℕ → ℕ) (xs ys : List ℕ) (k : ℕ)
    → length xs ≤ length ys
    → k < length xs
    → get_or (zip_words f xs ys) k 0 ≡ f (get_or xs k 0) (get_or ys k 0)
get_or-zip_words f [] ys k h l = absurd (omega arith)
get_or-zip_words f (x ∷ xs) [] k h l = absurd (omega arith)
get_or-zip_words f (x ∷ xs) (y ∷ ys) zero h l = refl
get_or-zip_words f (x ∷ xs) (y ∷ ys) (suc k) h l =
    get_or-zip_words f xs ys k (omega arith) (omega arith)

abbrev pub both : Bitset → Bitset → Bitset
both b c = record { bits = zip_words bit_and b.bits c.bits }

abbrev pub either : Bitset → Bitset → Bitset
either b c = record { bits = zip_words bit_or b.bits c.bits }

pub and_with_in : (b c : Bitset) → capacity b ≤ capacity c → and_with b c ≡ some (both b c)
unfolding and_with
and_with_in b c h = rw (combine_in bit_and b.bits c.bits (omega arith))

pub or_with_in : (b c : Bitset) → capacity b ≤ capacity c → or_with b c ≡ some (either b c)
unfolding or_with
or_with_in b c h = rw (combine_in bit_or b.bits c.bits (omega arith))

pub and_with_out : (b c : Bitset) → capacity c < capacity b → and_with b c ≡ none
unfolding and_with
and_with_out b c h = rw (combine_out bit_and b.bits c.bits (omega arith))

pub or_with_out : (b c : Bitset) → capacity c < capacity b → or_with b c ≡ none
unfolding or_with
or_with_out b c h = rw (combine_out bit_or b.bits c.bits (omega arith))

pub has-both :
    (b c : Bitset) (i : ℕ)
    → capacity b ≤ capacity c
    → i < capacity b
    → has (both b c) i ≡ (has b i && has c i)
has-both b c i h l =
    rw (get_or-zip_words bit_and b.bits c.bits (idx i) (omega arith) (omega arith))
      (has_bit-bit_and (word b (idx i)) (word c (idx i)) (off i))

pub has-either :
    (b c : Bitset) (i : ℕ)
    → capacity b ≤ capacity c
    → i < capacity b
    → has (either b c) i ≡ (has b i || has c i)
has-either b c i h l =
    rw (get_or-zip_words bit_or b.bits c.bits (idx i) (omega arith) (omega arith))
      (has_bit-bit_or (word b (idx i)) (word c (idx i)) (off i))

pub capacity-both : (b c : Bitset) → capacity b ≤ capacity c → capacity (both b c) ≡ capacity b
capacity-both b c h = omega (arith, length-zip_words bit_and b.bits c.bits (omega arith))

pub capacity-either : (b c : Bitset) → capacity b ≤ capacity c → capacity (either b c) ≡ capacity b
capacity-either b c h = omega (arith, length-zip_words bit_or b.bits c.bits (omega arith))
