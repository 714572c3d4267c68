-- ===== src/Bitset/Extensional.antt =====
-- `==`, `empty`, `resize` and the constructor of Bitset in terms of `test`.
use mathlib.Core.Option
use native.Mathlib.Decide.{dec_lt}
use verona_bc.Prelude.{
  ℕ, zero, suc, ◌+◌, ◌-◌, ◌*◌, ◌≤◌, ◌<◌, ◌≡◌, refl, sym, ap, ◌∙◌, ◌↔◌, ◌≢◌, true, false, some, List,
  [], ◌∷◌, arith, get_or, length, resize, get_elem?-eq-get_or, get_or_past, get_or_ext,
  length-resize, get_elem?-resize,
}
use verona_bc.Prelude.Bits.{bit_at, bit_at-lt, bit_at-zero, bit_at_ext}
use verona_bc.Bitset.{
  Bitset, idx, off, test, make, resize_set, is_empty, all_zero, equals, same_words, differs,
}
use verona_bc.Bitset.Words.{has_bit}
use verona_bc.Bitset.Laws.{word, has, capacity, IsWords, word-lt, test_in, test_out}
use verona_bc.Bitset.Sets.{test_lem}

same_words_eq : (xs ys : List ℕ) → same_words xs ys ≡ true → xs ≡ ys
unfolding same_words
same_words_eq [] [] h = refl
same_words_eq [] (y ∷ ys) h = cc
same_words_eq (x ∷ xs) [] h = cc
same_words_eq (x ∷ xs) (y ∷ ys) h = ground (arith, same_words_eq xs ys)

pub eq_of_differs : (b c : Bitset) → differs b c ≡ false → b ≡ c
unfolding differs equals
eq_of_differs b c e =
    let same : b.bits ≡ c.bits = same_words_eq b.bits c.bits (ground arith) in
    ap (λ ws. let s : Bitset = record { bits = ws } in s) same

same_words_refl : (xs : List ℕ) → same_words xs xs ≡ true
unfolding same_words
same_words_refl [] = refl
same_words_refl (x ∷ xs) = ground (arith, same_words_refl xs)

-- The same answers at every index mean that neither set is longer.
not_shorter : (b c : Bitset) → ((i : ℕ) → test b i ≡ test c i) → length c.bits ≤ length b.bits
not_shorter b c h = elim (dec_lt (capacity b) (capacity c)) [
  | yes l ↦ ground (arith, test_lem b (capacity b), test_lem c (capacity b), h (capacity b))
  | no l ↦ omega arith
]

same_bit :
    (b c : Bitset) (k o : ℕ)
    → ((i : ℕ) → test b i ≡ test c i)
    → length b.bits ≡ length c.bits
    → k < length b.bits
    → o < 64
    → bit_at (word b k) o ≡ bit_at (word c k) o
same_bit b c k o h e lk lo =
    let i = k * 64 + o in
    let ei : idx i ≡ k = omega arith in
    let eo : off i ≡ o = omega arith in
    let tb : test b i ≡ some (has_bit (word b k) o) =
      test_in b i (omega arith) ∙ rw (ei, eo) refl in
    let tc : test c i ≡ some (has_bit (word c k) o) =
      test_in c i (omega arith) ∙ rw (ei, eo) refl in
    ground (arith, h i, bit_at-lt o (word b k), bit_at-lt o (word c k))

-- On sets of uint64_t words, `==` holds exactly when the two answer `test` alike at every index.
pub equals_iff :
    (b c : Bitset) → IsWords b → IsWords c → (equals b c ≡ true) ↔ ((i : ℕ) → test b i ≡ test c i)
unfolding equals
equals_iff b c hb hc = (forth, back)
  where
    forth : equals b c ≡ true → (i : ℕ) → test b i ≡ test c i
    forth e i =
        ap (λ ws. test (record { bits = ws }) i) (same_words_eq b.bits c.bits (ground arith))

    back : ((i : ℕ) → test b i ≡ test c i) → equals b c ≡ true
    back h =
        let same_length : length b.bits ≡ length c.bits =
          omega (arith, not_shorter b c h, not_shorter c b (λ i. sym (h i))) in
        let same : b.bits ≡ c.bits = get_or_ext 0 b.bits c.bits same_length (λ k l.
          bit_at_ext 64 (word b k) (word c k) (word-lt b.bits k hb) (word-lt c.bits k hc)
            (λ o lo. same_bit b c k o h same_length l lo)) in
        rw (same, same_words_refl c.bits) (ground arith)

all_zero_get : (ws : List ℕ) (k : ℕ) → all_zero ws ≡ true → get_or ws k 0 ≡ 0
unfolding all_zero
all_zero_get [] k h = refl
all_zero_get (w ∷ ws) zero h = ground arith
all_zero_get (w ∷ ws) (suc k) h = ground (arith, all_zero_get ws k)

all_zero_of : (ws : List ℕ) → ((k : ℕ) → k < length ws → get_or ws k 0 ≡ 0) → all_zero ws ≡ true
unfolding all_zero
all_zero_of [] h = refl
all_zero_of (w ∷ ws) h =
    ground (arith, h 0 (omega arith), all_zero_of ws (λ k l. h (suc k) (omega arith)))

has_bit-zero : (o : ℕ) → has_bit 0 o ≡ false
has_bit-zero o = ground (arith, bit_at-zero o)

no_bit :
    (b : Bitset) (k o : ℕ)
    → ((i : ℕ) → test b i ≢ some true)
    → k < length b.bits
    → o < 64
    → bit_at (word b k) o ≡ bit_at 0 o
no_bit b k o h lk lo =
    let i = k * 64 + o in
    let ei : idx i ≡ k = omega arith in
    let eo : off i ≡ o = omega arith in
    let tb : test b i ≡ some (has_bit (word b k) o) =
      test_in b i (omega arith) ∙ rw (ei, eo) refl in
    ground (arith, h i, bit_at-lt o (word b k), bit_at-zero o)

-- On a set of uint64_t words, `empty` holds exactly when no index tests true.
pub is_empty_iff : (b : Bitset) → IsWords b → (is_empty b ≡ true) ↔ ((i : ℕ) → test b i ≢ some true)
unfolding is_empty
is_empty_iff b hb = (forth, back)
  where
    forth : is_empty b ≡ true → (i : ℕ) → test b i ≢ some true
    forth e i t = ground (
      arith,
      all_zero_get b.bits (idx i) e,
      test_lem b i,
      has_bit-zero (off i),
      ap (λ w. has_bit w (off i)) (all_zero_get b.bits (idx i) e),
    )

    back : ((i : ℕ) → test b i ≢ some true) → is_empty b ≡ true
    back h = all_zero_of b.bits (λ k l.
        bit_at_ext 64 (word b k) 0 (word-lt b.bits k hb) (omega arith)
          (λ o lo. no_bit b k o h l lo))

abbrev pub grown : Bitset → ℕ → Bitset
grown b n = record { bits = resize (idx (n - 1) + 1) 0 b.bits }

resize_set_pos : (b : Bitset) (n : ℕ) → 0 < n → resize_set b n ≡ grown b n
unfolding resize_set
resize_set_pos b n h = ground arith

has-grown : (b : Bitset) (n i : ℕ) → i < n → has (grown b n) i ≡ has b i
has-grown b n i h =
    ap (λ w. has_bit w (off i))
      (ground (
        arith,
        get_elem?-resize (idx (n - 1) + 1) 0 b.bits (idx i) (omega arith),
        get_elem?-eq-get_or (resize (idx (n - 1) + 1) 0 b.bits) (idx i) 0
            (omega (arith, length-resize (idx (n - 1) + 1) 0 b.bits)),
      ))

has_past : (b : Bitset) (i : ℕ) → capacity b ≤ i → has b i ≡ false
has_past b i h = rw (get_or_past b.bits (idx i) 0 (omega arith)) (has_bit-zero (off i))

-- After `resize(n)` every index below `n` is in range: one that was in range before keeps its bit, and
-- a new one is clear.
pub test-resize_set :
    (b : Bitset) (n i : ℕ) → i < n → test (resize_set b n) i ≡ some (Option.get_or (test b i) false)
test-resize_set b n i h =
    rw
      (
        resize_set_pos b n (omega arith),
        test_in (grown b n) i (omega (arith, length-resize (idx (n - 1) + 1) 0 b.bits)),
        has-grown b n i h,
      )
      (elim (dec_lt i (capacity b)) [
        | yes l ↦ rw (test_in b i l) refl
        | no l ↦ rw (test_out b i (omega arith), has_past b i (omega arith)) refl
      ])

-- A new set of size `n` has every index below `n`, all clear.
pub test-make : (n i : ℕ) → i < n → test (make n) i ≡ some false
unfolding make
test-make n i h =
    ground (arith, test-resize_set (record { bits = [] }) n i h, test_out (record { bits = [] }) i)

pub resize_set-capacity : (b : Bitset) (n i : ℕ) → i < n → i < capacity (resize_set b n)
resize_set-capacity b n i h =
    rw (resize_set_pos b n (omega arith)) (omega (arith, length-resize (idx (n - 1) + 1) 0 b.bits))

pub capacity-make : (n : ℕ) → n ≤ capacity (make n)
unfolding make
capacity-make zero = omega arith
capacity-make (suc n) =
    ground (arith, resize_set-capacity (record { bits = [] }) (suc n) n (omega arith))

pub capacity-make_one : (n : ℕ) → 0 < n → n ≤ 64 → capacity (make n) ≡ 64
unfolding make
capacity-make_one n h l =
    let first : idx (n - 1) ≡ 0 = omega arith in
    let none_yet : List ℕ = [] in
    ground (
      arith,
      ap capacity (resize_set_pos (record { bits = [] }) n h),
      length-resize (idx (n - 1) + 1) 0 none_yet,
    )
