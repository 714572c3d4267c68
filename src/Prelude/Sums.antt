-- ===== src/Prelude/Sums.antt =====
-- Sums of a function over the numbers below a bound.
use verona_bc.Prelude.{ℕ, zero, suc, ◌+◌, ◌*◌, ◌≤◌, ◌<◌, ◌≡◌, ◌≢◌, refl, arith}
use native.Mathlib.Decide.{dec_lt}

unfoldable pub total : ℕ → (ℕ → ℕ) → ℕ
total zero f = 0
total (suc n) f = total n f + f n

pub total_same : (n : ℕ) (f g : ℕ → ℕ) → ((i : ℕ) → f i ≡ g i) → total n f ≡ total n g
unfolding total
total_same zero f g h = refl
total_same (suc n) f g h = omega (arith, total_same n f g h, h n)

total_past : (n k : ℕ) (f g : ℕ → ℕ) → n ≤ k → ((i : ℕ) → i ≢ k → f i ≡ g i) → total n f ≡ total n g
unfolding total
total_past zero k f g l h = refl
total_past (suc n) k f g l h =
    omega (arith, total_past n k f g (omega arith) h, h n (λ e. omega arith))

-- Two functions that differ at `k` only.
pub total_change :
    (n k : ℕ) (f g : ℕ → ℕ)
    → k < n
    → ((i : ℕ) → i ≢ k → f i ≡ g i)
    → total n g + f k ≡ total n f + g k
unfolding total
total_change zero k f g l h = absurd (omega arith)
total_change (suc n) k f g l h = elim (dec_lt k n) [
  | yes below ↦ omega (arith, total_change n k f g below h, h n (λ e. omega arith))
  | no last ↦
      let e : n ≡ k = omega arith in
      let same = total_past n k f g (omega arith) h in rw e (omega (arith, rw e at same))
]

pub le-total : (n k : ℕ) (f : ℕ → ℕ) → k < n → f k ≤ total n f
unfolding total
le-total zero k f l = absurd (omega arith)
le-total (suc n) k f l = elim (dec_lt k n) [
  | yes below ↦ omega (arith, le-total n k f below)
  | no last ↦ let e : k ≡ n = omega arith in rw e (omega arith)
]

pub total-le : (n : ℕ) (f : ℕ → ℕ) → ((i : ℕ) → f i ≤ 1) → total n f ≤ n
unfolding total
total-le zero f h = omega arith
total-le (suc n) f h = omega (arith, total-le n f h, h n)

pub total_mono : (n : ℕ) (f g : ℕ → ℕ) → ((i : ℕ) → i < n → f i ≤ g i) → total n f ≤ total n g
unfolding total
total_mono zero f g h = omega arith
total_mono (suc n) f g h =
    omega (arith, total_mono n f g (λ i l. h i (omega arith)), h n (omega arith))

-- A sum that is no larger than that of a smaller function has its terms.
pub total_rigid :
    (n : ℕ) (f g : ℕ → ℕ)
    → ((i : ℕ) → i < n → f i ≤ g i)
    → total n g ≤ total n f
    → (i : ℕ) → i < n
    → g i ≤ f i
unfolding total
total_rigid zero f g h e i l = absurd (omega arith)
total_rigid (suc n) f g h e i l =
    let below = total_mono n f g (λ j m. h j (omega arith)) in
    let last = h n (omega arith) in
    elim (dec_lt i n) [
      | yes m ↦ total_rigid n f g (λ j m'. h j (omega arith)) (omega arith) i m
      | no m ↦ let same : i ≡ n = omega arith in rw same (omega arith)
    ]

pub total-le_bound : (n b : ℕ) (f : ℕ → ℕ) → ((i : ℕ) → i < n → f i ≤ b) → total n f ≤ n * b
unfolding total
total-le_bound zero b f h = omega arith
total-le_bound (suc n) b f h =
    let rest = total-le_bound n b f (λ i l. h i (omega arith)) in
    let step : suc n * b ≡ n * b + b = grind arith in omega (arith, h n (omega arith))
