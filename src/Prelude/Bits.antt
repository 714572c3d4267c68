-- ===== src/Prelude/Bits.antt =====
-- The bits of a machine word: what `|`, `&` and `~` do to each of them, at every width.
use Prim.Native.Nat.{min, max, digits, bitwise, bit_and-bitwise, bit_or-bitwise}
use Prim.Native.Nat.{bit_and, bit_or, bit_xor, differ, bit_xor-bitwise}
use Prim.Native.Nat.{ℕ, zero, suc, ◌+◌, ◌-◌, ◌*◌, ◌/◌, ◌%◌, ◌^◌, ◌≤◌, ◌<◌}
use mathlib.Core.Path.{◌≡◌, refl, ap}
use verona_bc.Prelude.Tests.{◌==◌, if◌then◌else◌}
use native.Mathlib.Nat.{le_refl, pow-suc, div-div-eq-div-mul}
use native.Mathlib.Omega.{arith}

-- Bit `k` of `a`, as the number 0 or 1.
abbrev pub bit_at : ℕ → ℕ → ℕ
bit_at a zero = a % 2
bit_at a (suc k) = bit_at (a / 2) k

pub bit_at-lt : (k a : ℕ) → bit_at a k < 2
bit_at-lt zero a = omega arith
bit_at-lt (suc k) a = bit_at-lt k (a / 2)

pub div-two-pow : (k a : ℕ) → a / 2 ^ suc k ≡ a / 2 / 2 ^ k
div-two-pow k a = rw (div-div-eq-div-mul a 2 (2 ^ k)) (ap (λ t. a / t) (omega (arith, pow-suc 2 k)))

-- `(a >> k) & 1` is bit `k`.
pub div-pow-mod : (k a : ℕ) → (a / 2 ^ k) % 2 ≡ bit_at a k
div-pow-mod zero a = omega arith
div-pow-mod (suc k) a = rw (div-two-pow k a) (div-pow-mod k (a / 2))

-- The digit loop of the native word operations, on any fuel that covers the first operand.
module _ (z : ℕ → ℕ) (f : ℕ → ℕ → ℕ) where
  exhausted : (fuel y : ℕ) → digits z f fuel zero y ≡ z y
  exhausted zero y = refl
  exhausted (suc fuel) y = refl

  fuel_free :
      (x y fuel fuel' : ℕ) → x ≤ fuel → x ≤ fuel' → digits z f fuel x y ≡ digits z f fuel' x y
  fuel_free zero y fuel fuel' h h' = rw (exhausted fuel y, exhausted fuel' y) refl
  fuel_free (suc x) y zero fuel' h h' = absurd (omega arith)
  fuel_free (suc x) y (suc fuel) zero h h' = absurd (omega arith)
  fuel_free (suc x) y (suc fuel) (suc fuel') h h' =
      let rest = fuel_free (suc x / 2) (y / 2) fuel fuel' (omega arith) (omega arith) in
      ap (λ t. t * 2 + f (suc x % 2) (y % 2)) rest

  low_digit :
      (x y : ℕ)
      → bitwise z f (suc x) y ≡ bitwise z f (suc x / 2) (y / 2) * 2 + f (suc x % 2) (y % 2)
  low_digit x y =
      ap (λ t. t * 2 + f (suc x % 2) (y % 2))
        (fuel_free (suc x / 2) (y / 2) x (suc x / 2) (omega arith) (le_refl _))

pub bit_and_step : (x y : ℕ) → bit_and x y ≡ bit_and (x / 2) (y / 2) * 2 + min (x % 2) (y % 2)
bit_and_step zero y = simp bit_and-bitwise (omega arith)
bit_and_step (suc x) y = simp bit_and-bitwise (low_digit (λ n. 0) min x y)

pub bit_or_step : (x y : ℕ) → bit_or x y ≡ bit_or (x / 2) (y / 2) * 2 + max (x % 2) (y % 2)
bit_or_step zero y = simp bit_or-bitwise (omega arith)
bit_or_step (suc x) y = simp bit_or-bitwise (low_digit (λ n. n) max x y)

pub bit_at-bit_or : (k a b : ℕ) → bit_at (bit_or a b) k ≡ max (bit_at a k) (bit_at b k)
bit_at-bit_or zero a b = omega (arith, bit_or_step a b)
bit_at-bit_or (suc k) a b =
    let half : bit_or a b / 2 ≡ bit_or (a / 2) (b / 2) = omega (arith, bit_or_step a b) in
    rw half (bit_at-bit_or k (a / 2) (b / 2))

pub bit_at-bit_and : (k a b : ℕ) → bit_at (bit_and a b) k ≡ min (bit_at a k) (bit_at b k)
bit_at-bit_and zero a b = omega (arith, bit_and_step a b)
bit_at-bit_and (suc k) a b =
    let half : bit_and a b / 2 ≡ bit_and (a / 2) (b / 2) = omega (arith, bit_and_step a b) in
    rw half (bit_at-bit_and k (a / 2) (b / 2))

-- `~a` on a word of `n` bits.
pub bit_at-complement : (n k a : ℕ) → k < n → a < 2 ^ n → bit_at (2 ^ n - 1 - a) k ≡ 1 - bit_at a k
bit_at-complement zero k a h l = absurd (omega arith)
bit_at-complement (suc n) zero a h l = omega (arith, pow-suc 2 n)
bit_at-complement (suc n) (suc k) a h l =
    let half : (2 ^ suc n - 1 - a) / 2 ≡ 2 ^ n - 1 - a / 2 = omega (arith, pow-suc 2 n) in
    rw half (bit_at-complement n k (a / 2) (omega arith) (omega (arith, pow-suc 2 n)))

pub bit_at-zero : (k : ℕ) → bit_at 0 k ≡ 0
bit_at-zero zero = refl
bit_at-zero (suc k) = bit_at-zero k

-- `uint64_t(1) << i` has bit `i` alone.
pub bit_at-pow : (i k : ℕ) → bit_at (2 ^ i) k ≡ (if i == k then 1 else 0)
bit_at-pow zero zero = refl
bit_at-pow zero (suc k) = ground (arith, bit_at-zero k)
bit_at-pow (suc i) zero = grind (arith, pow-suc 2 i)
bit_at-pow (suc i) (suc k) =
    let half : 2 ^ suc i / 2 ≡ 2 ^ i = omega (arith, pow-suc 2 i) in
    rw half (ground (arith, bit_at-pow i k))

-- A word of `n` bits is determined by them.
pub bit_at_ext :
    (n a b : ℕ) → a < 2 ^ n → b < 2 ^ n → ((k : ℕ) → k < n → bit_at a k ≡ bit_at b k) → a ≡ b
bit_at_ext zero a b ha hb h = omega arith
bit_at_ext (suc n) a b ha hb h = omega (
  arith,
  h 0 (omega arith),
  bit_at_ext n (a / 2) (b / 2) (omega (arith, pow-suc 2 n)) (omega (arith, pow-suc 2 n))
      (λ k l. h (suc k) (omega arith)),
)

pub bit_or-lt : (n a b : ℕ) → a < 2 ^ n → b < 2 ^ n → bit_or a b < 2 ^ n
bit_or-lt zero a b ha hb =
    let ea : a ≡ 0 = omega arith in let eb : b ≡ 0 = omega arith in rw (ea, eb) (omega arith)
bit_or-lt (suc n) a b ha hb = omega (
  arith,
  bit_or_step a b,
  pow-suc 2 n,
  bit_or-lt n (a / 2) (b / 2) (omega (arith, pow-suc 2 n)) (omega (arith, pow-suc 2 n)),
)

pub bit_and-le : (n a b : ℕ) → a < 2 ^ n → bit_and a b ≤ a
bit_and-le zero a b ha = let ea : a ≡ 0 = omega arith in rw (ea, bit_and-bitwise 0 b) (omega arith)
bit_and-le (suc n) a b ha =
    omega (arith, bit_and_step a b, bit_and-le n (a / 2) (b / 2) (omega (arith, pow-suc 2 n)))

pub bit_xor_step : (a b : ℕ) → bit_xor a b ≡ bit_xor (a / 2) (b / 2) * 2 + differ (a % 2) (b % 2)
bit_xor_step zero b = simp bit_xor-bitwise (omega arith)
bit_xor_step (suc a) b = simp bit_xor-bitwise (low_digit (λ y. y) differ a b)

bit_and-zero_fuel : (n a : ℕ) → a ≤ n → bit_and a 0 ≡ 0
bit_and-zero_fuel zero a h = let e : a ≡ 0 = omega arith in rw (e, bit_and-bitwise 0 0)
bit_and-zero_fuel (suc n) zero h = bit_and-bitwise 0 0
bit_and-zero_fuel (suc n) (suc a) h =
    omega (arith, bit_and_step (suc a) 0, bit_and-zero_fuel n (suc a / 2) (omega arith))

pub bit_and-zero : (a : ℕ) → bit_and a 0 ≡ 0
bit_and-zero a = bit_and-zero_fuel a a (le_refl a)

pub bit_and_one : (a : ℕ) → bit_and a 1 ≡ a % 2
bit_and_one a = omega (arith, bit_and_step a 1, bit_and-zero (a / 2))

-- A mask of one more low bit.
bit_and_mask_step :
    (m k a : ℕ)
    → bit_and (a / 2) m ≡ a / 2 % k
    → a % (2 * k) ≡ a / 2 % k * 2 + a % 2
    → bit_and a (2 * m + 1) ≡ a % (2 * k)
bit_and_mask_step m k a e r =
    let half : (2 * m + 1) / 2 ≡ m = omega arith in
    let low : (2 * m + 1) % 2 ≡ 1 = omega arith in
    rw (bit_and_step a (2 * m + 1), half, low, e) (omega arith)

bit_and_0x03 : (a : ℕ) → bit_and a 0x03 ≡ a % 4
bit_and_0x03 a = bit_and_mask_step 1 2 a (bit_and_one (a / 2)) (omega arith)

pub bit_and_0x07 : (a : ℕ) → bit_and a 0x07 ≡ a % 8
bit_and_0x07 a = bit_and_mask_step 3 4 a (bit_and_0x03 (a / 2)) (omega arith)

bit_and_0x0f : (a : ℕ) → bit_and a 0x0f ≡ a % 16
bit_and_0x0f a = bit_and_mask_step 7 8 a (bit_and_0x07 (a / 2)) (omega arith)

bit_and_0x1f : (a : ℕ) → bit_and a 0x1f ≡ a % 32
bit_and_0x1f a = bit_and_mask_step 15 16 a (bit_and_0x0f (a / 2)) (omega arith)

pub bit_and_0x3f : (a : ℕ) → bit_and a 0x3f ≡ a % 64
bit_and_0x3f a = bit_and_mask_step 31 32 a (bit_and_0x1f (a / 2)) (omega arith)

pub bit_and_0x7f : (a : ℕ) → bit_and a 0x7f ≡ a % 128
bit_and_0x7f a = bit_and_mask_step 63 64 a (bit_and_0x3f (a / 2)) (omega arith)

-- A mask without the lowest bit.
pub bit_and-double : (m a : ℕ) → bit_and a (2 * m) ≡ 2 * bit_and (a / 2) m
bit_and-double m a =
    let half : 2 * m / 2 ≡ m = omega arith in
    let low : 2 * m % 2 ≡ 0 = omega arith in rw (bit_and_step a (2 * m), half, low) (omega arith)

bit_and_double_step :
    (m k a : ℕ)
    → bit_and (a / 2) m ≡ m * (a / 2 / k % 2)
    → a / 2 / k ≡ a / (2 * k)
    → bit_and a (2 * m) ≡ 2 * m * (a / (2 * k) % 2)
bit_and_double_step m k a e q = rw (bit_and-double m a, e, q) (omega arith)

bit_and_0x02 : (a : ℕ) → bit_and a 0x02 ≡ 2 * (a / 2 % 2)
bit_and_0x02 a = rw (bit_and-double 1 a, bit_and_one (a / 2)) refl

bit_and_0x04 : (a : ℕ) → bit_and a 0x04 ≡ 4 * (a / 4 % 2)
bit_and_0x04 a = bit_and_double_step 2 2 a (bit_and_0x02 (a / 2)) (omega arith)

bit_and_0x08 : (a : ℕ) → bit_and a 0x08 ≡ 8 * (a / 8 % 2)
bit_and_0x08 a = bit_and_double_step 4 4 a (bit_and_0x04 (a / 2)) (omega arith)

bit_and_0x10 : (a : ℕ) → bit_and a 0x10 ≡ 16 * (a / 16 % 2)
bit_and_0x10 a = bit_and_double_step 8 8 a (bit_and_0x08 (a / 2)) (omega arith)

bit_and_0x20 : (a : ℕ) → bit_and a 0x20 ≡ 32 * (a / 32 % 2)
bit_and_0x20 a = bit_and_double_step 16 16 a (bit_and_0x10 (a / 2)) (omega arith)

bit_and_0x40 : (a : ℕ) → bit_and a 0x40 ≡ 64 * (a / 64 % 2)
bit_and_0x40 a = bit_and_double_step 32 32 a (bit_and_0x20 (a / 2)) (omega arith)

pub bit_and_0x80 : (a : ℕ) → bit_and a 0x80 ≡ 128 * (a / 128 % 2)
bit_and_0x80 a = bit_and_double_step 64 64 a (bit_and_0x40 (a / 2)) (omega arith)

-- `lo | (hi << k)` is a sum where `lo` has `k` bits.
pub bit_or_shifted : (k lo hi : ℕ) → lo < 2 ^ k → bit_or lo (hi * 2 ^ k) ≡ lo + hi * 2 ^ k
bit_or_shifted zero lo hi h =
    let e : lo ≡ 0 = omega arith in rw (e, bit_or-bitwise 0 (hi * 1)) (omega arith)
bit_or_shifted (suc k) lo hi h =
    let double : hi * 2 ^ suc k ≡ 2 * (hi * 2 ^ k) =
      omega (arith, ap (λ t. hi * t) (pow-suc 2 k)) in
    let half : hi * 2 ^ suc k / 2 ≡ hi * 2 ^ k = omega arith in
    rw (bit_or_step lo (hi * 2 ^ suc k), half)
      (omega (arith, bit_or_shifted k (lo / 2) hi (omega (arith, pow-suc 2 k))))

differ-zero : (x : ℕ) → differ x 0 ≡ x
differ-zero zero = refl
differ-zero (suc x) = refl

differ_one : (x : ℕ) → x < 2 → differ x 1 ≡ 1 - x
differ_one zero h = refl
differ_one (suc x) h = omega (arith, differ-zero x)

-- `a ^ ~0` on a word of `n` bits is `~a`.
pub bit_xor_ones : (n a : ℕ) → a < 2 ^ n → bit_xor a (2 ^ n - 1) ≡ 2 ^ n - 1 - a
bit_xor_ones zero a h = let e : a ≡ 0 = omega arith in rw (e, bit_xor-bitwise 0 0) refl
bit_xor_ones (suc n) a h =
    let half : (2 ^ suc n - 1) / 2 ≡ 2 ^ n - 1 = omega (arith, pow-suc 2 n) in
    let low : (2 ^ suc n - 1) % 2 ≡ 1 = omega (arith, pow-suc 2 n) in
    rw (bit_xor_step a (2 ^ suc n - 1), half, low)
      (omega (
        arith,
        differ_one (a % 2) (omega arith),
        bit_xor_ones n (a / 2) (omega (arith, pow-suc 2 n)),
        pow-suc 2 n,
      ))

bit_xor-zero_fuel : (n a : ℕ) → a ≤ n → bit_xor a 0 ≡ a
bit_xor-zero_fuel zero a h = let e : a ≡ 0 = omega arith in rw (e, bit_xor-bitwise 0 0)
bit_xor-zero_fuel (suc n) zero h = bit_xor-bitwise 0 0
bit_xor-zero_fuel (suc n) (suc a) h = omega (
  arith,
  bit_xor_step (suc a) 0,
  differ-zero (suc a % 2),
  bit_xor-zero_fuel n (suc a / 2) (omega arith),
)

pub bit_xor-zero : (a : ℕ) → bit_xor a 0 ≡ a
bit_xor-zero a = bit_xor-zero_fuel a a (le_refl a)
