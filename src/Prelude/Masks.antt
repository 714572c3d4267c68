-- ===== src/Prelude/Masks.antt =====
-- The masks of a machine word: a mark above the low bits, the low bits, and what is above them.
use Prim.Native.Nat.{bit_and, bit_or, bit_or-bitwise}
use Prim.Native.Nat.{ℕ, zero, suc, ◌+◌, ◌-◌, ◌*◌, ◌/◌, ◌%◌, ◌^◌, ◌≤◌, ◌<◌}
use mathlib.Core.Path.{◌≡◌, ap, ◌∙◌}
use native.Mathlib.Nat.{le_refl, pow-suc}
use native.Mathlib.Omega.{arith}
use verona_bc.Prelude.Bits.{bit_or_step, bit_and_step, bit_and-zero, bit_and-double}

bit_or-zero_fuel : (n a : ℕ) → a ≤ n → bit_or a 0 ≡ a
bit_or-zero_fuel n zero h = omega (arith, bit_or-bitwise 0 0)
bit_or-zero_fuel zero (suc a) h = absurd (omega arith)
bit_or-zero_fuel (suc n) (suc a) h =
    omega (arith, bit_or_step (suc a) 0, bit_or-zero_fuel n (suc a / 2) (omega arith))

-- A mark above the low `k` bits is added to them.
pub bit_or_mark : (k h x : ℕ) → x < 2 ^ k → bit_or (h * 2 ^ k) x ≡ h * 2 ^ k + x
bit_or_mark zero h x l =
    let z : x ≡ 0 = omega arith in
    rw z (omega (arith, bit_or-zero_fuel (h * 1) (h * 1) (le_refl _)))
bit_or_mark (suc k) h x l =
    let double : h * 2 ^ suc k ≡ 2 * (h * 2 ^ k) = omega (arith, ap (λ t. h * t) (pow-suc 2 k)) in
    let half : h * 2 ^ suc k / 2 ≡ h * 2 ^ k = omega arith in
    rw (bit_or_step (h * 2 ^ suc k) x, half)
      (omega (arith, bit_or_mark k h (x / 2) (omega (arith, pow-suc 2 k))))

-- All bits of a word of `n` bits.
pub bit_and_all : (n a : ℕ) → a < 2 ^ n → bit_and a (2 ^ n - 1) ≡ a
bit_and_all zero a h = omega (arith, bit_and-zero a)
bit_and_all (suc n) a h =
    let half : (2 ^ suc n - 1) / 2 ≡ 2 ^ n - 1 = omega (arith, pow-suc 2 n) in
    let low : (2 ^ suc n - 1) % 2 ≡ 1 = omega (arith, pow-suc 2 n) in
    let rest = bit_and_all n (a / 2) (omega (arith, pow-suc 2 n)) in
    rw (bit_and_step a (2 ^ suc n - 1), half, low, rest) (omega arith)

-- `a & ~3` and `a & ~7` on 64 bits.
pub bit_and_not_3 : (a : ℕ) → a < 2 ^ 64 → bit_and a (2 ^ 64 - 1 - 3) ≡ a / 4 * 4
bit_and_not_3 a h =
    bit_and-double (2 * (2 ^ 62 - 1)) a
    ∙ (ap (λ t. 2 * t) (bit_and-double (2 ^ 62 - 1) (a / 2))
        ∙ omega (arith, bit_and_all 62 (a / 2 / 2) (omega arith)))

pub bit_and_not_7 : (a : ℕ) → a < 2 ^ 64 → bit_and a (2 ^ 64 - 1 - 7) ≡ a / 8 * 8
bit_and_not_7 a h =
    bit_and-double (2 * (2 * (2 ^ 61 - 1))) a
    ∙ (ap (λ t. 2 * t) (bit_and-double (2 * (2 ^ 61 - 1)) (a / 2))
        ∙ (ap (λ t. 2 * (2 * t)) (bit_and-double (2 ^ 61 - 1) (a / 2 / 2))
            ∙ omega (arith, bit_and_all 61 (a / 2 / 2 / 2) (omega arith))))
