-- ===== src/Vbc/Leb/Zigzag.antt =====
-- What the emitter writes by `sleb` at 32 and 64 bits, the loader's `sleb` reads back.
use Prim.Native.Nat.{bit_and}
use native.Mathlib.Nat.{pow-suc, mod-eq_of_lt, add-mod_right}
use native.Mathlib.Decide.{dec_lt}
use verona_bc.Prelude.{
  ℕ, suc, ◌+◌, ◌-◌, ◌*◌, ◌/◌, ◌%◌, ◌^◌, ◌≤◌, ◌<◌, ◌≡◌, refl, ap, ◌∙◌, ◌⊎◌, inl, inr, List, ◌++◌,
  arith, ltb, length, drop, false, lt→ltb,
}
use verona_bc.Prelude.Bits.{bit_and_one, bit_xor_ones, bit_xor-zero}
use verona_bc.Vbc.Reader.{parsed}
use verona_bc.Vbc.Leb.{zigzag, unzigzag, put_sleb, sleb}
use verona_bc.Vbc.Leb.RoundTrip.{uleb-put_uleb}

-- Non-negative numbers go to the even ones, negative numbers to the odd ones.
pub zigzag_nonneg : (n bits : ℕ) → bits < 2 ^ n → zigzag (suc n) bits ≡ 2 * bits
unfolding zigzag
zigzag_nonneg n bits h =
    let double = pow-suc 2 n in
    let exact : suc n - 1 ≡ n = omega arith in
    let small : (bits * 2) % 2 ^ suc n ≡ bits * 2 = mod-eq_of_lt (omega arith) in
    rw (exact, small, lt→ltb bits (2 ^ n) h) (omega (arith, bit_xor-zero (bits * 2)))

pub zigzag_neg :
    (n bits : ℕ)
    → 2 ^ n ≤ bits
    → bits < 2 ^ suc n
    → zigzag (suc n) bits ≡ 2 * (2 ^ suc n - bits) - 1
unfolding zigzag
zigzag_neg n bits l h =
    let double = pow-suc 2 n in
    let exact : suc n - 1 ≡ n = omega arith in
    let wrapped : (bits * 2) % 2 ^ suc n ≡ bits * 2 - 2 ^ suc n =
      let back : bits * 2 ≡ bits * 2 - 2 ^ suc n + 2 ^ suc n = omega arith in
      ap (λ t. t % 2 ^ suc n) back
      ∙ add-mod_right (bits * 2 - 2 ^ suc n) (2 ^ suc n)
      ∙ mod-eq_of_lt (omega arith) in
    let negative : ltb bits (2 ^ n) ≡ false = ground arith in
    rw (exact, wrapped, negative)
      (bit_xor_ones (suc n) (bits * 2 - 2 ^ suc n) (omega arith) ∙ omega arith)

pub unzigzag_even : (v : ℕ) → unzigzag (2 * v) ≡ v
unfolding unzigzag
unzigzag_even v =
    let bit : bit_and (2 * v) 1 ≡ 0 = omega (arith, bit_and_one (2 * v)) in
    rw bit (omega (arith, bit_xor-zero (2 * v / 2)))

pub unzigzag_odd : (v : ℕ) → v < 2 ^ 63 → unzigzag (2 * v + 1) ≡ 2 ^ 64 - 1 - v
unfolding unzigzag
unzigzag_odd v h =
    let bit : bit_and (2 * v + 1) 1 ≡ 1 = omega (arith, bit_and_one (2 * v + 1)) in
    let half : (2 * v + 1) / 2 ≡ v = omega arith in rw (bit, half) (bit_xor_ones 64 v (omega arith))

-- A number survives: its cast back to the width is the bit pattern written.
abbrev IsKept : ℕ → ℕ → Type 0
IsKept width bits = (zigzag width bits < 2 ^ 64) × (unzigzag (zigzag width bits) % 2 ^ width ≡ bits)

IsKept-32 : (bits : ℕ) → bits < 2 ^ 32 → IsKept 32 bits
IsKept-32 bits h = elim (dec_lt bits (2 ^ 31)) [
  | yes pos ↦ rw (zigzag_nonneg 31 bits pos, unzigzag_even bits) (omega arith, omega arith)
  | no neg ↦
      let odd : zigzag 32 bits ≡ 2 * (2 ^ 32 - 1 - bits) + 1 =
        zigzag_neg 31 bits (omega arith) h ∙ omega arith in
      rw (odd, unzigzag_odd (2 ^ 32 - 1 - bits) (omega arith)) (omega arith, omega arith)
]

IsKept-64 : (bits : ℕ) → bits < 2 ^ 64 → IsKept 64 bits
IsKept-64 bits h = elim (dec_lt bits (2 ^ 63)) [
  | yes pos ↦ rw (zigzag_nonneg 63 bits pos, unzigzag_even bits) (omega arith, omega arith)
  | no neg ↦
      let odd : zigzag 64 bits ≡ 2 * (2 ^ 64 - 1 - bits) + 1 =
        zigzag_neg 63 bits (omega arith) h ∙ omega arith in
      rw (odd, unzigzag_odd (2 ^ 64 - 1 - bits) (omega arith)) (omega arith, omega arith)
]

IsKept-zigzag :
    (width bits : ℕ) → (width ≡ 32) ⊎ (width ≡ 64) → bits < 2 ^ width → IsKept width bits
IsKept-zigzag width bits (inl e) h = rw e (IsKept-32 bits (rw e at h))
IsKept-zigzag width bits (inr e) h = rw e (IsKept-64 bits (rw e at h))

-- Wherever `b << sleb(x)` wrote its bytes, for an `x` of 32 or 64 bits given by its bit pattern, the
-- loader's `sleb` succeeds just behind them, and the cast of its result to the width is `x`.
pub sleb-put_sleb :
    (width bits pc : ℕ) (from rest : List ℕ)
    → (width ≡ 32) ⊎ (width ≡ 64)
    → bits < 2 ^ width
    → drop pc from ≡ put_sleb width bits ++ rest
    → (value : ℕ) × (sleb pc from ≡ parsed value (pc + length (put_sleb width bits)))
      × (value % 2 ^ width ≡ bits)
unfolding sleb put_sleb
sleb-put_sleb width bits pc from rest w h d =
    let s = IsKept-zigzag width bits w h in
    let read = uleb-put_uleb (zigzag width bits) pc from rest s.0 d in
    (unzigzag (zigzag width bits), rw (read, sleb) refl, s.1)
