-- ===== src/Vbci/Location/Tags.antt =====
-- The tags of a location, and the words that are made from them.
use Prim.Native.Nat.{bit_or}
use Prim.Native.Nat.{bit_and}
use verona_bc.Prelude.{
  none, ◌-◌, inl, inr, Bool-cases, ◌/◌, ℕ, ◌+◌, ◌*◌, ◌%◌, ◌^◌, ◌<◌, ◌≡◌, true, some, refl, ap,
  arith,
}
use verona_bc.Prelude.Fallible.{◌>>=◌}
use verona_bc.Prelude.Bits.{bit_and_0x07, bit_or_shifted}
use verona_bc.Prelude.Masks.{bit_or_mark, bit_and_not_3, bit_and_not_7}
use verona_bc.Vbci.Location.{
  is_region, is_stack, is_immutable, is_scc_ptr, is_pending, pending, unpending, next_stack_level,
  stack_index, scc_ptr, scc_target, stack,
}

pub stack_level :
    (k : ℕ) → k < 2 ^ 61 → (value : ℕ) → value ≡ stack + 8 * k → stack_index value ≡ some k
unfolding stack_index
stack_level k h value e =
    let t : is_stack value ≡ true = ground (arith, bit_and_0x07 value) in
    rw t (ap some (omega arith))

-- A word that is aligned to 8 bytes is a region, its pending mark is taken off again, and an SCC pointer to
-- it has it as its target; the location of frame `k` has index `k`, and the next level is that of frame
-- `k + 1`.
pub Location-round_trips :
    (h k : ℕ)
    → h < 2 ^ 61
    → k + 1 < 2 ^ 61
    → (is_region (h * 8) ≡ true)
      × ((do v ← pending (h * 8); unpending v) ≡ some (h * 8))
      × (is_immutable (scc_ptr (h * 8)) ≡ true)
      × (scc_target (scc_ptr (h * 8)) ≡ some (h * 8))
      × (stack_index (stack + 8 * k) ≡ some k)
      × ((do v ← next_stack_level (stack + 8 * k); stack_index v) ≡ some (k + 1))
unfolding pending unpending scc_ptr scc_target next_stack_level
Location-round_trips h k lh lk =
    let p : bit_or (h * 8) 3 ≡ h * 8 + 3 = bit_or_mark 3 h 3 (omega arith) in
    let q : bit_or 5 (h * 8) ≡ 5 + h * 8 = bit_or_shifted 3 5 h (omega arith) in
    let region : is_region (h * 8) ≡ true = ground (arith, bit_and_0x07 (h * 8)) in
    let marked : is_pending (h * 8 + 3) ≡ true = ground (arith, bit_and_0x07 (h * 8 + 3)) in
    let scc : is_scc_ptr (5 + h * 8) ≡ true = ground (arith, bit_and_0x07 (5 + h * 8)) in
    let frame : is_stack (stack + 8 * k) ≡ true = ground (arith, bit_and_0x07 (1 + 8 * k)) in
    (
      region,
      rw (region, p, marked) (ap some (omega (arith, bit_and_not_3 (h * 8 + 3) (omega arith)))),
      rw q (ground (arith, bit_and_0x07 (5 + h * 8))),
      rw (q, scc) (ap some (omega (arith, bit_and_not_7 (5 + h * 8) (omega arith)))),
      stack_level k (omega arith) (stack + 8 * k) refl,
      rw frame (stack_level (k + 1) (omega arith) ((stack + 8 * k + 8) % 2 ^ 64) (omega arith)),
    )

pub scc_ptr-aligned :
    (r : ℕ)
    → r % 8 ≡ 0
    → r < 2 ^ 64
    → (is_scc_ptr (scc_ptr r) ≡ true) × (scc_target (scc_ptr r) ≡ some r)
unfolding scc_ptr scc_target
scc_ptr-aligned r al small =
    let e : r / 8 * 8 ≡ r = omega arith in
    let q0 : bit_or 5 (r / 8 * 8) ≡ 5 + r / 8 * 8 = bit_or_shifted 3 5 (r / 8) (omega arith) in
    let q : bit_or 5 r ≡ 5 + r = rw e at q0 in
    let t : is_scc_ptr (5 + r) ≡ true = ground (arith, bit_and_0x07 (5 + r)) in
    (rw q t, rw (q, t) (ap some (omega (arith, bit_and_not_7 (5 + r) (omega arith)))))

pub scc_target-aligned :
    (value t : ℕ) → value < 2 ^ 64 → scc_target value ≡ some t → (t % 8 ≡ 0) × (t < 2 ^ 64)
unfolding scc_target
scc_target-aligned value t small e = elim (Bool-cases (is_scc_ptr value)) [
  | inl tagged ↦
      let e' : some (bit_and value (2 ^ 64 - 1 - 7)) ≡ some t = rw tagged at e in
      let same : bit_and value (2 ^ 64 - 1 - 7) ≡ t = cc in
      let high = bit_and_not_7 value small in (omega arith, omega arith)
  | inr other ↦ let e' : none ≡ some t = rw other at e in cc
]

pub scc_ptr-target : (value : ℕ) → is_scc_ptr value ≡ true → (t : ℕ) × (scc_target value ≡ some t)
unfolding scc_target
scc_ptr-target value p = (bit_and value (2 ^ 64 - 1 - 7), rw p refl)
