-- ===== src/Vbc/Leb/Promoted.antt =====
-- `sleb` of an `int8_t` or `int16_t`, where `bits << 1` and the mask are promoted to `int`.
use Prim.Native.Nat.{bit_and, bit_or, bit_xor}
use native.Mathlib.Decide.{dec_lt}
use verona_bc.Prelude.{
  ℕ, zero, suc, ◌+◌, ◌-◌, ◌*◌, ◌/◌, ◌%◌, ◌^◌, ◌≤◌, ◌<◌, ◌≡◌, ◌≢◌, refl, ap, sym, ◌∙◌, ◌⊎◌, inl, inr,
  List, [], ◌∷◌, ◌++◌, none, some, arith, ltb, ◌==◌, length, drop, false, lt→ltb, get_elem?,
  get_elem?-drop, Option-cases, Bool-cases,
}
use verona_bc.Prelude.Bits.{bit_xor_ones, bit_xor-zero}
use verona_bc.Vbc.Reader.{Parsed, parsed, fault}
use verona_bc.Vbc.Leb.{
  zigzag_promoted, put_uleb_int, put_sleb_promoted, put_uleb, uleb_loop, uleb, sleb, unzigzag,
}
use verona_bc.Vbc.Leb.RoundTrip.{uleb-put_uleb, loop_more, loop_last}
use verona_bc.Vbc.Leb.Zigzag.{unzigzag_even, unzigzag_odd}

abbrev pub IsNarrow : ℕ → Type 0
IsNarrow width = (width ≡ 8) ⊎ (width ≡ 16)

-- The bit pattern of a number from -64 up, or of one below.
abbrev pub IsNegative : ℕ → ℕ → Type 0
IsNegative width bits = (2 ^ (width - 1) ≤ bits) × (bits < 2 ^ width)

narrow_small : (width bits : ℕ) → IsNarrow width → bits < 2 ^ width → bits < 2 ^ 16
narrow_small width bits (inl e) h = let h' : bits < 2 ^ 8 = rw e at h in omega arith
narrow_small width bits (inr e) h = rw e at h

promoted_negative :
    (width bits : ℕ)
    → IsNarrow width
    → IsNegative width bits
    → put_sleb_promoted width bits ≡ (2 ^ 32 - 1 - 2 * bits) % 256 ∷ []
unfolding put_sleb_promoted put_uleb_int zigzag_promoted
promoted_negative width bits w n =
    let small : bits < 2 ^ 16 = narrow_small width bits w n.1 in
    let negative : ltb bits (2 ^ (width - 1)) ≡ false = ground (arith, n.0) in
    let value : bit_xor (bits * 2) (2 ^ 32 - 1) ≡ 2 ^ 32 - 1 - 2 * bits =
      bit_xor_ones 32 (bits * 2) (omega arith) ∙ omega arith in
    rw (negative, value) (ground arith)

promoted_nonneg :
    (width bits : ℕ)
    → bits < 2 ^ (width - 1)
    → bits < 2 ^ 16
    → put_sleb_promoted width bits ≡ put_uleb (2 * bits)
unfolding put_sleb_promoted put_uleb_int zigzag_promoted
promoted_nonneg width bits h l =
    let value : bit_xor (bits * 2) 0 ≡ 2 * bits = bit_xor-zero (bits * 2) ∙ omega arith in
    rw (lt→ltb bits (2 ^ (width - 1)) h, value) (ground arith)

abbrev round_result : ℕ → ℕ → ℕ → ℕ
round_result acc s b = bit_or acc ((bit_and b 0x7f * 2 ^ s) % 2 ^ 64)

-- A round of the loop that succeeds is the last, or hands over to the next.
round_cases :
    (r s acc pc v pc' : ℕ) (from : List ℕ)
    → uleb_loop (suc r) s acc pc from ≡ parsed v pc'
    → (pc' ≡ pc + 1) ⊎ ((acc' : ℕ) × (uleb_loop r (s + 7) acc' (pc + 1) from ≡ parsed v pc'))
round_cases r s acc pc v pc' from e = elim (Option-cases (get_elem? from pc)) [
  | inl n ↦ absurd (faulty n e)
  | inr (b, n) ↦ with_byte b n e
]
  where
    faulty : get_elem? from pc ≡ none → uleb_loop (suc r) s acc pc from ≡ parsed v pc' → ⊥
    faulty n e = let e' : fault ≡ parsed v pc' = unfold uleb_loop in (rw (n, uleb_loop) at e) in cc

    with_byte :
        (b : ℕ)
        → get_elem? from pc ≡ some b
        → uleb_loop (suc r) s acc pc from ≡ parsed v pc'
        → (pc' ≡ pc + 1) ⊎ ((acc' : ℕ) × (uleb_loop r (s + 7) acc' (pc + 1) from ≡ parsed v pc'))
    with_byte b n e = elim (Bool-cases (bit_and b 0x80 == 0)) [
      | inl stop ↦
          let ends : uleb_loop (suc r) s acc pc from ≡ parsed (round_result acc s b) (pc + 1) =
            unfold uleb_loop in rw (n, uleb_loop, stop) refl in
          inl (ground arith)
      | inr go ↦
          let on : uleb_loop (suc r) s acc pc from
              ≡ uleb_loop r (s + 7) (round_result acc s b) (pc + 1) from =
            unfold uleb_loop in rw (n, uleb_loop, go) refl in
          inr (round_result acc s b, sym on ∙ e)
    ]

advances :
    (r s acc pc v pc' : ℕ) (from : List ℕ)
    → uleb_loop (suc r) s acc pc from ≡ parsed v pc'
    → pc < pc'
advances zero s acc pc v pc' from e = elim (round_cases zero s acc pc v pc' from e) [
  | inl stop ↦ omega arith
  | inr (acc', next) ↦ unfold uleb_loop in ground arith
]
advances (suc r) s acc pc v pc' from e = elim (round_cases (suc r) s acc pc v pc' from e) [
  | inl stop ↦ omega arith
  | inr (acc', next) ↦ omega (arith, advances r (s + 7) acc' (pc + 1) v pc' from next)
]

sleb_from :
    (pc value pc' : ℕ) (from : List ℕ)
    → sleb pc from ≡ parsed value pc'
    → (u : ℕ) × (uleb pc from ≡ parsed u pc') × (unzigzag u ≡ value)
unfolding sleb
sleb_from pc value pc' from e = go (uleb pc from) refl e
  where
    go :
        (p : Parsed ℕ)
        → uleb pc from ≡ p
        → ◌≡◌ {A = Parsed ℕ}
            (elim p [
              | parsed v q ↦ parsed (unzigzag v) q
              | Parsed.refused ↦ Parsed.refused
              | fault ↦ fault
            ])
            (parsed value pc')
        → (u : ℕ) × (uleb pc from ≡ parsed u pc') × (unzigzag u ≡ value)
    go (parsed v q) u e = (v, u ∙ cc, cc)
    go Parsed.refused u e = cc
    go fault u e = cc

-- A continuation byte is never the last one read.
byte_goes_on :
    (pc c u : ℕ) (from tl : List ℕ)
    → 128 ≤ c
    → c < 256
    → drop pc from ≡ c ∷ tl
    → uleb pc from ≡ parsed u (pc + 1)
    → ⊥
unfolding uleb
byte_goes_on pc c u from tl l l' d e =
    let back : c - 128 + 128 ≡ c = omega arith in
    let more =
      loop_more from 9 0 0 (c - 128) pc (rw back (get_elem?-drop pc from d)) (omega arith)
        (omega arith) (omega arith) in
    omega (arith, advances 8 7 (0 + (c - 128) * 2 ^ 0) (pc + 1) u (pc + 1) from (sym more ∙ e))

read_byte :
    (pc c : ℕ) (from tl : List ℕ)
    → c < 128
    → drop pc from ≡ c ∷ tl
    → uleb pc from ≡ parsed c (pc + 1)
unfolding uleb
read_byte pc c from tl l d =
    loop_last from 9 0 0 c pc (get_elem?-drop pc from d) (omega arith) l (omega arith)
    ∙ ap (λ t. parsed t (pc + 1)) (omega arith)

byte_stops :
    (pc c u : ℕ) (from tl : List ℕ)
    → c < 128
    → drop pc from ≡ c ∷ tl
    → uleb pc from ≡ parsed u (pc + 1)
    → u ≡ c
unfolding uleb
byte_stops pc c u from tl l d e =
    let same : parsed c (pc + 1) ≡ parsed u (pc + 1) = sym (read_byte pc c from tl l d) ∙ e in cc

-- No number from -64 up has the pattern of one below.
far_below :
    (width bits k : ℕ)
    → IsNarrow width
    → k < 64
    → bits + 64 < 2 ^ width
    → (2 ^ 64 - 1 - k) % 2 ^ width ≢ bits
far_below width bits k (inl e) l h = rw e (let h' : bits + 64 < 2 ^ 8 = rw e at h in omega arith)
far_below width bits k (inr e) l h = rw e (let h' : bits + 64 < 2 ^ 16 = rw e at h in omega arith)

-- The byte written for a negative number below -64 reads back as no number with that bit pattern.
lost_byte :
    (width bits pc value : ℕ) (from rest : List ℕ)
    → IsNarrow width
    → IsNegative width bits
    → bits + 64 < 2 ^ width
    → drop pc from ≡ (2 ^ 32 - 1 - 2 * bits) % 256 ∷ rest
    → sleb pc from ≡ parsed value (pc + 1)
    → value % 2 ^ width ≡ bits
    → ⊥
lost_byte width bits pc value from rest w n h d e v =
    let small = narrow_small width bits w n.1 in
    let c = (2 ^ 32 - 1 - 2 * bits) % 256 in
    let (u, read, un) = sleb_from pc value (pc + 1) from e in
    elim (dec_lt c 128) [
      | no big ↦ byte_goes_on pc c u from rest (omega arith) (omega arith) d read
      | yes low ↦
          let odd : u ≡ 2 * (c / 2) + 1 = byte_stops pc c u from rest low d read ∙ omega arith in
          let result : value ≡ 2 ^ 64 - 1 - c / 2 =
            sym un ∙ ap unzigzag odd ∙ unzigzag_odd (c / 2) (omega arith) in
          far_below width bits (c / 2) w (omega arith) h (ap (λ t. t % 2 ^ width) (sym result) ∙ v)
    ]

-- An `int8_t` or `int16_t` below -64 is written as one byte, and the loader does not read it back:
-- `sleb` throws, ends elsewhere than behind that byte, or returns a number of another bit pattern.
pub not-sleb-put_sleb_promoted :
    (width bits pc value : ℕ) (from rest : List ℕ)
    → IsNarrow width
    → 2 ^ (width - 1) ≤ bits
    → bits + 64 < 2 ^ width
    → drop pc from ≡ put_sleb_promoted width bits ++ rest
    → (length (put_sleb_promoted width bits) ≡ 1)
      × ¬ ((sleb pc from ≡ parsed value (pc + 1)) × (value % 2 ^ width ≡ bits))
not-sleb-put_sleb_promoted width bits pc value from rest w n h d =
    let one = promoted_negative width bits w (n, omega arith) in
    (
      rw one refl,
      λ r. lost_byte width bits pc value from rest w (n, omega arith) h (rw one at d) r.0 r.1,
    )

narrow_half :
    (width bits : ℕ)
    → IsNarrow width
    → bits < 2 ^ (width - 1)
    → (bits < 2 ^ 16) × (bits % 2 ^ width ≡ bits)
narrow_half width bits (inl e) h =
    let h' : bits < 2 ^ 7 = rw e at h in (omega arith, rw e (omega arith))
narrow_half width bits (inr e) h =
    let h' : bits < 2 ^ 15 = rw e at h in (omega arith, rw e (omega arith))

near_zero :
    (width bits : ℕ)
    → IsNarrow width
    → (2 ^ width ≤ bits + 64) × (bits < 2 ^ width)
    → let c = (2 ^ 32 - 1 - 2 * bits) % 256 in
      (2 ^ (width - 1) ≤ bits) × (c < 128) × ((2 ^ 64 - 1 - c / 2) % 2 ^ width ≡ bits)
near_zero width bits (inl e) h =
    let h' : (2 ^ 8 ≤ bits + 64) × (bits < 2 ^ 8) = rw e at h in
    rw e (omega arith, omega arith, omega arith)
near_zero width bits (inr e) h =
    let h' : (2 ^ 16 ≤ bits + 64) × (bits < 2 ^ 16) = rw e at h in
    rw e (omega arith, omega arith, omega arith)

sleb_of :
    (pc u pc' : ℕ) (from : List ℕ)
    → uleb pc from ≡ parsed u pc'
    → sleb pc from ≡ parsed (unzigzag u) pc'
unfolding sleb
sleb_of pc u pc' from e = rw (e, sleb) refl

-- An `int8_t` or `int16_t` from -64 up survives the round trip.
pub sleb-put_sleb_promoted :
    (width bits pc : ℕ) (from rest : List ℕ)
    → IsNarrow width
    → (bits < 2 ^ (width - 1)) ⊎ ((2 ^ width ≤ bits + 64) × (bits < 2 ^ width))
    → drop pc from ≡ put_sleb_promoted width bits ++ rest
    → (value : ℕ) × (sleb pc from ≡ parsed value (pc + length (put_sleb_promoted width bits)))
      × (value % 2 ^ width ≡ bits)
sleb-put_sleb_promoted width bits pc from rest w (inl pos) d =
    let fits = narrow_half width bits w pos in
    let put = promoted_nonneg width bits pos fits.0 in
    let read = uleb-put_uleb (2 * bits) pc from rest (omega (arith, fits.0)) (rw put at d) in
    (bits, rw (put, sleb_of pc (2 * bits) _ from read, unzigzag_even bits) refl, fits.1)
sleb-put_sleb_promoted width bits pc from rest w (inr near) d =
    let c = (2 ^ 32 - 1 - 2 * bits) % 256 in
    let close = near_zero width bits w near in
    let put : put_sleb_promoted width bits ≡ c ∷ [] =
      promoted_negative width bits w (close.0, near.1) in
    let read = read_byte pc c from rest close.1 (rw put at d) in
    let odd : c ≡ 2 * (c / 2) + 1 = omega (arith, narrow_small width bits w near.1) in
    let value : unzigzag c ≡ 2 ^ 64 - 1 - c / 2 =
      ap unzigzag odd ∙ unzigzag_odd (c / 2) (omega arith) in
    (2 ^ 64 - 1 - c / 2, rw (put, sleb_of pc c (pc + 1) from read, value) refl, close.2)
