-- ===== src/Vbc/Leb/RoundTrip.antt =====
-- What the emitter writes by `uleb`, the loader reads back.
use Prim.Native.Nat.{bit_and, bit_or}
use mathlib.Core.Path.{subst}
use native.Mathlib.Nat.{le_refl}
use native.Mathlib.Numerals.{towards_suc, add-one}
use native.Mathlib.Decide.{dec_lt}
use verona_bc.Prelude.{
  ℕ, zero, suc, ◌+◌, ◌*◌, ◌/◌, ◌%◌, ◌^◌, ◌≤◌, ◌<◌, ◌≡◌, refl, ap, ◌∙◌, List, [], ◌∷◌, ◌++◌, some,
  arith, false, ◌==◌, get_elem?, length, drop, get_elem?-drop, drop-suc, lt→ltb, ap₂,
}
use verona_bc.Prelude.Bits.{bit_and_0x7f, bit_and_0x80, bit_or_shifted}
use verona_bc.Vbc.Reader.{parsed}
use verona_bc.Vbc.Leb.{put_uleb_loop, put_uleb, uleb_loop, uleb}

more_byte : (v : ℕ) → bit_or (bit_and v 0x7f) 0x80 ≡ v % 128 + 128
more_byte v = rw (bit_and_0x7f v) (bit_or_shifted 7 (v % 128) 1 (omega arith))

put_more :
    (f v : ℕ) → 127 < v → put_uleb_loop (suc f) v ≡ (v % 128 + 128) ∷ put_uleb_loop f (v / 128)
unfolding put_uleb_loop
put_more f v h = rw (lt→ltb _ _ h, more_byte v)

put_last : (f v : ℕ) → v ≤ 127 → put_uleb_loop f v ≡ v ∷ []
unfolding put_uleb_loop
put_last zero v h = ground arith
put_last (suc f) v h = ground arith

-- What a round adds to the value read so far.
round_value :
    (acc s b : ℕ)
    → acc < 2 ^ s
    → b % 128 * 2 ^ s < 2 ^ 64
    → bit_or acc ((bit_and b 0x7f * 2 ^ s) % 2 ^ 64) ≡ acc + b % 128 * 2 ^ s
round_value acc s b h l =
    let small : (b % 128 * 2 ^ s) % 2 ^ 64 ≡ b % 128 * 2 ^ s = omega arith in
    rw (bit_and_0x7f b, small) (bit_or_shifted s acc (b % 128) h)

module _ (from : List ℕ) where
  pub loop_last :
      (r s acc b pc : ℕ)
      → get_elem? from pc ≡ some b
      → acc < 2 ^ s
      → b < 128
      → b * 2 ^ s < 2 ^ 64
      → uleb_loop (suc r) s acc pc from ≡ parsed (acc + b * 2 ^ s) (pc + 1)
  unfolding uleb_loop
  loop_last r s acc b pc e h l t =
      let same : b % 128 ≡ b = omega arith in
      let value : bit_or acc ((bit_and b 0x7f * 2 ^ s) % 2 ^ 64) ≡ acc + b * 2 ^ s =
        rw same at (round_value acc s b h (rw same t)) in
      rw (e, uleb_loop) (ground (arith, bit_and_0x80 b))

  pub loop_more :
      (r s acc low pc : ℕ)
      → get_elem? from pc ≡ some (low + 128)
      → acc < 2 ^ s
      → low < 128
      → low * 2 ^ s < 2 ^ 64
      → uleb_loop (suc r) s acc pc from ≡ uleb_loop r (s + 7) (acc + low * 2 ^ s) (pc + 1) from
  unfolding uleb_loop
  loop_more r s acc low pc e h l t =
      let same : (low + 128) % 128 ≡ low = omega arith in
      let value : bit_or acc ((bit_and (low + 128) 0x7f * 2 ^ s) % 2 ^ 64) ≡ acc + low * 2 ^ s =
        rw same at (round_value acc s (low + 128) h (rw same t)) in
      let high : (bit_and (low + 128) 0x80 == 0) ≡ false =
        ground (arith, bit_and_0x80 (low + 128)) in
      rw (e, uleb_loop, high) (ap (λ t. uleb_loop r (s + 7) t (pc + 1) from) value)

-- A value that needs another byte is read in a round that is not the last.
rounds_left : (r s acc v : ℕ) → s + 7 * suc r ≡ 70 → 127 < v → acc + v * 2 ^ s < 2 ^ 64 → 0 < r
rounds_left zero s acc v e h l =
    let top : s ≡ 63 = omega arith in
    absurd (omega (arith, subst (λ t. acc + v * 2 ^ t < 2 ^ 64) top l))
rounds_left (suc r) s acc v e h l = omega arith

pow_plus_seven : (s : ℕ) → 2 ^ (s + 7) ≡ 128 * 2 ^ s
pow_plus_seven s = simp towards_suc (omega arith)

split_value : (v p : ℕ) → v * p ≡ v % 128 * p + v / 128 * (128 * p)
split_value v p = ap (λ t. t * p) whole ∙ omega arith
  where
    whole : v ≡ v % 128 + v / 128 * 128
    whole = omega arith

-- One round in front of the rounds that read the remaining digits.
round_then :
    (v r s acc pc n : ℕ) (from tl : List ℕ)
    → acc < 2 ^ s
    → acc + v * 2 ^ s < 2 ^ 64
    → drop pc from ≡ (v % 128 + 128) ∷ tl
    → let acc' = acc + v % 128 * 2 ^ s in
      uleb_loop r (s + 7) acc' (pc + 1) from ≡ parsed (acc' + v / 128 * 2 ^ (s + 7)) (pc + 1 + n)
      → uleb_loop (suc r) s acc pc from ≡ parsed (acc + v * 2 ^ s) (pc + suc n)
round_then v r s acc pc n from tl a t d rest =
    let split = split_value v (2 ^ s) in
    let value : acc + v % 128 * 2 ^ s + v / 128 * 2 ^ (s + 7) ≡ acc + v * 2 ^ s =
      rw (pow_plus_seven s) (omega arith) in
    loop_more from r s acc (v % 128) pc (get_elem?-drop pc from d) a (omega arith) (omega arith)
    ∙ rest
    ∙ ap₂ parsed value (omega arith)

acc_in_range :
    (v s acc : ℕ)
    → acc < 2 ^ s
    → acc + v * 2 ^ s < 2 ^ 64
    → (acc + v % 128 * 2 ^ s < 2 ^ (s + 7))
      × (acc + v % 128 * 2 ^ s + v / 128 * 2 ^ (s + 7) < 2 ^ 64)
acc_in_range v s acc a t =
    let split = split_value v (2 ^ s) in
    let low : v % 128 * 2 ^ s ≤ 127 * 2 ^ s = grind arith in
    rw (pow_plus_seven s) (omega arith, omega arith)

uleb_loop-put :
    (f v r s acc pc : ℕ) (from rest : List ℕ)
    → v ≤ f
    → 0 < r
    → s + 7 * r ≡ 70
    → acc < 2 ^ s
    → acc + v * 2 ^ s < 2 ^ 64
    → drop pc from ≡ put_uleb_loop f v ++ rest
    → uleb_loop r s acc pc from ≡ parsed (acc + v * 2 ^ s) (pc + length (put_uleb_loop f v))
uleb_loop-put f v zero s acc pc from rest h p e a t d = absurd (omega arith)
uleb_loop-put zero v (suc r) s acc pc from rest h p e a t d =
    let put : put_uleb_loop zero v ≡ v ∷ [] = put_last zero v (omega arith) in
    rw put (
      loop_last from r s acc v pc (get_elem?-drop pc from (rw put at d)) a (omega arith)
        (omega arith))
uleb_loop-put (suc f) v (suc r) s acc pc from rest h p e a t d = elim (dec_lt 127 v) [
  | yes big ↦
      let put = put_more f v big in
      let d' : drop pc from ≡ (v % 128 + 128) ∷ (put_uleb_loop f (v / 128) ++ rest) = rw put at d in
      let ih =
        uleb_loop-put f (v / 128) r (s + 7) (acc + v % 128 * 2 ^ s) (pc + 1) from rest (omega arith)
          (rounds_left r s acc v e big t) (omega arith) (acc_in_range v s acc a t).0
          (acc_in_range v s acc a t).1 (rw add-one (drop-suc pc from d')) in
      rw put (round_then v r s acc pc (length (put_uleb_loop f (v / 128))) from _ a t d' ih)
  | no small ↦
      let put : put_uleb_loop (suc f) v ≡ v ∷ [] = put_last (suc f) v (omega arith) in
      rw put (
        loop_last from r s acc v pc (get_elem?-drop pc from (rw put at d)) a (omega arith)
          (omega arith))
]

-- Wherever `b << uleb(v)` wrote its bytes, for a uint64_t `v`, the loader's `uleb` returns `v` and
-- leaves `pc` just behind them, whatever bytes follow.
pub uleb-put_uleb :
    (v pc : ℕ) (from rest : List ℕ)
    → v < 2 ^ 64
    → drop pc from ≡ put_uleb v ++ rest
    → uleb pc from ≡ parsed v (pc + length (put_uleb v))
unfolding uleb put_uleb
uleb-put_uleb v pc from rest h d =
    uleb_loop-put v v 10 0 0 pc from rest (le_refl v) (omega arith) refl (omega arith) (omega arith)
      d
    ∙ ap₂ parsed (omega arith) refl
