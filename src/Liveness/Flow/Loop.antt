-- ===== src/Liveness/Flow/Loop.antt =====
-- The dataflow ends, and what it says when it does.
use mathlib.Core.Path.{subst}
use native.Mathlib.Decide.{ℕ_discrete}
use verona_bc.Prelude.{
  ℕ, zero, suc, ◌+◌, ◌-◌, ◌*◌, ◌≤◌, ◌<◌, ◌≡◌, ◌≢◌, refl, ltb, length-append, sym, ap, ◌∙◌, true,
  false, Option, some, List, [], ◌∷◌, arith, length, inl, inr, ◌⊎◌,
}
use verona_bc.Prelude.Sums.{total, total_same, total_change, total-le_bound}
use verona_bc.Bitset.{Bitset, make}
use verona_bc.Bitset.Laws.{has, capacity, IsWords}
use verona_bc.Bitset.Extensional.{capacity-make}
use verona_bc.Bitset.Counting.{count, count-le}
use verona_bc.Liveness.Flow.{
  FlowLabel, redefines_register, requires_dead, Flowed, flowed, failed, run, all_labels, flow,
}
use verona_bc.Liveness.Flow.Kept.{at, kills, is_in}
use verona_bc.Liveness.Flow.Merge.{Redefines, Fits}
use verona_bc.Liveness.Flow.Dead.{Clashes}
use verona_bc.Liveness.Flow.Visit.{Went, visit_in}
use verona_bc.Liveness.Flow.Live.{LiveAt, read_here, DefinedAt, defined_here, IsGraph, Inv}
use verona_bc.Liveness.Flow.Next.{Inv-next, is_in-append}

-- What each label can still gain.
missing : ℕ → List FlowLabel → ℕ → ℕ
missing n xs i = capacity (make n) - count (at xs i).state.live_in

work : ℕ → ℕ → List FlowLabel → List ℕ → ℕ
unfolding missing
work n p xs q = length q + (p + 1) * total (length xs) (missing n xs)

-- A label kills a register that is live into one of its successors.
abbrev pub KillsLive : ℕ → List FlowLabel → Type 0
KillsLive n xs =
    (id s r : ℕ) × (id < length xs)
    × (r < n)
    × (is_in s (at xs id).succ ≡ true)
    × (kills xs id r ≡ true)
    × LiveAt xs r s

-- A register that is no variable is defined in or behind a label, and in or behind one of its successors.
abbrev pub DefinesTwice : ℕ → Bitset → List FlowLabel → Type 0
DefinesTwice n vars xs =
    (id s r : ℕ) × (id < length xs)
    × (r < n)
    × (is_in s (at xs id).succ ≡ true)
    × (has vars r ≡ false)
    × DefinedAt xs r id
    × DefinedAt xs r s

mul_mono : (k a b : ℕ) → a ≤ b → k * a ≤ k * b
mul_mono k a b h = let d = b - a in let e : b ≡ a + d = omega arith in rw e (grind arith)

mul_drop : (p a b : ℕ) → a < b → p * a + p ≤ p * b
mul_drop p a b h = let k = b - a - 1 in let e : b ≡ a + 1 + k = omega arith in rw e (grind arith)

module _ (n p : ℕ) (xs ys zs : List FlowLabel) (id : ℕ) (q q' : List ℕ) (graph : IsGraph p xs)
    (inv : Inv n xs ys (id ∷ q)) (w : Went n ys zs id q q') where
  other_missing : (i : ℕ) → i ≢ id → missing n ys i ≡ missing n zs i
  unfolding missing
  other_missing i ne = ap (λ b. capacity (make n) - count b) (sym (w.other_in i (λ e. ne (sym e))))

  same_missing :
      (at zs id).state.live_in ≡ (at ys id).state.live_in → missing n ys id ≡ missing n zs id
  unfolding missing
  same_missing e = ap (λ b. capacity (make n) - count b) (sym e)

  less_missing :
      count (at ys id).state.live_in < count (at zs id).state.live_in
      → missing n zs id < missing n ys id
  unfolding missing
  less_missing l =
      let inside : id < length zs = omega (arith, inv.queued id (ground arith), w.size, inv.size) in
      let f = w.fits id inside in omega (arith, count-le (at zs id).state.live_in, f.live_in)

  less_total :
      count (at ys id).state.live_in < count (at zs id).state.live_in
      → total (length zs) (missing n zs) < total (length ys) (missing n ys)
  less_total l =
      let inside : id < length ys = omega (arith, inv.queued id (ground arith), inv.size) in
      let change = total_change (length ys) id (missing n ys) (missing n zs) inside other_missing in
      let same = ap (λ k. total k (missing n zs)) w.size in omega (arith, less_missing l)

  same_total :
      (at zs id).state.live_in ≡ (at ys id).state.live_in
      → total (length zs) (missing n zs) ≡ total (length ys) (missing n ys)
  same_total e =
      ap (λ k. total k (missing n zs)) w.size
      ∙ sym (
          total_same (length ys) (missing n ys) (missing n zs) (λ i. elim (ℕ_discrete i id) [
            | yes here ↦ rw here (same_missing e)
            | no ne ↦ other_missing i ne
          ]))

  -- A round takes a label from the queue, and queues the label's predecessors only if its set grows.
  work_falls : work n p zs q' < work n p ys (id ∷ q)
  unfolding work
  work_falls = elim w.queue [
    | inl (same, e) ↦ rw (e, same_total same) (omega arith)
    | inr (e, l) ↦
        let less = less_total l in
        let drop =
          mul_drop (p + 1) (total (length zs) (missing n zs)) (total (length ys) (missing n ys))
            less in
        let inside : id < length xs = inv.queued id (ground arith) in
        let few = graph.pred_size id inside in
        let size : length q' ≡ length q + length (at ys id).pred =
          ap length e ∙ length-append q (at ys id).pred in
        omega (arith, ap length (inv.pred id))
  ]

work_pos : (n p : ℕ) (xs : List FlowLabel) (id : ℕ) (q : List ℕ) → 0 < work n p xs (id ∷ q)
unfolding work
work_pos n p xs id q = omega arith

-- How the loop ends, as the labels that it began with.
abbrev pub Ended : ℕ → Bitset → List FlowLabel → Option Flowed → Type 0
Ended n vars xs o =
    ((ys : List FlowLabel) × (o ≡ some (flowed ys)) × Inv n xs ys [])
    ⊎ ((blamed : Option ℕ) × (ys : List FlowLabel) × (o
          ≡ some (failed (redefines_register blamed) ys))
        × DefinesTwice n vars xs)
    ⊎ (blamed : Option ℕ) × (ys : List FlowLabel) × (o ≡ some (failed (requires_dead blamed) ys))
      × KillsLive n xs

module _ (n p : ℕ) (vars : Bitset) (xs : List FlowLabel) (sized : capacity vars ≡ capacity (make n))
    (words : IsWords vars) (graph : IsGraph p xs) where
  clash_kills :
      (ys : List FlowLabel) (q : List ℕ) (id : ℕ)
      → Inv n xs ys (id ∷ q)
      → Clashes n ys id (at ys id).succ
      → KillsLive n xs
  clash_kills ys q id inv (s, r, h, i, both_true) = (
    id,
    s,
    r,
    inv.queued id (ground arith),
    h,
    sym (ap (is_in s) (inv.succ id)) ∙ i,
    ground (arith, ap (λ b. has b r) (inv.dead id)),
    inv.sound s r (omega (arith, capacity-make n)) (ground arith),
  )

  twice_defined :
      (ys : List FlowLabel) (q : List ℕ) (id : ℕ)
      → Inv n xs ys (id ∷ q)
      → Redefines n vars ys id (at ys id).succ
      → DefinesTwice n vars xs
  twice_defined ys q id inv (s, r, h, i, e) = (
    id,
    s,
    r,
    inv.queued id (ground arith),
    h,
    sym (ap (is_in s) (inv.succ id)) ∙ i,
    ground arith,
    inv.defd_sound id r h (ground arith),
    inv.defd_sound s r h (ground arith),
  )

  run_ends :
      (fuel : ℕ) (ys : List FlowLabel) (q : List ℕ)
      → Inv n xs ys q
      → work n p ys q ≤ fuel
      → Ended n vars xs (run fuel n vars ys q)
  unfolding run
  run_ends zero ys [] inv h = inl (ys, refl, inv)
  run_ends (suc fuel) ys [] inv h = inl (ys, refl, inv)
  run_ends zero ys (id ∷ q) inv h = absurd (omega (arith, work_pos n p ys id q))
  run_ends (suc fuel) ys (id ∷ q) inv h =
      let inside : id < length ys = omega (arith, inv.queued id (ground arith), inv.size) in
      let below = λ (s : ℕ) (i : is_in s (at ys id).succ ≡ true).
        subst (λ k. s < k) (sym inv.size)
          (graph.succ_in id s (inv.queued id (ground arith))
            (sym (ap (is_in s) (inv.succ id)) ∙ i)) in
      elim (visit_in n vars sized words ys id q inv.fits inside below) [
        | inl (zs, q', e, w) ↦
            rw (run, e)
              (run_ends fuel zs q' (Inv-next n p xs ys zs id q q' graph inv w)
                (omega (arith, work_falls n p xs ys zs id q q' graph inv w)))
        | inr (inl (blamed, zs, e, why)) ↦
            inr (inl (blamed, zs, rw (run, e) refl, twice_defined ys q id inv why))
        | inr (inr (blamed, zs, e, why)) ↦
            inr (inr (blamed, zs, rw (run, e) refl, clash_kills ys q id inv why))
      ]

is_in-all_labels : (n i : ℕ) → is_in i (all_labels n) ≡ ltb i n
unfolding all_labels
is_in-all_labels zero i = ground arith
is_in-all_labels (suc n) i =
    ground (arith, is_in-append i (all_labels n) (n ∷ []), is_in-all_labels n i)

length-all_labels : (n : ℕ) → length (all_labels n) ≡ n
unfolding all_labels
length-all_labels zero = refl
length-all_labels (suc n) =
    omega (arith, length-append (all_labels n) (n ∷ []), length-all_labels n)

-- Rounds that are enough for the labels `xs` of a function with `n` registers: every label once, and a
-- label's predecessors, `p` at most, whenever the label's set gains a register.
abbrev pub enough : ℕ → ℕ → List FlowLabel → ℕ
enough n p xs = length xs + (p + 1) * (length xs * capacity (make n))

Inv-start : (n : ℕ) (xs : List FlowLabel) → Fits n xs → Inv n xs xs (all_labels (length xs))
Inv-start n xs f = record {
  size = refl;
  fits = f;
  pred = λ i. refl;
  succ = λ i. refl;
  dead = λ i. refl;
  sound = λ i r k e. read_here e;
  defd_sound = λ i r k e. defined_here e;
  start_in = λ i r k e. e;
  start_out = λ i r k e. e;
  out_comes = λ i r k e. ground arith;
  settled = λ i s r h k out. absurd (ground (arith, is_in-all_labels (length xs) i));
  clear = λ i s r h k out. absurd (ground (arith, is_in-all_labels (length xs) i));
  queued = λ i e. ground (arith, is_in-all_labels (length xs) i);
}

work-le_enough :
    (n p : ℕ) (xs : List FlowLabel) → work n p xs (all_labels (length xs)) ≤ enough n p xs
unfolding work missing
work-le_enough n p xs =
    let bound =
      total-le_bound (length xs) (capacity (make n)) (missing n xs) (λ i l. omega arith) in
    let scaled =
      mul_mono (p + 1) (total (length xs) (missing n xs)) (length xs * capacity (make n)) bound in
    omega (arith, length-all_labels (length xs))

pub flow-Ended :
    (n p fuel : ℕ) (vars : Bitset) (xs : List FlowLabel)
    → capacity vars ≡ capacity (make n)
    → IsWords vars
    → Fits n xs
    → IsGraph p xs
    → enough n p xs ≤ fuel
    → Ended n vars xs (flow fuel n vars xs)
unfolding flow
flow-Ended n p fuel vars xs sized words f graph h =
    run_ends n p vars xs sized words graph fuel xs (all_labels (length xs)) (Inv-start n xs f)
      (omega (arith, work-le_enough n p xs))
