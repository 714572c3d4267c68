-- ===== src/Liveness/Flow/Exact.antt =====
-- The dataflow against the paths of the graph: it ends with the registers that are live into each label, or
-- with an error that the labels call for.
use mathlib.Core.Path.{subst}
use verona_bc.Prelude.{
  ℕ, ◌≤◌, ◌<◌, ◌≡◌, ◌≢◌, ◌↔◌, refl, true, ◌||◌, some, List, [], arith, length, inl, inr,
}
use verona_bc.Bitset.{Bitset, make}
use verona_bc.Bitset.Laws.{capacity, IsWords}
use verona_bc.Bitset.Extensional.{capacity-make}
use verona_bc.Liveness.Flow.{
  FlowLabel, redefines_register, requires_dead, Flowed, flowed, failed, out_of_fuel, flow,
}
use verona_bc.Liveness.Flow.Kept.{needs, holds}
use verona_bc.Liveness.Flow.Merge.{Fits}
use verona_bc.Liveness.Flow.Live.{LiveAt, read_here, read_later, IsGraph, Inv}
use verona_bc.Liveness.Flow.Loop.{Ended, enough, flow-Ended}

-- What the passes before it leave: sets of one size, and the edges both ways.
pub record IsReady (n p : ℕ) (vars : Bitset) (xs : List FlowLabel) : Type 0 where
  pub sized : capacity vars ≡ capacity (make n)
  pub words : IsWords vars
  pub fits : Fits n xs
  pub graph : IsGraph p xs

module _ (n p fuel : ℕ) (vars : Bitset) (xs : List FlowLabel) (ready : IsReady n p vars xs)
    (fueled : enough n p xs ≤ fuel) where
  ended : Ended n vars xs (flow fuel n vars xs)
  ended = flow-Ended n p fuel vars xs ready.sized ready.words ready.fits ready.graph fueled

  -- On labels whose sets have the size of the function's registers, and whose edges stand on both sides, the
  -- worklist empties or an error stops it within `enough` rounds, and no access on the way is out of range.
  pub flow_returns : (o : Flowed) × (flow fuel n vars xs ≡ some o) × (o ≢ out_of_fuel)
  flow_returns = elim ended [
    | inl (ys, e, inv) ↦ (flowed ys, e, λ c. cc)
    | inr (inl (blamed, ys, e, why)) ↦ (failed (redefines_register blamed) ys, e, λ c. cc)
    | inr (inr (blamed, ys, e, why)) ↦ (failed (requires_dead blamed) ys, e, λ c. cc)
  ]

  pub flowed-Inv : (ys : List FlowLabel) → flow fuel n vars xs ≡ some (flowed ys) → Inv n xs ys []
  flowed-Inv ys e = elim ended [
    | inl (zs, e', inv) ↦ let same : zs ≡ ys = cc in subst (λ l. Inv n xs l []) same inv
    | inr (inl (blamed, zs, e', why)) ↦ absurd (cc)
    | inr (inr (blamed, zs, e', why)) ↦ absurd (cc)
  ]

  full :
      (ys : List FlowLabel) (r i : ℕ)
      → Inv n xs ys []
      → r < capacity (make n)
      → i < length xs
      → LiveAt xs r i
      → needs ys i r ≡ true
  full ys r i inv k h (read_here e) = inv.start_in i r k e
  full ys r i inv k h (read_later {s} e idle later) =
      let need = full ys r s inv k (ready.graph.succ_in i s h e) later in
      ground (arith, inv.settled i s r h k refl e need)

  -- When the worklist has emptied, `in` of each label holds exactly the registers that are read in the label,
  -- or in a label behind it on a path whose labels do not hold them in the `out` that the statements gave. `out`
  -- of each label holds what the statements gave, and beyond that only registers that are in the label's `in`.
  pub flow-live :
      (ys : List FlowLabel) (i r : ℕ)
      → flow fuel n vars xs ≡ some (flowed ys)
      → i < length xs
      → r < n
      → ((needs ys i r ≡ true) ↔ LiveAt xs r i)
        × (holds xs i r ≡ true → holds ys i r ≡ true)
        × (holds ys i r ≡ true → (holds xs i r || needs ys i r) ≡ true)
  flow-live ys i r e h k =
      let inv = flowed-Inv ys e in
      let k' : r < capacity (make n) = omega (arith, capacity-make n) in
      ((inv.sound i r k', full ys r i inv k' h), inv.start_out i r k', inv.out_comes i r k')
