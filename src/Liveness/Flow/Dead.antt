-- ===== src/Liveness/Flow/Dead.antt =====
-- The search for a register that a successor of a label needs and the label has killed.
use native.Mathlib.Decide.{ℕ_discrete}
use verona_bc.Prelude.{
  ℕ, zero, suc, ◌+◌, ◌≤◌, ◌<◌, ◌≡◌, refl, true, false, ◌&&◌, Option, none, some, List, [], ◌∷◌,
  arith, length, get_or, Bool-cases, inl, inr, ◌⊎◌, get_elem?-eq-get_or,
}
use verona_bc.Bitset.{Bitset, make, is_nonempty}
use verona_bc.Bitset.Laws.{has, capacity, IsWords, test_in}
use verona_bc.Bitset.Algebra.{both, and_with_in}
use verona_bc.Bitset.Extensional.{capacity-make}
use verona_bc.Bitset.Counting.{nothing_common}
use verona_bc.Liveness.Flow.{FlowLabel, find_dead, check_succs, check_dead}
use verona_bc.Liveness.Flow.Kept.{at, at-elem, needs, kills, is_in}
use verona_bc.Liveness.Flow.Merge.{Fits}

abbrev pub Clashes : ℕ → List FlowLabel → ℕ → List ℕ → Type 0
Clashes n labels id ss =
    (s r : ℕ) × (r < n) × (is_in s ss ≡ true) × ((needs labels s r && kills labels id r) ≡ true)

abbrev pub IsClear : ℕ → List FlowLabel → ℕ → List ℕ → Type 0
IsClear n labels id ss =
    (s r : ℕ) → r < n → is_in s ss ≡ true → (needs labels s r && kills labels id r) ≡ false

module _ (n : ℕ) (labels : List FlowLabel) (fits : Fits n labels) (id : ℕ)
    (inside : id < length labels) where
  find_dead_in :
      (count r s : ℕ)
      → s < length labels
      → r + count ≡ n
      → (find_dead count r (at labels id).state (at labels s).state ≡ some none)
          × ((i : ℕ) → r ≤ i → i < n → (needs labels s i && kills labels id i) ≡ false)
        ⊎ (blamed : Option ℕ) × (i : ℕ) × (find_dead count r
              (at labels id).state
              (at labels s).state
            ≡ some (some blamed))
          × (i < n)
          × ((needs labels s i && kills labels id i) ≡ true)
  unfolding find_dead
  find_dead_in zero r s hs e = inl (refl, λ i a b. absurd (omega arith))
  find_dead_in (suc count) r s hs e =
      let l = fits id inside in
      let succ = fits s hs in
      let size = capacity-make n in
      let t1 = test_in (at labels s).state.live_in r (omega (arith, succ.live_in)) in
      let t2 = test_in (at labels id).state.dead r (omega (arith, l.dead)) in
      elim (Bool-cases (needs labels s r && kills labels id r)) [
        | inl both_true ↦ inr (
          get_or (at labels s).state.first_use r none,
          r,
          rw
              (
                t1,
                t2,
                both_true,
                get_elem?-eq-get_or (at labels s).state.first_use r none
                    (omega (arith, succ.first_use)),
              )
              refl,
          omega arith,
          both_true,
        )
        | inr clear ↦ elim (find_dead_in count (suc r) s hs (omega arith)) [
          | inr (blamed, i, found, h, t) ↦ inr (blamed, i, rw (t1, t2, clear) found, h, t)
          | inl (found, rest) ↦ inl (
            rw (t1, t2, clear) found,
            λ i a b. elim (ℕ_discrete i r) [
              | yes here ↦ rw here clear
              | no there ↦ rest i (omega arith) b
            ],
          )
        ]
      ]

  check_succs_in :
      (ss : List ℕ)
      → ((s : ℕ) → is_in s ss ≡ true → s < length labels)
      → (check_succs n labels (at labels id).state ss ≡ some none) × IsClear n labels id ss
        ⊎ (blamed : Option ℕ) × (check_succs n labels (at labels id).state ss ≡ some (some blamed))
          × Clashes n labels id ss
  unfolding check_succs
  check_succs_in [] hs = inl (refl, λ s r h i. absurd (cc))
  check_succs_in (s ∷ ss) hs =
      let below = hs s (ground arith) in
      elim (find_dead_in n 0 s below (omega arith)) [
        | inr (blamed, r, found, h, t) ↦
            inr (blamed, rw (at-elem labels s below, found) refl, (s, r, h, ground arith, t))
        | inl (found, none_here) ↦ elim (check_succs_in ss (λ t i. hs t (ground arith))) [
          | inr (blamed, e, (s', r, h, i, t)) ↦
              inr (blamed, rw (at-elem labels s below, found) e, (s', r, h, ground arith, t))
          | inl (e, rest) ↦ inl (
            rw (at-elem labels s below, found) e,
            λ s' r h i. elim (ℕ_discrete s' s) [
              | yes here ↦ rw here (none_here r (omega arith) h)
              | no there ↦ rest s' r h (ground arith)
            ],
          )
        ]
      ]

  -- The check after the loop refuses the label exactly if it has killed what a successor needs.
  pub check_dead_in :
      (out : Bitset) (ss : List ℕ)
      → ((s : ℕ) → is_in s ss ≡ true → s < length labels)
      → capacity out ≡ capacity (make n)
      → IsWords out
      → ((s r : ℕ)
          → r < capacity (make n)
          → is_in s ss ≡ true
          → needs labels s r ≡ true
          → has out r ≡ true)
      → (check_dead n labels (at labels id).state out ss ≡ some none) × IsClear n labels id ss
        ⊎ (blamed : Option ℕ) × (check_dead n labels (at labels id).state out ss
            ≡ some (some blamed))
          × Clashes n labels id ss
  unfolding check_dead
  check_dead_in out ss hs co ow covers =
      let l = fits id inside in
      let dead = (at labels id).state.dead in
      let size = capacity-make n in
      let le : capacity out ≤ capacity dead = omega (arith, l.dead) in
      let e1 = and_with_in out dead le in
      elim (Bool-cases (is_nonempty (both out dead))) [
        | inl some_needed ↦ rw (e1, some_needed) (check_succs_in ss hs)
        | inr empty ↦ inl (
          rw (e1, empty) refl,
          λ s r h i. ground (
            arith,
            covers s r (omega arith) i,
            nothing_common out dead r ow le empty (omega arith),
          ),
        )
      ]
