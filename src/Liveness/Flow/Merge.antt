-- ===== src/Liveness/Flow/Merge.antt =====
-- The loop over the successors of a label: the sets that it gathers, and when it refuses.
use native.Mathlib.Decide.{ℕ_discrete}
use verona_bc.Prelude.{
  ℕ, zero, suc, ◌+◌, ◌≤◌, ◌<◌, ◌≡◌, ◌≢◌, refl, sym, ap, ◌∙◌, Bool, true, false, not, ◌&&◌, ◌||◌,
  Option, none, some, List, [], ◌∷◌, arith, set, length, get_or, Bool-cases, inl, inr, ◌⊎◌,
  get_elem?-eq-get_or, length-set, get_or-set,
}
use verona_bc.Bitset.{Bitset, make, complement}
use verona_bc.Bitset.Laws.{has, capacity, IsWords, test_in}
use verona_bc.Bitset.Algebra.{both, has-both, has-complement, capacity-both, capacity-complement}
use verona_bc.Bitset.Extensional.{capacity-make}
use verona_bc.Label.{LabelState}
use verona_bc.Liveness.Flow.{FlowLabel, with_state, same_node, find_redef}
use verona_bc.Liveness.Flow.Kept.{
  blank, at, needs, is_in, IsFit, Kept, Kept-refl, Kept-trans, Kept-IsFit,
}

-- The labels with their sets and edges, other nodes perhaps.
pub record Merged (xs ys : List FlowLabel) : Type 0 where
  pub size : length ys ≡ length xs
  pub states : (i : ℕ) → Kept (at xs i).state (at ys i).state
  pub pred : (i : ℕ) → (at ys i).pred ≡ (at xs i).pred
  pub succ : (i : ℕ) → (at ys i).succ ≡ (at xs i).succ

pub Merged-refl : (xs : List FlowLabel) → Merged xs xs
Merged-refl xs = record {
  size = refl;
  states = λ i. Kept-refl (at xs i).state;
  pred = λ i. refl;
  succ = λ i. refl;
}

pub Merged-trans : (xs ys zs : List FlowLabel) → Merged xs ys → Merged ys zs → Merged xs zs
Merged-trans xs ys zs a b = record {
  size = b.size ∙ a.size;
  states =
      λ i. Kept-trans (at xs i).state (at ys i).state (at zs i).state (a.states i) (b.states i);
  pred = λ i. b.pred i ∙ a.pred i;
  succ = λ i. b.succ i ∙ a.succ i;
}

pub at-set_self :
    (labels : List FlowLabel) (i : ℕ) (l : FlowLabel)
    → i < length labels
    → at (set labels i l) i ≡ l
at-set_self labels i l h = ground (arith, get_or-set labels i i l blank h)

pub at-set_ne :
    (labels : List FlowLabel) (i j : ℕ) (l : FlowLabel)
    → i < length labels
    → i ≢ j
    → at (set labels i l) j ≡ at labels j
at-set_ne labels i j l h ne = ground (arith, get_or-set labels i j l blank h)

pub Merged-set :
    (labels : List FlowLabel) (id : ℕ) (m : LabelState)
    → id < length labels
    → Kept (at labels id).state m
    → Merged labels (set labels id (with_state (at labels id) m))
Merged-set labels id m h k = record {
  size = length-set labels id (with_state (at labels id) m);
  states = λ i. elim (ℕ_discrete id i) [
    | yes e ↦ rw (sym e) (rw (at-set_self labels id (with_state (at labels id) m) h) k)
    | no ne ↦
        rw (at-set_ne labels id i (with_state (at labels id) m) h ne)
          (Kept-refl (at labels i).state)
  ];
  pred = λ i. ground (arith, get_or-set labels id i (with_state (at labels id) m) blank h);
  succ = λ i. ground (arith, get_or-set labels id i (with_state (at labels id) m) blank h);
}

abbrev pub defines : List FlowLabel → ℕ → ℕ → Bool
defines labels i r = has (at labels i).state.defd r

-- Register `r` is live into one of the labels `ss`.
abbrev pub wanted : List FlowLabel → List ℕ → ℕ → Bool
wanted labels [] r = false
wanted labels (s ∷ ss) r = needs labels s r || wanted labels ss r

-- Register `r` is defined in one of the labels `ss`.
abbrev pub provided : List FlowLabel → List ℕ → ℕ → Bool
provided labels [] r = false
provided labels (s ∷ ss) r = defines labels s r || provided labels ss r

pub needs-Merged : (xs ys : List FlowLabel) (i r : ℕ) → Merged xs ys → needs ys i r ≡ needs xs i r
needs-Merged xs ys i r m = ap (λ b. has b r) (m.states i).live_in

pub defines-Merged :
    (xs ys : List FlowLabel) (i r : ℕ) → Merged xs ys → defines ys i r ≡ defines xs i r
defines-Merged xs ys i r m = ap (λ b. has b r) (m.states i).defd

pub wanted-Merged :
    (xs ys : List FlowLabel) (ss : List ℕ) (r : ℕ) → Merged xs ys → wanted ys ss r ≡ wanted xs ss r
wanted-Merged xs ys [] r m = refl
wanted-Merged xs ys (s ∷ ss) r m =
    ground (arith, needs-Merged xs ys s r m, wanted-Merged xs ys ss r m)

pub provided-Merged :
    (xs ys : List FlowLabel) (ss : List ℕ) (r : ℕ)
    → Merged xs ys
    → provided ys ss r ≡ provided xs ss r
provided-Merged xs ys [] r m = refl
provided-Merged xs ys (s ∷ ss) r m =
    ground (arith, defines-Merged xs ys s r m, provided-Merged xs ys ss r m)

-- The labels `ss` and `id` define the same register, which is no variable.
abbrev pub Redefines : ℕ → Bitset → List FlowLabel → ℕ → List ℕ → Type 0
Redefines n vars labels id ss =
    (s r : ℕ) × (r < n)
    × (is_in s ss ≡ true)
    × ((defines labels id r && defines labels s r && not (has vars r)) ≡ true)

-- The search among the registers from `r` on gives none, or one of the set.
pub find_redef_in :
    (n count r : ℕ) (redef : Bitset) (l succ : LabelState)
    → IsFit n l
    → IsFit n succ
    → capacity redef ≡ capacity (make n)
    → r + count ≤ n
    → (find_redef count r redef l succ ≡ some none)
      ⊎ (node : Option ℕ) × (i : ℕ) × (find_redef count r redef l succ ≡ some (some node))
        × (i < n)
        × (has redef i ≡ true)
unfolding find_redef
find_redef_in n zero r redef l succ f g c h = inl refl
find_redef_in n (suc count) r redef l succ f g c h =
    let inside : r < capacity redef = omega (arith, capacity-make n) in
    let rest = find_redef_in n count (suc r) redef l succ f g c (omega arith) in
    elim (Bool-cases (has redef r)) [
      | inr other ↦ rw (test_in redef r inside, other) rest
      | inl again ↦
          elim (Bool-cases (same_node (get_or l.first_def r none) (get_or succ.first_def r none))) [
            | inl same ↦
                rw
                  (
                    test_in redef r inside,
                    again,
                    get_elem?-eq-get_or l.first_def r none (omega (arith, f.first_def)),
                    get_elem?-eq-get_or succ.first_def r none (omega (arith, g.first_def)),
                    same,
                  )
                  rest
            | inr differ ↦ inr (
              get_or succ.first_def r none,
              r,
              rw
                  (
                    test_in redef r inside,
                    again,
                    get_elem?-eq-get_or l.first_def r none (omega (arith, f.first_def)),
                    get_elem?-eq-get_or succ.first_def r none (omega (arith, g.first_def)),
                    differ,
                  )
                  refl,
              omega arith,
              again,
            )
          ]
    ]

abbrev pub Fits : ℕ → List FlowLabel → Type 0
Fits n labels = (i : ℕ) → i < length labels → IsFit n (at labels i).state

pub Merged-Fits : (n : ℕ) (xs ys : List FlowLabel) → Merged xs ys → Fits n xs → Fits n ys
Merged-Fits n xs ys m f i h =
    Kept-IsFit n (at xs i).state (at ys i).state (m.states i) (f i (omega (arith, m.size)))

-- The sets that the loop leaves: `new_out` with what the labels `ss` need.
pub record Gathers (n : ℕ) (xs : List FlowLabel) (ss : List ℕ) (out defd : Bitset)
    (ys : List FlowLabel) (out' defd' : Bitset) : Type 0 where
  pub merged : Merged xs ys
  pub out_size : capacity out' ≡ capacity (make n)
  pub defd_size : capacity defd' ≡ capacity (make n)
  pub out_words : IsWords out'
  pub out_has : (r : ℕ) → r < capacity (make n) → has out' r ≡ (has out r || wanted xs ss r)
  pub defd_has : (r : ℕ) → r < capacity (make n) → has defd' r ≡ (has defd r || provided xs ss r)

abbrev pub redefs : Bitset → List FlowLabel → ℕ → ℕ → Bitset
redefs vars labels id s =
    both (both (at labels id).state.defd (at labels s).state.defd) (complement vars)

module _ (n : ℕ) (vars : Bitset) (id : ℕ) (sized : capacity vars ≡ capacity (make n))
    (words : IsWords vars) where
  pub redefs_size :
      (labels : List FlowLabel) (s : ℕ)
      → Fits n labels
      → id < length labels
      → s < length labels
      → capacity (redefs vars labels id s) ≡ capacity (make n)
  redefs_size labels s f hi hs =
      let l = f id hi in
      let succ = f s hs in
      let inner =
        capacity-both (at labels id).state.defd (at labels s).state.defd
          (omega (arith, l.defd, succ.defd)) in
      let compl = capacity-complement vars in
      let outer =
        capacity-both (both (at labels id).state.defd (at labels s).state.defd) (complement vars)
          (omega (arith, l.defd)) in
      omega (arith, l.defd)

  pub has-redefs :
      (labels : List FlowLabel) (s r : ℕ)
      → Fits n labels
      → id < length labels
      → s < length labels
      → r < n
      → has (redefs vars labels id s) r
        ≡ (defines labels id r && defines labels s r && not (has vars r))
  has-redefs labels s r f hi hs h =
      let l = f id hi in
      let succ = f s hs in
      let size = capacity-make n in
      let inner =
        capacity-both (at labels id).state.defd (at labels s).state.defd
          (omega (arith, l.defd, succ.defd)) in
      let compl = capacity-complement vars in
      let a =
        has-both (both (at labels id).state.defd (at labels s).state.defd) (complement vars) r
          (omega (arith, l.defd)) (omega (arith, l.defd)) in
      let b =
        has-both (at labels id).state.defd (at labels s).state.defd r
          (omega (arith, l.defd, succ.defd)) (omega (arith, l.defd)) in
      let c = has-complement vars r words (omega arith) in ground arith
