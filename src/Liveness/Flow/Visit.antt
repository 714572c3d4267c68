-- ===== src/Liveness/Flow/Visit.antt =====
-- A round of the dataflow, as a change of the sets `in` and `out` of one label.
use native.Mathlib.Decide.{ℕ_discrete}
use verona_bc.Prelude.{
  ℕ, ◌<◌, ◌≡◌, ◌≢◌, refl, sym, ap, ◌∙◌, true, false, not, ◌&&◌, ◌||◌, Option, some, List, [], ◌∷◌,
  ◌++◌, arith, length, Bool-cases, inl, inr, ◌⊎◌,
}
use verona_bc.Bitset.{Bitset, make}
use verona_bc.Bitset.Laws.{has, capacity, IsWords, test_in}
use verona_bc.Bitset.Extensional.{capacity-make, test-make}
use verona_bc.Bitset.Counting.{count}
use verona_bc.Liveness.Flow.{
  FlowLabel, redefines_register, requires_dead, Round, went, stopped, visit, merge_succs, gathered,
}
use verona_bc.Liveness.Flow.Kept.{at, at-elem, needs, holds, kills, is_in}
use verona_bc.Liveness.Flow.Merge.{
  Merged, defines, wanted, needs-Merged, defines-Merged, provided, Redefines, Fits, Merged-Fits,
  Gathers,
}
use verona_bc.Liveness.Flow.Gather.{merge_succs_in}
use verona_bc.Liveness.Flow.Dead.{Clashes, IsClear, check_dead_in}
use verona_bc.Liveness.Flow.Settle.{Settled, settle_in}

-- Register `r` comes into label `id` from a label behind it.
abbrev pub Comes : List FlowLabel → ℕ → ℕ → Type 0
Comes xs id r =
    (s : ℕ) × (is_in s (at xs id).succ ≡ true) × (needs xs s r ≡ true) × (holds xs id r ≡ false)

-- Register `r` is defined in label `id`, or in a label behind it.
abbrev pub Provides : List FlowLabel → ℕ → ℕ → Type 0
Provides xs id r =
    (defines xs id r ≡ true) ⊎ (s : ℕ) × (is_in s (at xs id).succ ≡ true) × (defines xs s r ≡ true)

pub record Went (n : ℕ) (xs ys : List FlowLabel) (id : ℕ) (q q' : List ℕ) : Type 0 where
  pub size : length ys ≡ length xs
  pub fits : Fits n ys
  pub pred : (i : ℕ) → (at ys i).pred ≡ (at xs i).pred
  pub succ : (i : ℕ) → (at ys i).succ ≡ (at xs i).succ
  pub dead : (i : ℕ) → (at ys i).state.dead ≡ (at xs i).state.dead
  pub other_in : (i : ℕ) → id ≢ i → (at ys i).state.live_in ≡ (at xs i).state.live_in
  pub other_out : (i : ℕ) → id ≢ i → (at ys i).state.live_out ≡ (at xs i).state.live_out
  pub other_defd : (i : ℕ) → id ≢ i → (at ys i).state.defd ≡ (at xs i).state.defd
  pub defd_comes : (r : ℕ) → r < n → defines ys id r ≡ true → Provides xs id r
  pub grows : (r : ℕ) → r < capacity (make n) → needs xs id r ≡ true → needs ys id r ≡ true
  pub reads :
      (s r : ℕ)
      → r < capacity (make n)
      → is_in s (at xs id).succ ≡ true
      → needs xs s r ≡ true
      → (needs ys id r || holds xs id r) ≡ true
  pub comes :
      (r : ℕ)
      → r < capacity (make n)
      → needs ys id r ≡ true
      → (needs xs id r ≡ true) ⊎ Comes xs id r
  pub out_grows : (r : ℕ) → r < capacity (make n) → holds xs id r ≡ true → holds ys id r ≡ true
  pub out_comes :
      (r : ℕ)
      → r < capacity (make n)
      → holds ys id r ≡ true
      → (holds xs id r || needs ys id r) ≡ true
  pub clear : IsClear n xs id (at xs id).succ
  pub queue :
      ((at ys id).state.live_in ≡ (at xs id).state.live_in) × (q' ≡ q)
      ⊎ (q' ≡ q ++ (at xs id).pred)
        × (count (at xs id).state.live_in < count (at ys id).state.live_in)

-- A register that a successor needs, and the successor.
wanted_from :
    (xs : List FlowLabel) (ss : List ℕ) (r : ℕ)
    → wanted xs ss r ≡ true
    → (s : ℕ) × (is_in s ss ≡ true) × (needs xs s r ≡ true)
wanted_from xs [] r h = absurd (cc)
wanted_from xs (s ∷ ss) r h = elim (Bool-cases (needs xs s r)) [
  | inl here ↦ (s, ground arith, here)
  | inr later ↦ let (t, i, e) = wanted_from xs ss r (ground arith) in (t, ground arith, e)
]

provided_from :
    (xs : List FlowLabel) (ss : List ℕ) (r : ℕ)
    → provided xs ss r ≡ true
    → (s : ℕ) × (is_in s ss ≡ true) × (defines xs s r ≡ true)
provided_from xs [] r h = absurd (cc)
provided_from xs (s ∷ ss) r h = elim (Bool-cases (defines xs s r)) [
  | inl here ↦ (s, ground arith, here)
  | inr later ↦ let (t, i, e) = provided_from xs ss r (ground arith) in (t, ground arith, e)
]

has-make : (n r : ℕ) → r < n → has (make n) r ≡ false
has-make n r h =
    let size = capacity-make n in ground (arith, test-make n r h, test_in (make n) r (omega arith))

wanted_by :
    (xs : List FlowLabel) (ss : List ℕ) (s r : ℕ)
    → is_in s ss ≡ true
    → needs xs s r ≡ true
    → wanted xs ss r ≡ true
wanted_by xs [] s r i h = absurd (cc)
wanted_by xs (t ∷ ss) s r i h = elim (ℕ_discrete s t) [
  | yes e ↦ let here : needs xs t r ≡ true = rw (sym e) h in ground arith
  | no ne ↦ ground (arith, wanted_by xs ss s r (ground arith) h)
]

module _ (n : ℕ) (xs ys zs : List FlowLabel) (id : ℕ) (q q' : List ℕ) (out d : Bitset)
    (g : Gathers n xs (at xs id).succ (at xs id).state.live_out (make n) ys out d)
    (s : Settled n ys zs id out d q q') (clear : IsClear n xs id (at xs id).succ) where
  new_needs :
      (r : ℕ)
      → r < capacity (make n)
      → needs zs id r ≡ ((wanted xs (at xs id).succ r && not (holds xs id r)) || needs xs id r)
  new_needs r h = ground (
    arith,
    s.new_in r h,
    g.out_has r h,
    needs-Merged xs ys id r g.merged,
    ap (λ b. has b r) (g.merged.states id).live_out,
  )

  new_holds :
      (r : ℕ)
      → r < capacity (make n)
      → (holds zs id r ≡ holds xs id r)
        ⊎ (holds zs id r ≡ (holds xs id r || wanted xs (at xs id).succ r))
  new_holds r h = elim s.queue [
    | inl (same_in, same_out, e) ↦
        inl (ap (λ b. has b r) (same_out ∙ (g.merged.states id).live_out))
    | inr (new_out, e, l) ↦ inr (ap (λ b. has b r) new_out ∙ g.out_has r h)
  ]

  settled-Went : Went n xs zs id q q'
  settled-Went = record {
    size = s.size ∙ g.merged.size;
    fits = s.fits;
    pred = λ i. s.pred i ∙ g.merged.pred i;
    succ = λ i. s.succ i ∙ g.merged.succ i;
    dead = λ i. s.dead i ∙ (g.merged.states i).dead;
    other_in = λ i ne. ap (λ l. l.state.live_in) (s.others i ne) ∙ (g.merged.states i).live_in;
    other_out = λ i ne. ap (λ l. l.state.live_out) (s.others i ne) ∙ (g.merged.states i).live_out;
    other_defd = λ i ne. ap (λ l. l.state.defd) (s.others i ne) ∙ (g.merged.states i).defd;
    defd_comes = λ r h e.
        let k : r < capacity (make n) = omega (arith, capacity-make n) in
        elim (Bool-cases (defines xs id r)) [
          | inl before ↦ inl before
          | inr fresh ↦ inr (
              provided_from xs (at xs id).succ r (
                ground (
                  arith,
                  s.new_defd r k,
                  g.defd_has r k,
                  has-make n r h,
                  defines-Merged xs ys id r g.merged,
                )))
        ];
    grows = λ r h e. ground (arith, new_needs r h);
    reads = λ t r h i e. ground (arith, new_needs r h, wanted_by xs (at xs id).succ t r i e);
    comes = λ r h e. elim (Bool-cases (needs xs id r)) [
      | inl before ↦ inl before
      | inr fresh ↦
          let (t, i, w) = wanted_from xs (at xs id).succ r (ground (arith, new_needs r h)) in
          inr (t, i, w, ground (arith, new_needs r h))
    ];
    out_grows = λ r h e. ground (arith, new_holds r h);
    out_comes = λ r h e. ground (arith, new_holds r h, new_needs r h);
    clear = clear;
    queue = elim s.queue [
      | inl (same_in, same_out, e) ↦ inl (same_in ∙ (g.merged.states id).live_in, e)
      | inr (new_out, e, l) ↦ inr (
        e ∙ ap (λ ps. q ++ ps) (g.merged.pred id),
        omega (arith, l, ap count (g.merged.states id).live_in),
      )
    ];
  }

module _ (n : ℕ) (vars : Bitset) (sized : capacity vars ≡ capacity (make n))
    (words : IsWords vars) where
  -- How a round ends: it goes on, or it reports one of the two errors with its reason.
  abbrev pub Visited : List FlowLabel → ℕ → List ℕ → Option Round → Type 0
  Visited xs id q o =
      ((ys : List FlowLabel) × (q' : List ℕ) × (o ≡ some (went ys q')) × Went n xs ys id q q')
      ⊎ ((blamed : Option ℕ) × (ys : List FlowLabel) × (o
            ≡ some (stopped (redefines_register blamed) ys))
          × Redefines n vars xs id (at xs id).succ)
      ⊎ (blamed : Option ℕ) × (ys : List FlowLabel) × (o ≡ some (stopped (requires_dead blamed) ys))
        × Clashes n xs id (at xs id).succ

  module _ (xs : List FlowLabel) (id : ℕ) (q : List ℕ) (fits : Fits n xs) (h : id < length xs)
      (below : (s : ℕ) → is_in s (at xs id).succ ≡ true → s < length xs) where
    same_clash :
        (ys : List FlowLabel) (s r : ℕ)
        → Merged xs ys
        → (needs ys s r && kills ys id r) ≡ (needs xs s r && kills xs id r)
    same_clash ys s r m =
        ground (arith, needs-Merged xs ys s r m, ap (λ b. has b r) (m.states id).dead)

    same_succ :
        (ys : List FlowLabel) (s : ℕ)
        → Merged xs ys
        → is_in s (at ys id).succ ≡ is_in s (at xs id).succ
    same_succ ys s m = ap (is_in s) (m.succ id)

    settled :
        (ys : List FlowLabel) (out d : Bitset)
        → merge_succs n vars id xs (at xs id).state.live_out (make n) (at xs id).succ
          ≡ some (gathered ys out d)
        → Gathers n xs (at xs id).succ (at xs id).state.live_out (make n) ys out d
        → Visited xs id q (visit n vars xs id q)
    unfolding visit
    settled ys out d e g =
        let fits' = Merged-Fits n xs ys g.merged fits in
        let h' : id < length ys = omega (arith, g.merged.size) in
        elim (check_dead_in n ys fits' id h' out (at ys id).succ
          (λ s i.
            let b = below s (sym (same_succ ys s g.merged) ∙ i) in omega (arith, g.merged.size))
          g.out_size g.out_words
          (λ s r k i w. ground (
            arith,
            g.out_has r k,
            wanted_by xs (at xs id).succ s r (sym (same_succ ys s g.merged) ∙ i)
                (sym (needs-Merged xs ys s r g.merged) ∙ w),
          ))) [
            | inr (blamed, found, (s, r, k, i, t)) ↦ inr (
                inr (
                  blamed,
                  ys,
                  rw (at-elem xs id h, e, at-elem ys id h', found) refl,
                  (
                    s,
                    r,
                    k,
                    sym (same_succ ys s g.merged) ∙ i,
                    sym (same_clash ys s r g.merged) ∙ t,
                  ),
                ))
            | inl (found, clear) ↦
                let (zs, q', ez, st) =
                  settle_in n ys id fits' h' q out d g.out_size g.out_words g.defd_size in
                inl (
                  zs,
                  q',
                  rw (at-elem xs id h, e, at-elem ys id h', found) ez,
                  settled-Went n xs ys zs id q q' out d g st (λ s r k i.
                      sym (same_clash ys s r g.merged) ∙ clear s r k (same_succ ys s g.merged ∙ i)),
                )
          ]

    -- A round does not throw.
    pub visit_in : Visited xs id q (visit n vars xs id q)
    unfolding visit
    visit_in =
        elim (merge_succs_in n vars id sized words xs (at xs id).succ (at xs id).state.live_out
          (make n) fits h below (fits id h).live_out refl (fits id h).out_words) [
            | inl (ys, out, d, e, g) ↦ settled ys out d e g
            | inr (blamed, ys, e, m, why) ↦
                inr (inl (blamed, ys, rw (at-elem xs id h, e) refl, why))
          ]
