-- ===== src/Liveness/Flow/Gather.antt =====
-- The loops over the successors of a label, from one successor to all of them.
use verona_bc.Prelude.{
  ℕ, ◌<◌, ◌≡◌, refl, sym, ◌∙◌, true, Option, some, List, [], ◌∷◌, arith, set, length, Bool-cases,
  inl, inr, ◌⊎◌,
}
use verona_bc.Bitset.{Bitset, make, complement, is_nonempty}
use verona_bc.Bitset.Laws.{capacity, IsWords}
use verona_bc.Bitset.Algebra.{
  both, either, and_with_in, or_with_in, has-either, capacity-both, capacity-either,
  capacity-complement,
}
use verona_bc.Bitset.Counting.{IsWords-either}
use verona_bc.Liveness.Flow.{
  FlowLabel, with_state, redefines_register, Gathered, gathered, refused, merge_succ, merge_succs,
}
use verona_bc.Liveness.Flow.Kept.{at, at-elem, is_in, Kept-IsFit, merge_firsts_in}
use verona_bc.Liveness.Flow.Merge.{
  Merged, Merged-refl, Merged-trans, Merged-set, defines-Merged, wanted-Merged, provided-Merged,
  Redefines, find_redef_in, Fits, Merged-Fits, Gathers, redefs, redefs_size, has-redefs,
}

module _ (n : ℕ) (vars : Bitset) (id : ℕ) (sized : capacity vars ≡ capacity (make n))
    (words : IsWords vars) where
  abbrev Refuses : List FlowLabel → List ℕ → Option Gathered → Type 0
  Refuses labels ss o =
      (blamed : Option ℕ) × (ys : List FlowLabel) × (o
        ≡ some (refused (redefines_register blamed) ys))
      × Merged labels ys
      × Redefines n vars labels id ss

  -- What the loop may leave, as the sets that were there before it.
  abbrev Ends : List FlowLabel → List ℕ → Bitset → Bitset → Option Gathered → Type 0
  Ends labels ss out defd o =
      ((ys : List FlowLabel) × (out' : Bitset) × (defd' : Bitset) × (o
          ≡ some (gathered ys out' defd'))
        × Gathers n labels ss out defd ys out' defd')
      ⊎ Refuses labels ss o

  -- The sets of a label after one successor.
  after_one :
      (labels ys : List FlowLabel) (s : ℕ) (out defd : Bitset)
      → Fits n labels
      → s < length labels
      → Merged labels ys
      → capacity out ≡ capacity (make n)
      → capacity defd ≡ capacity (make n)
      → IsWords out
      → Gathers n labels
          (s ∷ [])
          out
          defd
          ys
          (either out (at labels s).state.live_in)
          (either defd (at labels s).state.defd)
  after_one labels ys s out defd f hs m co cd ow =
      let succ = f s hs in
      let a = capacity-either out (at labels s).state.live_in (omega (arith, succ.live_in)) in
      let b = capacity-either defd (at labels s).state.defd (omega (arith, succ.defd)) in
      record {
        merged = m;
        out_size = omega arith;
        defd_size = omega arith;
        out_words = IsWords-either out (at labels s).state.live_in ow succ.in_words;
        out_has = λ r h. ground (
          arith,
          has-either out (at labels s).state.live_in r (omega (arith, succ.live_in)) (omega arith),
        );
        defd_has = λ r h. ground (
          arith,
          has-either defd (at labels s).state.defd r (omega (arith, succ.defd)) (omega arith),
        );
      }

  merge_succ_in :
      (labels : List FlowLabel) (s : ℕ) (out defd : Bitset)
      → Fits n labels
      → id < length labels
      → s < length labels
      → capacity out ≡ capacity (make n)
      → capacity defd ≡ capacity (make n)
      → IsWords out
      → Ends labels (s ∷ []) out defd (merge_succ n vars id labels out defd s)
  merge_succ_in labels s out defd f hi hs co cd ow =
      let l = f id hi in
      let succ = f s hs in
      let size =
        capacity-both (at labels id).state.defd (at labels s).state.defd
          (omega (arith, l.defd, succ.defd)) in
      let (m, em, km) =
        merge_firsts_in n n 0 (at labels id).state (at labels s).state l succ (omega arith) in
      let ys = set labels id (with_state (at labels id) m) in
      let merged = Merged-set labels id m hi km in
      let hs' : s < length ys = omega (arith, merged.size) in
      let redef_size = redefs_size n vars id sized words labels s f hi hs in
      let e1 = or_with_in out (at labels s).state.live_in (omega (arith, succ.live_in)) in
      let e2 = or_with_in defd (at labels s).state.defd (omega (arith, succ.defd)) in
      let e3 =
        and_with_in (at labels id).state.defd (at labels s).state.defd
          (omega (arith, l.defd, succ.defd)) in
      let e4 =
        and_with_in (both (at labels id).state.defd (at labels s).state.defd) (complement vars)
          (omega (arith, l.defd, capacity-complement vars)) in
      let ends = after_one labels ys s out defd f hs merged co cd ow in
      elim (Bool-cases (is_nonempty (redefs vars labels id s))) [
        | inr fine ↦ inl (
          ys,
          _,
          _,
          rw (at-elem labels id hi, at-elem labels s hs, e1, e2, e3, e4, em, fine) refl,
          ends,
        )
        | inl some_redef ↦
            elim (find_redef_in n n 0 (redefs vars labels id s) m (at ys s).state
              (Kept-IsFit n (at labels id).state m km l) (Merged-Fits n labels ys merged f s hs')
              redef_size (omega arith)) [
                | inl none_found ↦ inl (
                  ys,
                  _,
                  _,
                  rw
                      (
                        at-elem labels id hi,
                        at-elem labels s hs,
                        e1,
                        e2,
                        e3,
                        e4,
                        em,
                        some_redef,
                        at-elem ys s hs',
                        none_found,
                      )
                      refl,
                  ends,
                )
                | inr (blamed, r, found, h, t) ↦ inr (
                  blamed,
                  ys,
                  rw
                      (
                        at-elem labels id hi,
                        at-elem labels s hs,
                        e1,
                        e2,
                        e3,
                        e4,
                        em,
                        some_redef,
                        at-elem ys s hs',
                        found,
                      )
                      refl,
                  merged,
                  (
                    s,
                    r,
                    h,
                    ground arith,
                    sym (has-redefs n vars id sized words labels s r f hi hs h) ∙ t,
                  ),
                )
              ]
      ]

  Gathers-cons :
      (xs ys zs : List FlowLabel) (s : ℕ) (ss : List ℕ) (out out1 out2 defd defd1 defd2 : Bitset)
      → Gathers n xs (s ∷ []) out defd ys out1 defd1
      → Gathers n ys ss out1 defd1 zs out2 defd2
      → Gathers n xs (s ∷ ss) out defd zs out2 defd2
  Gathers-cons xs ys zs s ss out out1 out2 defd defd1 defd2 a b = record {
    merged = Merged-trans xs ys zs a.merged b.merged;
    out_size = b.out_size;
    defd_size = b.defd_size;
    out_words = b.out_words;
    out_has =
        λ r h. ground (arith, a.out_has r h, b.out_has r h, wanted-Merged xs ys ss r a.merged);
    defd_has =
        λ r h. ground (arith, a.defd_has r h, b.defd_has r h, provided-Merged xs ys ss r a.merged);
  }

  Redefines-cons :
      (xs ys : List FlowLabel) (s : ℕ) (ss : List ℕ)
      → Merged xs ys
      → Redefines n vars ys id ss
      → Redefines n vars xs id (s ∷ ss)
  Redefines-cons xs ys s ss m (s', r, h, i, e) = (
    s',
    r,
    h,
    ground arith,
    ground (arith, defines-Merged xs ys id r m, defines-Merged xs ys s' r m),
  )

  Redefines-head :
      (xs : List FlowLabel) (s : ℕ) (ss : List ℕ)
      → Redefines n vars xs id (s ∷ [])
      → Redefines n vars xs id (s ∷ ss)
  Redefines-head xs s ss (s', r, h, i, e) = (s', r, h, ground arith, e)

  -- The loop over the successors does not throw. It gathers what the successors need, or refuses a label
  -- that defines what a successor defines.
  pub merge_succs_in :
      (labels : List FlowLabel) (ss : List ℕ) (out defd : Bitset)
      → Fits n labels
      → id < length labels
      → ((s : ℕ) → is_in s ss ≡ true → s < length labels)
      → capacity out ≡ capacity (make n)
      → capacity defd ≡ capacity (make n)
      → IsWords out
      → Ends labels ss out defd (merge_succs n vars id labels out defd ss)
  unfolding merge_succs
  merge_succs_in labels [] out defd f hi hs co cd ow = inl (
    labels,
    out,
    defd,
    refl,
    record {
      merged = Merged-refl labels;
      out_size = co;
      defd_size = cd;
      out_words = ow;
      out_has = λ r h. ground arith;
      defd_has = λ r h. ground arith;
    },
  )
  merge_succs_in labels (s ∷ ss) out defd f hi hs co cd ow =
      elim (merge_succ_in labels s out defd f hi (hs s (ground arith)) co cd ow) [
        | inr (blamed, ys, e, m, why) ↦
            inr (blamed, ys, rw (merge_succs, e) refl, m, Redefines-head labels s ss why)
        | inl (ys, out1, defd1, e, g) ↦
            elim (merge_succs_in ys ss out1 defd1 (Merged-Fits n labels ys g.merged f)
              (omega (arith, g.merged.size))
              (λ t i. let below = hs t (ground arith) in omega (arith, g.merged.size)) g.out_size
              g.defd_size g.out_words) [
                | inr (blamed, zs, e', m, why) ↦ inr (
                  blamed,
                  zs,
                  rw (merge_succs, e) e',
                  Merged-trans labels ys zs g.merged m,
                  Redefines-cons labels ys s ss g.merged why,
                )
                | inl (zs, out2, defd2, e', g') ↦ inl (
                  zs,
                  out2,
                  defd2,
                  rw (merge_succs, e) e',
                  Gathers-cons labels ys zs s ss out out1 out2 defd defd1 defd2 g g',
                )
              ]
      ]
