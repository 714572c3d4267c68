-- ===== src/Vbci/Regions/Inc.antt =====
-- `stack_inc`: a reference more from outside, and the climb to the parents.
use native.Mathlib.Nat.{mod-eq_of_lt}
use verona_bc.Prelude.{
  ℕ, zero, suc, ◌+◌, ◌%◌, ◌<◌, ◌≡◌, ◌≢◌, inl, inr, true, Option, some, ◌==◌, refl, ap, ◌∙◌, arith,
  Bool-cases,
}
use verona_bc.Vbci.Regions.{child_of, Store, rc_mod, is_frame_local, set_rc, tell_parent, stack_inc}
use verona_bc.Vbci.Regions.Forest.{
  is_child, IsBalanced, IsBalanced-IsOwed, IsOwed-IsBalanced, IsOwed, IsForest, more_at, IsCountsOf,
  IsOwed-set_rc, Owner-cases, IsCountsOf-refl, IsCountsOf-set_rc,
}

-- What `stack_inc` by `k` makes of a store with the outside counts `e`.
abbrev pub Raises : ℕ → (ℕ → ℕ) → Store → (ℕ → ℕ) → (ℕ → ℕ) → ℕ → ℕ → Option Store → Type 0
Raises n rank s d e r k o =
    (s' : Store) × (o ≡ some s') × IsOwed n s' d (more_at e r k) × IsCountsOf rank r s s'

module _ (n : ℕ) (rank : ℕ → ℕ) (s : Store) (r k : ℕ) (lr : r < n) (d e : ℕ → ℕ)
    (b : IsOwed n s d e) where
  inc_local : 0 < (s.regions r).frame_depth → IsOwed n s d (more_at e r k)
  inc_local loc q lq dq = elim (Bool-cases (q == r)) [
    | inl same ↦
        let e' : q ≡ r = ground arith in
        let dr : (s.regions r).frame_depth ≡ 0 = rw e' at dq in absurd (omega arith)
    | inr away ↦ ground (arith, b q lq dq)
  ]

  inc_held :
      0 < (s.regions r).stack_rc
      → IsOwed n (set_rc s r ((s.regions r).stack_rc + k)) d (more_at e r k)
  inc_held pos =
      IsOwed-set_rc n s r ((s.regions r).stack_rc + k) d e (more_at e r k) lr b
        (λ q h. ground arith) (ground arith)

  -- The first reference, where there is no parent to tell.
  inc_root :
      (s.regions r).stack_rc ≡ 0
      → ((q : ℕ) → is_child (s.regions r).owner q ≡ 0)
      → 0 < k
      → IsOwed n (set_rc s r k) d (more_at e r k)
  inc_root empty root pos =
      IsOwed-set_rc n s r k d e (more_at e r k) lr b (λ q h. ground (arith, root q))
        (ground (arith, root r))

first : (k : ℕ) → k < rc_mod → (0 + k) % rc_mod ≡ k
first k h = omega arith

none_yet : (r : ℕ) (s : Store) → ((s.regions r).stack_rc == 0) ≡ true → (s.regions r).stack_rc ≡ 0
none_yet r s h = ground arith

module _ (n : ℕ) (rank : ℕ → ℕ) where
  -- The parent `p` has been told, and now the count of `r` leaves 0.
  inc_child :
      (s s' : Store) (r p k : ℕ) (d e : ℕ → ℕ)
      → r < n
      → 0 < k
      → (s.regions r).owner ≡ child_of p
      → (s.regions r).stack_rc ≡ 0
      → rank p < rank r
      → IsOwed n s' d (more_at e p 1)
      → IsCountsOf rank p s s'
      → IsOwed n (set_rc s' r k) d (more_at e r k)
  inc_child s s' r p k d e lr pos own empty rk b c =
      let same : s'.regions r ≡ s.regions r = c.same_above r rk in
      let own' : (s'.regions r).owner ≡ child_of p = ap (λ g. g.owner) same ∙ own in
      let empty' : (s'.regions r).stack_rc ≡ 0 = ap (λ g. g.stack_rc) same ∙ empty in
      let apart : p ≢ r = λ i. (let j = rw i at rk in omega arith) in
      IsOwed-set_rc n s' r k d (more_at e p 1) (more_at e r k) lr b
        (λ q h. elim (Bool-cases (p == q)) [
          | inl here ↦ rw own' (ground arith)
          | inr there ↦ rw own' (ground arith)
        ])
        (rw own' (ground arith))

  pub stack_inc-Raises :
      (fuel : ℕ) (s : Store) (r k : ℕ) (d e : ℕ → ℕ)
      → r < n
      → 0 < k
      → rank r < fuel
      → ((q : ℕ) → q < n → (s.regions q).frame_depth ≡ 0 → (s.regions q).stack_rc + k < rc_mod)
      → IsForest n rank s
      → IsOwed n s d e
      → Raises n rank s d e r k (stack_inc fuel s r k)
  unfolding stack_inc
  stack_inc-Raises zero s r k d e lr pos lf fits f b = absurd (omega arith)
  stack_inc-Raises (suc fuel) s r k d e lr pos lf fits f b =
      elim (Bool-cases (is_frame_local (s.regions r))) [
        | inl loc ↦ (
          s,
          rw loc refl,
          inc_local n rank s r k lr d e b (ground arith),
          IsCountsOf-refl rank r s,
        )
        | inr heap ↦ elim (Bool-cases ((s.regions r).stack_rc == 0)) [
          | inr held ↦
              let whole : ((s.regions r).stack_rc + k) % rc_mod ≡ (s.regions r).stack_rc + k =
                mod-eq_of_lt (fits r lr (ground arith)) in
              (
                set_rc s r ((s.regions r).stack_rc + k),
                rw (heap, held, whole) refl,
                inc_held n rank s r k lr d e b (ground arith),
                IsCountsOf-set_rc rank r r ((s.regions r).stack_rc + k) s s (omega arith)
                    (IsCountsOf-refl rank r s),
              )
          | inl empty ↦ elim (Owner-cases (s.regions r).owner) [
            | inl (p, own) ↦
                let up = f r p lr own in
                let (s', run, b', c) =
                  stack_inc-Raises fuel s p 1 d e up.0 (omega arith) (omega (arith, up.1))
                    (λ q l d0. omega (arith, fits q l d0)) f b in
                let bare = none_yet r s empty in
                let still : (s'.regions r).stack_rc ≡ 0 =
                  ap (λ g. g.stack_rc) (c.same_above r up.1) ∙ bare in
                let whole = first k (omega (arith, fits r lr (ground arith))) in
                (
                  set_rc s' r k,
                  rw (heap, empty, own, run, still, whole) refl,
                  inc_child s s' r p k d e lr pos own bare up.1 b' c,
                  IsCountsOf-set_rc rank p r k s s' (omega (arith, up.1)) c,
                )
            | inr alone ↦
                let bare = none_yet r s empty in
                let stay : tell_parent (λ p. stack_inc fuel s p 1) s (s.regions r).owner ≡ some s =
                  elim alone [ inl own ↦ rw own refl | inr (c, own) ↦ rw own refl ] in
                let root : (q : ℕ) → is_child (s.regions r).owner q ≡ 0 = elim alone [
                  | inl own ↦ λ q. rw own refl
                  | inr (c, own) ↦ λ q. rw own refl
                ] in
                (
                  set_rc s r k,
                  rw (heap, empty, stay, bare, first k (omega (arith, fits r lr (ground arith))))
                      refl,
                  inc_root n rank s r k lr d e b bare root pos,
                  IsCountsOf-set_rc rank r r k s s (omega arith) (IsCountsOf-refl rank r s),
                )
          ]
        ]
      ]

-- `k` references more to a region, in a forest whose counts are what is outside and the children in use:
-- with fuel above the rank of the region, and counts that fit in 32 bits, `stack_inc` succeeds, every count is
-- again what is outside, now `k` more at the region, and the children in use, and no owner has changed.
pub stack_inc-IsBalanced :
    (n : ℕ) (rank : ℕ → ℕ) (fuel : ℕ) (s : Store) (r k : ℕ) (e : ℕ → ℕ)
    → r < n
    → 0 < k
    → rank r < fuel
    → ((q : ℕ) → q < n → (s.regions q).frame_depth ≡ 0 → (s.regions q).stack_rc + k < rc_mod)
    → IsForest n rank s
    → IsBalanced n s e
    → (s' : Store) × (stack_inc fuel s r k ≡ some s')
      × IsBalanced n s' (more_at e r k)
      × ((q : ℕ) → (s'.regions q).owner ≡ (s.regions q).owner)
stack_inc-IsBalanced n rank fuel s r k e lr pos lf fits f b =
    let (s', run, b', c) =
      stack_inc-Raises n rank fuel s r k (λ q. 0) e lr pos lf fits f (IsBalanced-IsOwed n s e b) in
    (s', run, IsOwed-IsBalanced n s' (more_at e r k) b', c.same_owner)
