-- ===== src/Vbci/Regions/Dec.antt =====
-- `stack_dec`: a reference less from outside, the climb to the parents, and what is freed.
use verona_bc.Prelude.{
  ℕ, zero, suc, ◌-◌, ◌≤◌, ◌<◌, ◌≡◌, ◌≢◌, ◌⊎◌, inl, inr, Bool, true, false, Option, some, ◌∷◌, ◌==◌,
  ltb, refl, ◌∙◌, arith, Bool-cases,
}
use verona_bc.Vbci.Regions.{
  Owner, unowned, child_of, owned_by, Store, is_frame_local, set_rc, emptied, free_region,
  stack_dec,
}
use verona_bc.Vbci.Regions.Forest.{
  is_child, active_children, IsBalanced, IsForest, more_at, less_at, IsCountsOf, rebalance,
  depth_set, owner_set, put_rc, Owner-cases, IsBalanced-same, IsForest-same, IsCountsOf-refl,
  IsCountsOf-set_rc, IsCountsOf-trans,
}

-- What is freed on the way from `s` to `s'`: nothing, or one region without an owner and with the count 0.
abbrev pub IsFreedIf : ℕ → Bool → Store → Store → Type 0
IsFreedIf n alive s s' =
    ((alive ≡ true) × (s'.freed ≡ s.freed))
    ⊎ ((alive ≡ false)
        × ((q : ℕ) × (q < n)
            × (s'.freed ≡ q ∷ s.freed)
            × ((s'.regions q).owner ≡ unowned)
            × ((s'.regions q).frame_depth ≡ 0)
            × ((s'.regions q).stack_rc ≡ 0)))

-- What `stack_dec` by `k` makes of a store with the outside counts `e`.
abbrev pub Lowers : ℕ → (ℕ → ℕ) → Store → (ℕ → ℕ) → ℕ → ℕ → Option (Bool × Store) → Type 0
Lowers n rank s e r k o =
    (alive : Bool) × (s' : Store) × (o ≡ some (alive, s'))
    × IsBalanced n s' (less_at e r k)
    × IsCountsOf rank r s s'
    × IsFreedIf n alive s s'

module _ (n : ℕ) (s : Store) (r k : ℕ) (lr : r < n) (e : ℕ → ℕ) (b : IsBalanced n s e)
    (enough : k ≤ e r) where
  dec_local : 0 < (s.regions r).frame_depth → IsBalanced n s (less_at e r k)
  dec_local loc q lq dq = elim (Bool-cases (q == r)) [
    | inl same ↦
        let e' : q ≡ r = ground arith in
        let dr : (s.regions r).frame_depth ≡ 0 = rw e' at dq in absurd (omega arith)
    | inr away ↦ ground (arith, b q lq dq)
  ]

  dec_held :
      k < (s.regions r).stack_rc
      → IsBalanced n (set_rc s r ((s.regions r).stack_rc - k)) (less_at e r k)
  dec_held pos =
      rebalance n s r ((s.regions r).stack_rc - k) e (less_at e r k) lr b (λ q h. ground arith)
        (ground arith)

  -- The last reference, where there is no parent to tell.
  dec_root :
      (s.regions r).stack_rc ≡ k
      → ((q : ℕ) → is_child (s.regions r).owner q ≡ 0)
      → IsBalanced n (set_rc s r 0) (less_at e r k)
  dec_root last root =
      rebalance n s r 0 e (less_at e r k) lr b (λ q h. ground (arith, root q))
        (ground (arith, root r))

  -- The last reference to a child: its count is 0, and its parent still has one for it.
  dec_child :
      (p : ℕ)
      → (s.regions r).owner ≡ child_of p
      → (s.regions r).stack_rc ≡ k
      → 0 < k
      → p ≢ r
      → IsBalanced n (set_rc s r 0) (more_at (less_at e r k) p 1)
  dec_child p own last pos apart =
      rebalance n s r 0 e (more_at (less_at e r k) p 1) lr b
        (λ q h. elim (Bool-cases (p == q)) [
          | inl here ↦ rw own (ground arith)
          | inr there ↦ rw own (ground arith)
        ])
        (rw own (ground arith))

pub less_more : (e : ℕ → ℕ) (p q : ℕ) → less_at (more_at e p 1) p 1 q ≡ e q
less_more e p q = ground arith

pub one_more : (e : ℕ → ℕ) (p : ℕ) → 1 ≤ more_at e p 1 p
one_more e p = ground arith

heap_depth :
    (r : ℕ) (s : Store) → is_frame_local (s.regions r) ≡ false → (s.regions r).frame_depth ≡ 0
heap_depth r s h = ground arith

emptied_child :
    (f : ℕ → Option (Bool × Store)) (s : Store) (r p : ℕ) (o : Owner)
    → o ≡ child_of p
    → emptied f s r o ≡ f p
unfolding emptied
emptied_child f s r p o own = rw own refl

dec_empties :
    (fuel : ℕ) (s : Store) (r k : ℕ)
    → is_frame_local (s.regions r) ≡ false
    → ltb (s.regions r).stack_rc k ≡ false
    → (s.regions r).stack_rc - k ≡ 0
    → stack_dec (suc fuel) s r k
      ≡ emptied (λ p. stack_dec fuel (set_rc s r 0) p 1) (set_rc s r 0) r (s.regions r).owner
unfolding stack_dec
dec_empties fuel s r k heap able none_left = rw (heap, able, none_left) refl

-- The root case: the count is 0, and a region without an owner is freed.
dec_last :
    (n : ℕ) (rank : ℕ → ℕ) (s : Store) (r k : ℕ) (e : ℕ → ℕ) (f : ℕ → Option (Bool × Store))
    → r < n
    → k ≤ e r
    → IsBalanced n s e
    → (s.regions r).frame_depth ≡ 0
    → (s.regions r).stack_rc ≡ k
    → ((s.regions r).owner ≡ unowned) ⊎ ((c : ℕ) × ((s.regions r).owner ≡ owned_by c))
    → Lowers n rank s e r k (emptied f (set_rc s r 0) r (s.regions r).owner)
unfolding emptied
dec_last n rank s r k e f lr enough b heap last alone =
    let root : (q : ℕ) → is_child (s.regions r).owner q ≡ 0 = elim alone [
      | inl own ↦ λ q. rw own refl
      | inr (c, own) ↦ λ q. rw own refl
    ] in
    let b' = dec_root n s r k lr e b enough last root in
    let c' = IsCountsOf-set_rc rank r r 0 s s (omega arith) (IsCountsOf-refl rank r s) in
    elim alone [
      | inl own ↦ (
        false,
        free_region (set_rc s r 0) r,
        rw own refl,
        b',
        record {
          same_owner = c'.same_owner;
          same_depth = c'.same_depth;
          same_above = c'.same_above;
        },
        inr (
          refl,
          (r, lr, refl, owner_set n s r 0 r ∙ own, depth_set n s r 0 r ∙ heap, put_rc n s r 0),
        ),
      )
      | inr (c, own) ↦ (true, set_rc s r 0, rw own refl, b', c', inl (refl, refl))
    ]

module _ (n : ℕ) (rank : ℕ → ℕ) where
  pub stack_dec-Lowers :
      (fuel : ℕ) (s : Store) (r k : ℕ) (e : ℕ → ℕ)
      → r < n
      → 0 < k
      → rank r < fuel
      → k ≤ e r
      → IsForest n rank s
      → IsBalanced n s e
      → Lowers n rank s e r k (stack_dec fuel s r k)
  unfolding stack_dec
  stack_dec-Lowers zero s r k e lr pos lf enough f b = absurd (omega arith)
  stack_dec-Lowers (suc fuel) s r k e lr pos lf enough f b =
      elim (Bool-cases (is_frame_local (s.regions r))) [
        | inl loc ↦ (
          true,
          s,
          rw loc refl,
          dec_local n s r k lr e b enough (ground arith),
          IsCountsOf-refl rank r s,
          inl (refl, refl),
        )
        | inr heap ↦
            let has : k ≤ (s.regions r).stack_rc = omega (arith, b r lr (heap_depth r s heap)) in
            let able : ltb (s.regions r).stack_rc k ≡ false = ground arith in
            elim (Bool-cases ((s.regions r).stack_rc - k == 0)) [
              | inr held ↦ (
                true,
                set_rc s r ((s.regions r).stack_rc - k),
                rw (heap, able, held) refl,
                dec_held n s r k lr e b enough (ground arith),
                IsCountsOf-set_rc rank r r ((s.regions r).stack_rc - k) s s (omega arith)
                    (IsCountsOf-refl rank r s),
                inl (refl, refl),
              )
              | inl empty ↦
                  let none_left : (s.regions r).stack_rc - k ≡ 0 = ground arith in
                  let last : (s.regions r).stack_rc ≡ k = omega arith in
                  elim (Owner-cases (s.regions r).owner) [
                    | inl (p, own) ↦
                        let up = f r p lr own in
                        let c1 =
                          IsCountsOf-set_rc rank r r 0 s s (omega arith)
                            (IsCountsOf-refl rank r s) in
                        let apart : p ≢ r = λ i. (let j = rw i at up.1 in omega arith) in
                        let (alive, s', run, b', c, fr) =
                          stack_dec-Lowers fuel (set_rc s r 0) p 1 (more_at (less_at e r k) p 1)
                            up.0 (omega arith) (omega (arith, up.1)) (one_more (less_at e r k) p)
                            (IsForest-same n rank s (set_rc s r 0) (owner_set n s r 0) f)
                            (dec_child n s r k lr e b enough p own last pos apart) in
                        (
                          alive,
                          s',
                          dec_empties fuel s r k heap able none_left
                              ∙ (emptied_child _ (set_rc s r 0) r p _ own ∙ run),
                          IsBalanced-same n s' _ (less_at e r k) (less_more (less_at e r k) p) b',
                          IsCountsOf-trans rank r p s (set_rc s r 0) s' (omega (arith, up.1)) c1 c,
                          fr,
                        )
                    | inr alone ↦
                        let (alive, s', run, b', c, fr) =
                          dec_last n rank s r k e (λ p. stack_dec fuel (set_rc s r 0) p 1) lr enough
                            b (heap_depth r s heap) last alone in
                        (alive, s', dec_empties fuel s r k heap able none_left ∙ run, b', c, fr)
                  ]
            ]
      ]

-- `k` references less to a region that has as many from outside, in a forest whose counts are what is
-- outside and the children in use: with fuel above the rank of the region, `stack_dec` succeeds, every
-- count is again what is outside, now `k` less at the region, and the children in use, no owner has
-- changed, and the answer is false only if one region has been freed, which has no owner, nothing outside
-- and no child in use.
pub stack_dec-IsBalanced :
    (n : ℕ) (rank : ℕ → ℕ) (fuel : ℕ) (s : Store) (r k : ℕ) (e : ℕ → ℕ)
    → r < n
    → 0 < k
    → rank r < fuel
    → k ≤ e r
    → IsForest n rank s
    → IsBalanced n s e
    → (alive : Bool) × (s' : Store) × (stack_dec fuel s r k ≡ some (alive, s'))
      × IsBalanced n s' (less_at e r k)
      × ((q : ℕ) → (s'.regions q).owner ≡ (s.regions q).owner)
      × (((alive ≡ true) × (s'.freed ≡ s.freed))
          ⊎ ((alive ≡ false)
              × ((q : ℕ) × (s'.freed ≡ q ∷ s.freed)
                  × ((s'.regions q).owner ≡ unowned)
                  × (less_at e r k q ≡ 0)
                  × (active_children n s' q ≡ 0))))
stack_dec-IsBalanced n rank fuel s r k e lr pos lf enough f b =
    let (alive, s', run, b', c, fr) = stack_dec-Lowers n rank fuel s r k e lr pos lf enough f b in
    (
      alive,
      s',
      run,
      b',
      c.same_owner,
      elim fr [
        | inl same ↦ inl same
        | inr (dead, (q, lq, freed, own, heap, gone)) ↦ inr (
          dead,
          (q, freed, own, omega (arith, b' q lq heap, gone), omega (arith, b' q lq heap, gone)),
        )
      ],
    )
