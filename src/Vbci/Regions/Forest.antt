-- ===== src/Vbci/Regions/Forest.antt =====
-- What the stack counts of a forest of regions stand for.
use verona_bc.Prelude.{
  ℕ, ◌+◌, ◌-◌, ◌≤◌, ◌<◌, ◌≡◌, ◌≢◌, ◌⊎◌, inl, inr, ◌==◌, ltb, if◌then◌else◌, refl, sym, ap, ◌∙◌,
  arith, Bool-cases,
}
use verona_bc.Prelude.Sums.{total, total_change}
use verona_bc.Vbci.Regions.{Owner, unowned, child_of, owned_by, Region, Store, put, set_rc}

abbrev pub is_child : Owner → ℕ → ℕ
is_child (child_of p) q = if p == q then 1 else 0
is_child unowned q = 0
is_child (owned_by c) q = 0

-- A child counts once for its parent while its own count is positive.
abbrev pub counts_for : Region → ℕ → ℕ
counts_for g q = if ltb 0 g.stack_rc then is_child g.owner q else 0

abbrev pub active_children : ℕ → Store → ℕ → ℕ
active_children n s q = total n (λ i. counts_for (s.regions i) q)

-- The count of every region below `n`, that is not frame-local, is what is outside, `e`, and one for
-- every child with a positive count.
abbrev pub IsBalanced : ℕ → Store → (ℕ → ℕ) → Type 0
IsBalanced n s e =
    (q : ℕ)
    → q < n
    → (s.regions q).frame_depth ≡ 0
    → (s.regions q).stack_rc ≡ e q + active_children n s q

-- The same where the count of a region lacks `d`.
abbrev pub IsOwed : ℕ → Store → (ℕ → ℕ) → (ℕ → ℕ) → Type 0
IsOwed n s d e =
    (q : ℕ)
    → q < n
    → (s.regions q).frame_depth ≡ 0
    → (s.regions q).stack_rc + d q ≡ e q + active_children n s q

-- Parents are among the regions below `n`, and have a smaller rank.
abbrev pub IsForest : ℕ → (ℕ → ℕ) → Store → Type 0
IsForest n rank s =
    (q p : ℕ) → q < n → (s.regions q).owner ≡ child_of p → (p < n) × (rank p < rank q)

-- `k` more from outside on region `r`.
abbrev pub more_at : (ℕ → ℕ) → ℕ → ℕ → ℕ → ℕ
more_at e r k q = if q == r then e q + k else e q

abbrev pub less_at : (ℕ → ℕ) → ℕ → ℕ → ℕ → ℕ
less_at e r k q = if q == r then e q - k else e q

pub Owner-cases :
    (o : Owner) → ((p : ℕ) × (o ≡ child_of p)) ⊎ ((o ≡ unowned) ⊎ ((c : ℕ) × (o ≡ owned_by c)))
Owner-cases unowned = inr (inl refl)
Owner-cases (child_of p) = inl (p, refl)
Owner-cases (owned_by c) = inr (inr (c, refl))

pub put_same : (f : ℕ → Region) (r : ℕ) (g : Region) → put f r g r ≡ g
put_same f r g = ground arith

pub put_other : (f : ℕ → Region) (r q : ℕ) (g : Region) → q ≢ r → put f r g q ≡ f q
put_other f r q g h = ground arith

-- A store that differs from `s` in counts only, and only for regions of the rank of `r` or less.
pub record IsCountsOf (rank : ℕ → ℕ) (r : ℕ) (s s' : Store) : Type 0 where
  pub same_owner : (q : ℕ) → (s'.regions q).owner ≡ (s.regions q).owner
  pub same_depth : (q : ℕ) → (s'.regions q).frame_depth ≡ (s.regions q).frame_depth
  pub same_above : (q : ℕ) → rank r < rank q → s'.regions q ≡ s.regions q

-- What the new region `g` at `r` changes for `q`.
pub active_put :
    (n : ℕ) (s : Store) (r : ℕ) (g : Region) (q : ℕ)
    → r < n
    → active_children n (record s { regions = put s.regions r g }) q + counts_for (s.regions r) q
      ≡ active_children n s q + counts_for g q
active_put n s r g q lr =
    let after = λ (i : ℕ). counts_for (put s.regions r g i) q in
    let here : after r ≡ counts_for g q = ap (λ h. counts_for h q) (put_same s.regions r g) in
    omega (
      arith,
      here,
      total_change n r (λ i. counts_for (s.regions i) q) after lr
          (λ i h. ap (λ h'. counts_for h' q) (sym (put_other s.regions r i g h))),
    )

pub IsBalanced-IsOwed : (n : ℕ) (s : Store) (e : ℕ → ℕ) → IsBalanced n s e → IsOwed n s (λ q. 0) e
IsBalanced-IsOwed n s e b q lq dq = omega (arith, b q lq dq)

pub IsOwed-IsBalanced : (n : ℕ) (s : Store) (e : ℕ → ℕ) → IsOwed n s (λ q. 0) e → IsBalanced n s e
IsOwed-IsBalanced n s e b q lq dq = omega (arith, b q lq dq)

module _ (n : ℕ) (s : Store) (r v : ℕ) where
  pub rc_set :
      (q : ℕ) → ((set_rc s r v).regions q).stack_rc ≡ (if q == r then v else (s.regions q).stack_rc)
  rc_set q = ground arith

  pub depth_set : (q : ℕ) → ((set_rc s r v).regions q).frame_depth ≡ (s.regions q).frame_depth
  depth_set q = ground arith

  pub owner_set : (q : ℕ) → ((set_rc s r v).regions q).owner ≡ (s.regions q).owner
  owner_set q = ground arith

  pub put_rc : ((set_rc s r v).regions r).stack_rc ≡ v
  put_rc = ground arith

  pub put_rc_other : (q : ℕ) → q ≢ r → ((set_rc s r v).regions q).stack_rc ≡ (s.regions q).stack_rc
  put_rc_other q h = ground arith

  -- The sums for the new count, where the outside counts `e'` make up for what the children count.
  pub IsOwed-set_rc :
      (d e e' : ℕ → ℕ)
      → r < n
      → IsOwed n s d e
      → ((q : ℕ)
          → q ≢ r
          → e' q + counts_for (record (s.regions r) { stack_rc = v }) q
            ≡ e q + counts_for (s.regions r) q)
      → v + e r + counts_for (s.regions r) r
        ≡ (s.regions r).stack_rc + e' r + counts_for (record (s.regions r) { stack_rc = v }) r
      → IsOwed n (set_rc s r v) d e'
  IsOwed-set_rc d e e' lr b other here q lq dq = elim (Bool-cases (q == r)) [
    | inl at_r ↦
        let same : q ≡ r = ground arith in
        let dr : (s.regions r).frame_depth ≡ 0 = rw same at (sym (depth_set q) ∙ dq) in
        rw same (
          omega (
            arith,
            put_rc,
            active_put n s r (record (s.regions r) { stack_rc = v }) r lr,
            b r lr dr,
            here,
          ))
    | inr away ↦
        let apart : q ≢ r = ground arith in
        omega (
          arith,
          put_rc_other q apart,
          active_put n s r (record (s.regions r) { stack_rc = v }) q lr,
          b q lq (sym (depth_set q) ∙ dq),
          other q apart,
        )
  ]

  pub rebalance :
      (e e' : ℕ → ℕ)
      → r < n
      → IsBalanced n s e
      → ((q : ℕ)
          → q ≢ r
          → e' q + counts_for (record (s.regions r) { stack_rc = v }) q
            ≡ e q + counts_for (s.regions r) q)
      → v + e r + counts_for (s.regions r) r
        ≡ (s.regions r).stack_rc + e' r + counts_for (record (s.regions r) { stack_rc = v }) r
      → IsBalanced n (set_rc s r v) e'
  rebalance e e' lr b other here =
      IsOwed-IsBalanced n (set_rc s r v) e'
        (IsOwed-set_rc (λ q. 0) e e' lr (IsBalanced-IsOwed n s e b) other here)

pub IsCountsOf-refl : (rank : ℕ → ℕ) (r : ℕ) (s : Store) → IsCountsOf rank r s s
IsCountsOf-refl rank r s = record {
  same_owner = λ q. refl;
  same_depth = λ q. refl;
  same_above = λ q h. refl;
}

-- A new count after changes to regions of smaller rank.
pub IsCountsOf-set_rc :
    (rank : ℕ → ℕ) (p r v : ℕ) (s s' : Store)
    → rank p ≤ rank r
    → IsCountsOf rank p s s'
    → IsCountsOf rank r s (set_rc s' r v)
IsCountsOf-set_rc rank p r v s s' h c = record {
  same_owner = λ q. owner_set 0 s' r v q ∙ c.same_owner q;
  same_depth = λ q. depth_set 0 s' r v q ∙ c.same_depth q;
  same_above = λ q l.
      put_other s'.regions r q _ (λ e. absurd (rank_apart q l e)) ∙ c.same_above q (omega arith);
}
  where
    rank_apart : (q : ℕ) → rank r < rank q → q ≡ r → ⊥
    rank_apart q l e = let l' = rw e at l in omega arith

pub IsBalanced-same :
    (n : ℕ) (s : Store) (e e' : ℕ → ℕ)
    → ((q : ℕ) → e q ≡ e' q)
    → IsBalanced n s e
    → IsBalanced n s e'
IsBalanced-same n s e e' h b q lq dq = omega (arith, h q, b q lq dq)

pub IsForest-same :
    (n : ℕ) (rank : ℕ → ℕ) (s s' : Store)
    → ((q : ℕ) → (s'.regions q).owner ≡ (s.regions q).owner)
    → IsForest n rank s
    → IsForest n rank s'
IsForest-same n rank s s' h f q p lq own = f q p lq (sym (h q) ∙ own)

pub IsCountsOf-trans :
    (rank : ℕ → ℕ) (r p : ℕ) (s s' s'' : Store)
    → rank p ≤ rank r
    → IsCountsOf rank r s s'
    → IsCountsOf rank p s' s''
    → IsCountsOf rank r s s''
IsCountsOf-trans rank r p s s' s'' h c c' = record {
  same_owner = λ q. c'.same_owner q ∙ c.same_owner q;
  same_depth = λ q. c'.same_depth q ∙ c.same_depth q;
  same_above = λ q l. c'.same_above q (omega arith) ∙ c.same_above q l;
}
