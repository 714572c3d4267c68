-- ===== src/Vbci/WriteBarrier/Exact.antt =====
-- `exchange` and the stack counts: a field of a region on the heap gets a region as a new child, and the child
-- it had goes to the result.
use verona_bc.Prelude.{ℕ, ◌+◌, ◌≤◌, ◌<◌, ◌≡◌, inl, inr, false, some, ◌∙◌, arith}
use verona_bc.Prelude.Sums.{total-le}
use verona_bc.Vbci.Regions.{
  Store, Region, Owner, unowned, child_of, owned_by, rc_mod, is_ancestor_of, stack_inc,
  clear_parent,
}
use verona_bc.Vbci.Regions.Forest.{
  is_child, counts_for, IsBalanced, IsForest, IsForest-same, IsBalanced-IsOwed, IsOwed-IsBalanced,
  more_at, less_at,
}
use verona_bc.Vbci.Regions.Inc.{stack_inc-Raises}
use verona_bc.Vbci.Regions.Owners.{IsOwnedBy, clear_parent-IsBalanced}
use verona_bc.Vbci.Regions.Ancestors.{IsAncestor, parent, above, is_ancestor_of-IsAncestor}

IsAncestor-rank :
    (n : ℕ) (rank : ℕ → ℕ) (s : Store) (a r : ℕ)
    → IsForest n rank s
    → r < n
    → IsAncestor s a r
    → rank a < rank r
IsAncestor-rank n rank s a r f lr (parent own) = (f r a lr own).1
IsAncestor-rank n rank s a r f lr (above own h) =
    let up = f r _ lr own in omega (arith, up.1, IsAncestor-rank n rank s a _ f up.0 h)

-- A region is no ancestor of one of a smaller rank.
pub not_ancestor :
    (n : ℕ) (rank : ℕ → ℕ) (fuel : ℕ) (s : Store) (a r : ℕ)
    → r < n
    → rank r < fuel
    → rank r < rank a
    → IsForest n rank s
    → is_ancestor_of fuel s a r ≡ some false
not_ancestor n rank fuel s a r lr lf below f =
    elim (is_ancestor_of-IsAncestor n rank fuel s a r lr lf f) [
      | inl (run, h) ↦ absurd (omega (arith, IsAncestor-rank n rank s a r f lr h))
      | inr (run, h) ↦ run
    ]

is_child-le : (o : Owner) (q : ℕ) → is_child o q ≤ 1
is_child-le unowned q = omega arith
is_child-le (child_of p) q = ground arith
is_child-le (owned_by c) q = omega arith

counts_for-le : (g : Region) (q : ℕ) → counts_for g q ≤ 1
counts_for-le g q = ground (arith, is_child-le g.owner q)

-- Counts fit if what is outside and the number of regions do.
pub balanced-fits :
    (n : ℕ) (s : Store) (e : ℕ → ℕ)
    → ((q : ℕ) → q < n → e q + n + 1 < rc_mod)
    → IsBalanced n s e
    → (q : ℕ) → q < n
    → (s.regions q).frame_depth ≡ 0
    → (s.regions q).stack_rc + 1 < rc_mod
balanced-fits n s e room b q lq dq = omega (
  arith,
  room q lq,
  b q lq dq,
  total-le n (λ i. counts_for (s.regions i) q) (λ i. counts_for-le (s.regions i) q),
)

pub less_at-le : (e : ℕ → ℕ) (r q : ℕ) → less_at e r 1 q ≤ e q
less_at-le e r q = ground arith

-- The region of the old value gets a reference for the result, and loses its parent.
pub release_old :
    (n : ℕ) (rank : ℕ → ℕ) (fuel : ℕ) (s : Store) (st out : ℕ) (e : ℕ → ℕ)
    → out < n
    → rank st < fuel
    → rank out < fuel
    → ((q : ℕ) → q < n → e q + n + 1 < rc_mod)
    → (s.regions out).owner ≡ child_of st
    → (s.regions out).frame_depth ≡ 0
    → IsForest n rank s
    → IsBalanced n s e
    → (s1 s2 : Store) × (stack_inc fuel s out 1 ≡ some s1)
      × (clear_parent fuel s1 out ≡ some s2)
      × IsOwnedBy n rank (more_at e out 1) out unowned s s2
release_old n rank fuel s st out e lo lf lf' room own heap f b =
    let (s1, run1, b1, c1) =
      stack_inc-Raises n rank fuel s out 1 (λ q. 0) e lo (omega arith) lf'
        (balanced-fits n s e room b) f (IsBalanced-IsOwed n s e b) in
    let f1 = IsForest-same n rank s s1 c1.same_owner f in
    let (s2, run2, (b2, f2, o2, others, depths), fr) =
      clear_parent-IsBalanced n rank fuel s1 out st (more_at e out 1) lo lf
        (c1.same_owner out ∙ own) (c1.same_depth out ∙ heap) f1
        (IsOwed-IsBalanced n s1 (more_at e out 1) b1) in
    (
      s1,
      s2,
      run1,
      run2,
      (b2, f2, o2, (λ x h. others x h ∙ c1.same_owner x), (λ x. depths x ∙ c1.same_depth x)),
    )
