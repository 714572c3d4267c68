-- ===== src/Vbci/Regions/Owners.antt =====
-- `set_parent` and `clear_parent`: the stack counts when the forest of regions changes.
use verona_bc.Prelude.{
  ℕ, ◌+◌, ◌<◌, ◌≡◌, ◌≢◌, ◌⊎◌, inl, inr, Bool, false, Option, none, some, ◌∷◌, ◌==◌, ltb,
  if◌then◌else◌, refl, sym, ap, ◌∙◌, arith, Bool-cases,
}
use verona_bc.Prelude.Fallible.{◌>>=◌}
use verona_bc.Vbci.Regions.{
  Owner, unowned, child_of, owned_by, Store, rc_mod, set_owner, free_region, stack_dec, set_parent,
  clear_parent, has_owner,
}
use verona_bc.Vbci.Regions.Forest.{
  is_child, counts_for, active_put, IsBalanced, IsOwed, IsForest, more_at, less_at, IsBalanced-same,
  IsForest-same, IsOwed-IsBalanced,
}
use verona_bc.Vbci.Regions.Inc.{stack_inc-Raises}
use verona_bc.Vbci.Regions.Dec.{stack_dec-Lowers, IsFreedIf, less_more, one_more}

module _ (n : ℕ) (s : Store) (q : ℕ) (o : Owner) (entry : Option ℕ) where
  rc_owner : (x : ℕ) → ((set_owner s q o entry).regions x).stack_rc ≡ (s.regions x).stack_rc
  rc_owner x = ground arith

  pub depth_owner :
      (x : ℕ) → ((set_owner s q o entry).regions x).frame_depth ≡ (s.regions x).frame_depth
  depth_owner x = ground arith

  pub new_owner : ((set_owner s q o entry).regions q).owner ≡ o
  new_owner = ground arith

  pub old_owner : (x : ℕ) → x ≢ q → ((set_owner s q o entry).regions x).owner ≡ (s.regions x).owner
  old_owner x h = ground arith

  -- The sums for the new owner `o`, with the debts `d` and the outside counts `e'` to make up for it.
  pub owner_change :
      (d e e' : ℕ → ℕ)
      → q < n
      → IsBalanced n s e
      → ((x : ℕ)
          → d x + e x + counts_for (s.regions q) x
            ≡ e' x + counts_for (record (s.regions q) { owner = o; entry_point = entry }) x)
      → IsOwed n (set_owner s q o entry) d e'
  owner_change d e e' lq b h x lx dx = omega (
    arith,
    rc_owner x,
    active_put n s q (record (s.regions q) { owner = o; entry_point = entry }) x lq,
    b x lx (sym (depth_owner x) ∙ dx),
    h x,
  )

-- The owner of `q` is now `o`, which has a smaller rank if it is a region.
pub IsForest-owner :
    (n : ℕ) (rank : ℕ → ℕ) (s : Store) (q : ℕ) (o : Owner) (entry : Option ℕ)
    → IsForest n rank s
    → ((p : ℕ) → o ≡ child_of p → (p < n) × (rank p < rank q))
    → IsForest n rank (set_owner s q o entry)
IsForest-owner n rank s q o entry f h x p lx own = elim (Bool-cases (x == q)) [
  | inl here ↦
      let same : x ≡ q = ground arith in
      let own' : ((set_owner s q o entry).regions q).owner ≡ child_of p = rw same at own in
      rw same (h p (sym (new_owner n s q o entry) ∙ own'))
  | inr there ↦
      let apart : x ≢ q = ground arith in f x p lx (sym (old_owner n s q o entry x apart) ∙ own)
]

pub child_of_inj : (r p : ℕ) → child_of r ≡ child_of p → r ≡ p
child_of_inj r p h = ap (λ o. elim o [ child_of x ↦ x | _ ↦ 0 ]) h

pub no_parent : (p : ℕ) → unowned ≡ child_of p → ⊥
no_parent p h = let no = ap (λ o. is_child o p) h in ground arith

pub no_parent_cown : (c p : ℕ) → owned_by c ≡ child_of p → ⊥
no_parent_cown c p h = let no = ap (λ o. is_child o p) h in ground arith

-- What `s'` is after a change of the owner of `q` in `s` to `o`, and of no other owner.
abbrev pub IsOwnedBy : ℕ → (ℕ → ℕ) → (ℕ → ℕ) → ℕ → Owner → Store → Store → Type 0
IsOwnedBy n rank e q o s s' =
    IsBalanced n s' e
    × IsForest n rank s'
    × ((s'.regions q).owner ≡ o)
    × ((x : ℕ) → x ≢ q → (s'.regions x).owner ≡ (s.regions x).owner)
    × ((x : ℕ) → (s'.regions x).frame_depth ≡ (s.regions x).frame_depth)

settled : (e : ℕ → ℕ) (r x : ℕ) → more_at e r 1 x ≡ e x + is_child (child_of r) x
settled e r x = ground arith

-- A region without an owner, that has a larger rank than `r`, becomes a child of `r`: in a balanced
-- forest, with fuel above the rank of `r` and counts that fit in 32 bits, `set_parent` succeeds, and the
-- forest is balanced for the same outside counts, so the parent has got a reference exactly if the child is
-- in use.
pub set_parent-IsBalanced :
    (n : ℕ) (rank : ℕ → ℕ) (fuel : ℕ) (s : Store) (q r entry : ℕ) (e : ℕ → ℕ)
    → q < n
    → r < n
    → rank r < rank q
    → rank r < fuel
    → ((x : ℕ) → x < n → (s.regions x).frame_depth ≡ 0 → (s.regions x).stack_rc + 1 < rc_mod)
    → (s.regions q).owner ≡ unowned
    → IsForest n rank s
    → IsBalanced n s e
    → (s' : Store) × (set_parent fuel s q r entry ≡ some s')
      × IsOwnedBy n rank e q (child_of r) s s'
unfolding set_parent
set_parent-IsBalanced n rank fuel s q r entry e lq lr rk lf fits own f b =
    let bare : has_owner (s.regions q) ≡ false = rw own refl in
    let s1 = set_owner s q (child_of r) (some entry) in
    let f1 =
      IsForest-owner n rank s q (child_of r) (some entry) f
        (λ p h. let same = child_of_inj r p h in ((rw same at lr), (rw same at rk))) in
    elim (Bool-cases (ltb 0 (s.regions q).stack_rc)) [
      | inl used ↦
          let owed =
            owner_change n s q (child_of r) (some entry) (is_child (child_of r)) e e lq b
              (λ x. rw own (ground arith)) in
          let (s', run, b', c) =
            stack_inc-Raises n rank fuel s1 r 1 (is_child (child_of r)) e lr (omega arith) lf
              (λ x lx dx. omega (
                arith,
                rc_owner n s q (child_of r) (some entry) x,
                fits x lx (sym (depth_owner n s q (child_of r) (some entry) x) ∙ dx),
              ))
              f1 owed in
          (
            s',
            rw (bare, used) run,
            (
              λ x lx dx. omega (arith, b' x lx dx, settled e r x),
              IsForest-same n rank s1 s' c.same_owner f1,
              c.same_owner q ∙ new_owner n s q (child_of r) (some entry),
              (λ x h. c.same_owner x ∙ old_owner n s q (child_of r) (some entry) x h),
              (λ x. c.same_depth x ∙ depth_owner n s q (child_of r) (some entry) x),
            ),
          )
      | inr idle ↦ (
        s1,
        rw (bare, idle) refl,
        (
          IsOwed-IsBalanced n s1 e (
              owner_change n s q (child_of r) (some entry) (λ x. 0) e e lq b
                (λ x. rw own (ground arith))),
          f1,
          new_owner n s q (child_of r) (some entry),
          old_owner n s q (child_of r) (some entry),
          depth_owner n s q (child_of r) (some entry),
        ),
      )
    ]

clear-parent :
    (fuel : ℕ) (s : Store) (q p : ℕ)
    → (s.regions q).owner ≡ child_of p
    → clear_parent fuel s q ≡ (
        let s' = set_owner s q unowned none in
        if ltb 0 (s.regions q).stack_rc
        then (do d ← stack_dec fuel s' p 1; some d.1)
        else some (free_region s' q))
unfolding clear_parent
clear-parent fuel s q p own = rw (clear_parent, own) refl

pub clear_parent-unowned :
    (fuel : ℕ) (s : Store) (q : ℕ) → (s.regions q).owner ≡ unowned → clear_parent fuel s q ≡ none
unfolding clear_parent
clear_parent-unowned fuel s q own = rw (clear_parent, own) refl

released : (e : ℕ → ℕ) (p x : ℕ) → e x + is_child (child_of p) x ≡ more_at e p 1 x
released e p x = ground arith

pub clear_parent-IsBalanced :
    (n : ℕ) (rank : ℕ → ℕ) (fuel : ℕ) (s : Store) (q p : ℕ) (e : ℕ → ℕ)
    → q < n
    → rank p < fuel
    → (s.regions q).owner ≡ child_of p
    → (s.regions q).frame_depth ≡ 0
    → IsForest n rank s
    → IsBalanced n s e
    → (s' : Store) × (clear_parent fuel s q ≡ some s')
      × IsOwnedBy n rank e q unowned s s'
      × (((s.regions q).stack_rc ≡ 0) × (s'.freed ≡ q ∷ s.freed)
          ⊎ ((alive : Bool) × IsFreedIf n alive s s'))
clear_parent-IsBalanced n rank fuel s q p e lq lf own heap f b =
    let s1 = set_owner s q unowned none in
    let f1 : IsForest n rank s1 =
      IsForest-owner n rank s q unowned none f (λ x h. absurd (no_parent x h)) in
    elim (Bool-cases (ltb 0 (s.regions q).stack_rc)) [
      | inl used ↦
          let owed =
            owner_change n s q unowned none (λ x. 0) e (more_at e p 1) lq b
              (λ x. rw own (ground (arith, released e p x))) in
          let (alive, s', run, b', c, fr) =
            stack_dec-Lowers n rank fuel s1 p 1 (more_at e p 1) (f q p lq own).0 (omega arith) lf
              (one_more e p) f1 (IsOwed-IsBalanced n s1 (more_at e p 1) owed) in
          (
            s',
            clear-parent fuel s q p own ∙ rw (used, run) refl,
            (
              IsBalanced-same n s' (less_at (more_at e p 1) p 1) e (less_more e p) b',
              IsForest-same n rank s1 s' c.same_owner f1,
              c.same_owner q ∙ new_owner n s q unowned none,
              (λ x h. c.same_owner x ∙ old_owner n s q unowned none x h),
              (λ x. c.same_depth x ∙ depth_owner n s q unowned none x),
            ),
            inr (alive, fr),
          )
      | inr idle ↦ (
        free_region s1 q,
        clear-parent fuel s q p own ∙ rw idle refl,
        (
          IsOwed-IsBalanced n s1 e
              (owner_change n s q unowned none (λ x. 0) e e lq b (λ x. rw own (ground arith))),
          f1,
          new_owner n s q unowned none,
          old_owner n s q unowned none,
          depth_owner n s q unowned none,
        ),
        inl (ground arith, refl),
      )
    ]
