-- ===== src/Vbci/Regions/Tests.antt =====
-- Tests of the regions: a chain of three that is in use from its end, an idle child, and two more.
use verona_bc.Prelude.{
  ℕ, zero, suc, ◌+◌, ◌-◌, ◌^◌, ◌<◌, ◌≡◌, ◌⊎◌, Bool, true, false, Option, some, none, List, [], ◌∷◌,
  refl, arith,
}
use verona_bc.Prelude.Sums.{total}
use verona_bc.Vbci.Regions.{
  Owner, unowned, child_of, owned_by, Region, Store, stack_inc, stack_dec, tell_parent, emptied,
  set_parent, clear_parent, clear_cown_owner, is_ancestor_of,
}
use verona_bc.Vbci.Regions.Forest.{active_children, IsBalanced, IsForest, more_at, less_at}
use verona_bc.Vbci.Regions.Inc.{stack_inc-IsBalanced}
use verona_bc.Vbci.Regions.Dec.{stack_dec-IsBalanced}
use verona_bc.Vbci.Regions.Owners.{
  IsOwnedBy, child_of_inj, no_parent, no_parent_cown, set_parent-IsBalanced,
}
use verona_bc.Vbci.Regions.CownOwners.{clear_cown_owner-IsBalanced}
use verona_bc.Vbci.Regions.Ancestors.{IsAncestor, is_ancestor_of-IsAncestor}

abbrev a_region : Owner → ℕ → Region
a_region o rc = record { owner = o; entry_point = none; stack_rc = rc; frame_depth = 0 }

abbrev family : ℕ → Region
family zero = a_region unowned 2
family (suc zero) = a_region (child_of 0) 1
family (suc (suc zero)) = a_region (child_of 1) 1
family (suc (suc (suc zero))) = a_region (child_of 1) 0
family (suc (suc (suc (suc zero)))) = a_region unowned 1
family (suc (suc (suc (suc (suc q))))) = a_region (owned_by 7) 0

abbrev six : Store
six = record { regions = family; freed = [] }

abbrev outside : ℕ → ℕ
outside zero = 1
outside (suc zero) = 0
outside (suc (suc zero)) = 1
outside (suc (suc (suc zero))) = 0
outside (suc (suc (suc (suc zero)))) = 1
outside (suc (suc (suc (suc (suc q))))) = 0

abbrev rank : ℕ → ℕ
rank q = q

six-IsForest : IsForest 6 rank six
six-IsForest zero p l own = absurd (no_parent p own)
six-IsForest (suc zero) p l own = let e = child_of_inj 0 p own in omega (arith, e)
six-IsForest (suc (suc zero)) p l own =
    let e = child_of_inj 1 p own in (omega (arith, e), omega (arith, e))
six-IsForest (suc (suc (suc zero))) p l own =
    let e = child_of_inj 1 p own in (omega (arith, e), omega (arith, e))
six-IsForest (suc (suc (suc (suc zero)))) p l own = absurd (no_parent p own)
six-IsForest (suc (suc (suc (suc (suc q))))) p l own = absurd (no_parent_cown 7 p own)

six-IsBalanced : IsBalanced 6 six outside
unfolding total
six-IsBalanced zero l heap = refl
six-IsBalanced (suc zero) l heap = refl
six-IsBalanced (suc (suc zero)) l heap = refl
six-IsBalanced (suc (suc (suc zero))) l heap = refl
six-IsBalanced (suc (suc (suc (suc zero)))) l heap = refl
six-IsBalanced (suc (suc (suc (suc (suc zero))))) l heap = refl
six-IsBalanced (suc (suc (suc (suc (suc (suc q)))))) l heap = absurd (omega arith)

six-fits : (q : ℕ) → q < 6 → (six.regions q).frame_depth ≡ 0 → (six.regions q).stack_rc + 1 < 2 ^ 32
six-fits zero l d = omega arith
six-fits (suc zero) l d = omega arith
six-fits (suc (suc zero)) l d = omega arith
six-fits (suc (suc (suc zero))) l d = omega arith
six-fits (suc (suc (suc (suc zero)))) l d = omega arith
six-fits (suc (suc (suc (suc (suc q))))) l d = omega arith

abbrev counts : Option Store → List ℕ
counts none = []
counts (some s) =
    (s.regions 0).stack_rc
    ∷ (s.regions 1).stack_rc
    ∷ (s.regions 2).stack_rc
    ∷ (s.regions 3).stack_rc
    ∷ (s.regions 4).stack_rc
    ∷ []

abbrev freed_of : Option Store → List ℕ
freed_of none = []
freed_of (some s) = s.freed

abbrev left : Option (Bool × Store) → Option Store
left none = none
left (some d) = some d.1

-- The first reference to the idle child reaches its parent only, which is in use.
inc_idle : counts (stack_inc 4 six 3 1) ≡ 2 ∷ 2 ∷ 1 ∷ 1 ∷ 1 ∷ []
unfolding stack_inc tell_parent
inc_idle = refl

-- The last reference to the end of the chain goes through to its root.
dec_chain : counts (left (stack_dec 4 six 2 1)) ≡ 1 ∷ 0 ∷ 0 ∷ 0 ∷ 1 ∷ []
unfolding stack_dec emptied
dec_chain = refl

dec_frees : freed_of (left (stack_dec 5 six 4 1)) ≡ 4 ∷ []
unfolding stack_dec emptied
dec_frees = refl

clear_idle : freed_of (clear_parent 4 six 3) ≡ 3 ∷ []
unfolding clear_parent
clear_idle = refl

-- A count that is at its maximum wraps to 0.
abbrev full : Store
full = record { regions = λ q. a_region unowned (2 ^ 32 - 1); freed = [] }

inc_wraps :
    counts (stack_inc 1 full 0 1)
    ≡ 0 ∷ (2 ^ 32 - 1) ∷ (2 ^ 32 - 1) ∷ (2 ^ 32 - 1) ∷ (2 ^ 32 - 1) ∷ []
unfolding stack_inc tell_parent
inc_wraps = refl

stack_inc-IsBalanced_example :
    (s' : Store) × (stack_inc 4 six 3 1 ≡ some s')
    × IsBalanced 6 s' (more_at outside 3 1)
    × ((q : ℕ) → (s'.regions q).owner ≡ (six.regions q).owner)
stack_inc-IsBalanced_example =
    stack_inc-IsBalanced 6 rank 4 six 3 1 outside (omega arith) (omega arith) (omega arith) six-fits
      six-IsForest six-IsBalanced

stack_dec-IsBalanced_example :
    (alive : Bool) × (s' : Store) × (stack_dec 5 six 4 1 ≡ some (alive, s'))
    × IsBalanced 6 s' (less_at outside 4 1)
    × ((q : ℕ) → (s'.regions q).owner ≡ (six.regions q).owner)
    × (((alive ≡ true) × (s'.freed ≡ []))
        ⊎ ((alive ≡ false)
            × ((q : ℕ) × (s'.freed ≡ q ∷ [])
                × ((s'.regions q).owner ≡ unowned)
                × (less_at outside 4 1 q ≡ 0)
                × (active_children 6 s' q ≡ 0))))
stack_dec-IsBalanced_example =
    stack_dec-IsBalanced 6 rank 5 six 4 1 outside (omega arith) (omega arith) (omega arith)
      (omega arith) six-IsForest six-IsBalanced

set_parent-IsBalanced_example :
    (s' : Store) × (set_parent 4 six 4 3 9 ≡ some s')
    × IsOwnedBy 6 rank outside 4 (child_of 3) six s'
set_parent-IsBalanced_example =
    set_parent-IsBalanced 6 rank 4 six 4 3 9 outside (omega arith) (omega arith) (omega arith)
      (omega arith) six-fits refl six-IsForest six-IsBalanced

clear_cown_owner-IsBalanced_example :
    (s' : Store) × (clear_cown_owner six 5 ≡ some s')
    × IsOwnedBy 6 rank outside 5 unowned six s'
    × ((((six.regions 5).stack_rc ≡ 0) × (s'.freed ≡ 5 ∷ []))
        ⊎ ((0 < (six.regions 5).stack_rc) × (s'.freed ≡ [])))
clear_cown_owner-IsBalanced_example =
    clear_cown_owner-IsBalanced 6 rank six 5 7 outside (omega arith) refl six-IsForest
      six-IsBalanced

is_ancestor_of-IsAncestor_example :
    ((is_ancestor_of 3 six 0 2 ≡ some true) × IsAncestor six 0 2)
    ⊎ ((is_ancestor_of 3 six 0 2 ≡ some false) × ¬ IsAncestor six 0 2)
is_ancestor_of-IsAncestor_example =
    is_ancestor_of-IsAncestor 6 rank 3 six 0 2 (omega arith) (omega arith) six-IsForest
