-- ===== src/Vbci/Regions.antt =====
-- The ownership and the stack counts of regions: `Region` of vbci/region.h. Region pointers are numbers,
-- and a store has the region at each.
pub mod Forest
pub mod Inc
pub mod Dec
pub mod Owners
pub mod CownOwners
pub mod Ancestors
pub mod Tests
use verona_bc.Prelude.{
  ℕ, zero, suc, ◌+◌, ◌-◌, ◌%◌, ◌^◌, Bool, true, false, Option, none, some, List, ◌∷◌, ◌==◌, ltb,
  if◌then◌else◌,
}
use verona_bc.Prelude.Fallible.{◌>>=◌}

-- `parent`, `cown_owner_ptr` and `cown_owned`.
pub data Owner : Type 0 where
  unowned : Owner
  child_of : ℕ → Owner
  owned_by : ℕ → Owner

-- The kind of the region, `type`, is left out: no function below reads it.
pub record Region : Type 0 where
  pub owner : Owner
  pub entry_point : Option ℕ
  pub stack_rc : ℕ
  pub frame_depth : ℕ

-- `freed` has the regions handed to `collect`, the latest first.
pub record Store : Type 0 where
  pub regions : ℕ → Region
  pub freed : List ℕ

-- `RC` is uint32_t.
abbrev pub rc_mod : ℕ
rc_mod = 2 ^ 32

abbrev pub is_frame_local : Region → Bool
is_frame_local g = ltb 0 g.frame_depth

abbrev pub has_parent : Region → Bool
has_parent g = elim g.owner [ child_of p ↦ true | _ ↦ false ]

abbrev pub has_cown_owner : Region → Bool
has_cown_owner g = elim g.owner [ owned_by c ↦ true | _ ↦ false ]

abbrev pub has_owner : Region → Bool
has_owner g = elim g.owner [ unowned ↦ false | _ ↦ true ]

abbrev pub put : (ℕ → Region) → ℕ → Region → ℕ → Region
put f r g q = if q == r then g else f q

abbrev pub set_rc : Store → ℕ → ℕ → Store
set_rc s r n = record s { regions = put s.regions r (record (s.regions r) { stack_rc = n }) }

abbrev pub set_owner : Store → ℕ → Owner → Option ℕ → Store
set_owner s r o e = record s {
  regions = put s.regions r (record (s.regions r) { owner = o; entry_point = e });
}

-- The assertions of `free_region` hold where it is called; `collect` is the rest of it.
abbrev pub free_region : Store → ℕ → Store
free_region s r = record s { freed = r ∷ s.freed }

-- `if (has_parent()) get_parent()->stack_inc()`; the call is an argument.
tell_parent : (ℕ → Option Store) → Store → Owner → Option Store
tell_parent f s unowned = some s
tell_parent f s (child_of p) = f p
tell_parent f s (owned_by c) = some s

-- The fuel is for the chain of parents; `none` is a failed assertion.
pub stack_inc : ℕ → Store → ℕ → ℕ → Option Store
unfolding tell_parent
stack_inc zero s r inc = none
stack_inc (suc fuel) s r inc = if is_frame_local (s.regions r) then some s else (do
  s' ←
      (if (s.regions r).stack_rc == 0
        then tell_parent (λ p. stack_inc fuel s p 1) s (s.regions r).owner
        else some s)
  some (set_rc s' r (((s'.regions r).stack_rc + inc) % rc_mod)))

-- What `stack_dec` does when the count reaches 0, in a store with the new count.
emptied : (ℕ → Option (Bool × Store)) → Store → ℕ → Owner → Option (Bool × Store)
emptied f s r unowned = some (false, free_region s r)
emptied f s r (child_of p) = f p
emptied f s r (owned_by c) = some (true, s)

-- The Boolean is false if the region, or a parent with it, has been freed.
pub stack_dec : ℕ → Store → ℕ → ℕ → Option (Bool × Store)
unfolding emptied
stack_dec zero s r dec = none
stack_dec (suc fuel) s r dec =
    let left = (s.regions r).stack_rc - dec in
    let s' = set_rc s r left in
    if is_frame_local (s.regions r)
    then some (true, s)
    else if ltb (s.regions r).stack_rc dec
    then none
    else if left == 0
    then emptied (λ p. stack_dec fuel s' p 1) s' r (s.regions r).owner
    else some (true, s')

-- `while (r->has_parent())`, up the chain of parents.
pub is_ancestor_of : ℕ → Store → ℕ → ℕ → Option Bool
is_ancestor_of zero s a r = none
is_ancestor_of (suc fuel) s a r = elim (s.regions r).owner [
  | child_of p ↦ if p == a then some true else is_ancestor_of fuel s a p
  | _ ↦ some false
]

-- The stack count of the region must be positive.
pub sendable : Store → ℕ → Option Bool
sendable s r =
    if (s.regions r).stack_rc == 0
    then none
    else some (if has_owner (s.regions r) then false else (s.regions r).stack_rc == 1)

pub set_parent : ℕ → Store → ℕ → ℕ → ℕ → Option Store
set_parent fuel s q r entry =
    if has_owner (s.regions q)
    then none
    else let s' = set_owner s q (child_of r) (some entry) in
      if ltb 0 (s.regions q).stack_rc then stack_inc fuel s' r 1 else some s'

-- A region that a cown owns has no parent to clear, and clear_parent is not called for one.
pub clear_parent : ℕ → Store → ℕ → Option Store
clear_parent fuel s q = elim (s.regions q).owner [
  | child_of p ↦
      (let s' = set_owner s q unowned none in
        if ltb 0 (s.regions q).stack_rc
        then (do d ← stack_dec fuel s' p 1; some d.1)
        else some (free_region s' q))
  | _ ↦ none
]

pub set_cown_owner : Store → ℕ → ℕ → ℕ → Option Store
set_cown_owner s q owner entry =
    if has_owner (s.regions q) then none else some (set_owner s q (owned_by owner) (some entry))

pub clear_cown_owner : Store → ℕ → Option Store
clear_cown_owner s q = elim (s.regions q).owner [
  | owned_by c ↦
      (let s' = set_owner s q unowned none in
        some (if (s.regions q).stack_rc == 0 then free_region s' q else s'))
  | _ ↦ none
]
