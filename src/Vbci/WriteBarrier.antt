-- ===== src/Vbci/WriteBarrier.antt =====
-- The write barrier: `write_ops`, `exchange`, `init` and `drop` of vbci/writebarrier.h, over the regions. What
-- the program's values are is left out: a header is a number, and the walk of drag_allocation over the
-- objects is an argument, `drag`, that may change the store and the pointer it is given.
pub mod Apply
pub mod Plan
pub mod Runs
pub mod Exact
pub mod Exchange
pub mod Drops
pub mod Tests
use verona_bc.Prelude.{
  ℕ, zero, suc, ◌+◌, Bool, true, false, not, ◌&&◌, ◌||◌, Option, none, some, List, [], ◌∷◌, ◌++◌,
  ◌==◌, ltb, if◌then◌else◌, get_elem?,
}
use verona_bc.Prelude.Fallible.{◌>>=◌}
use verona_bc.Prelude.Integers.{ℤ, pos, negsuc, ◌+ℤ◌}
use verona_bc.Vbci.Location.{
  is_region, is_stack, is_immortal, is_immutable, immortal, to_region, stack_index,
}
use verona_bc.Vbci.Regions.{
  Store, Region, is_frame_local, has_owner, has_parent, is_ancestor_of, stack_inc, stack_dec,
  set_parent, clear_parent,
}

-- The stack counts are int8_t; they stay between -1 and 2.
pub record WriteOps : Type 0 where
  pub store_loc : ℕ
  pub out_loc : ℕ
  pub in_loc : ℕ
  pub ok : Bool
  pub need_in_drag : Bool
  pub in_drag_value : Option ℕ
  pub need_in_inc : Bool
  pub need_in_clear : Bool
  pub need_in_stack_inc : ℤ
  pub need_in_parent : Bool
  pub in_parent_value : Option ℕ
  pub need_out_dec : Bool
  pub need_out_stack_inc : ℤ
  pub need_out_clear_parent : Bool
  pub out_clear_parent_region : Option ℕ

abbrev pub no_ops : WriteOps
no_ops = record {
  store_loc = immortal;
  out_loc = immortal;
  in_loc = immortal;
  ok = true;
  need_in_drag = false;
  in_drag_value = none;
  need_in_inc = false;
  need_in_clear = false;
  need_in_stack_inc = pos 0;
  need_in_parent = false;
  in_parent_value = none;
  need_out_dec = false;
  need_out_stack_inc = pos 0;
  need_out_clear_parent = false;
  out_clear_parent_region = none;
}

abbrev pub fail : WriteOps → WriteOps
fail o = record o { ok = false }

abbrev pub in_inc : WriteOps → WriteOps
in_inc o = record o { need_in_inc = true }

abbrev pub in_clear : WriteOps → WriteOps
in_clear o = record o { need_in_clear = true }

abbrev pub in_stack_inc : WriteOps → WriteOps
in_stack_inc o = record o { need_in_stack_inc = o.need_in_stack_inc +ℤ pos 1 }

abbrev pub in_stack_dec : WriteOps → WriteOps
in_stack_dec o = record o { need_in_stack_inc = o.need_in_stack_inc +ℤ negsuc 0 }

abbrev pub in_drag : ℕ → WriteOps → WriteOps
in_drag r o = record o { need_in_drag = true; in_drag_value = some r }

abbrev pub in_parent : ℕ → WriteOps → WriteOps
in_parent r o = record o { need_in_parent = true; in_parent_value = some r }

abbrev pub out_stack_inc : WriteOps → WriteOps
out_stack_inc o = record o { need_out_stack_inc = o.need_out_stack_inc +ℤ pos 1 }

-- It is called for an `out_loc` that is a region.
abbrev pub out_clear_parent : WriteOps → WriteOps
out_clear_parent o = record o {
  need_out_clear_parent = true;
  out_clear_parent_region = some o.out_loc;
}

-- Storage whose references count for the stack count of what they refer to.
abbrev pub on_frame : Store → ℕ → Bool
on_frame s loc = is_stack loc || (is_region loc && is_frame_local (s.regions loc))

abbrev pub prepare_store : ℕ → WriteOps → WriteOps
prepare_store loc o =
    let o' = record o { store_loc = loc } in
    if is_immutable loc || is_immortal loc then fail o' else o'

abbrev pub prepare_out : Store → ℕ → WriteOps → WriteOps
prepare_out s loc o =
    let o' = record o { out_loc = loc } in
    let counted = if on_frame s o.store_loc then o' else out_stack_inc o' in
    if not o.ok
    then o'
    else if is_region loc
    then (if o.store_loc == loc then counted else out_clear_parent counted)
    else o'

-- `none` is a failed assertion, or an access past the frames.
abbrev pub prepare_in_stack : WriteOps → Option WriteOps
prepare_in_stack o =
    if is_stack o.store_loc
    then (do
      at ← stack_index o.store_loc
      of ← stack_index o.in_loc
      some (if ltb at of then fail o else o))
    else some (fail o)

-- `frames` has the region of each frame, for Thread::frame_region_for_stack.
abbrev pub prepare_in_local : List ℕ → Store → WriteOps → Option WriteOps
prepare_in_local frames s o =
    if is_stack o.store_loc
    then (do
      at ← stack_index o.store_loc
      if ltb at (s.regions o.in_loc).frame_depth
          then (do r ← get_elem? frames at; some (in_drag r o))
          else some o)
    else (do
      store_r ← to_region o.store_loc
      some (
          if is_frame_local (s.regions store_r)
          then (if ltb (s.regions store_r).frame_depth (s.regions o.in_loc).frame_depth
              then in_drag store_r o
              else o)
          else in_drag store_r o))

abbrev pub prepare_in_heap : ℕ → Store → WriteOps → Option WriteOps
prepare_in_heap fuel s o = if on_frame s o.store_loc then some (in_stack_inc o) else (do
  store_r ← to_region o.store_loc
  if o.store_loc == o.in_loc
      then some o
      else if has_owner (s.regions o.in_loc)
      then some (if o.out_loc == o.in_loc then o else fail o)
      else (do
        cycle ← is_ancestor_of fuel s o.in_loc store_r
        some (if cycle then fail o else in_parent store_r o)))

abbrev pub prepare_in : ℕ → List ℕ → Bool → Store → ℕ → WriteOps → Option WriteOps
prepare_in fuel frames is_move s loc o =
    let o' = record o { in_loc = loc } in
    let held = if is_move then in_clear o' else in_inc o' in
    if not o.ok
    then some o'
    else if is_immortal loc
    then some o'
    else if is_stack loc
    then prepare_in_stack o'
    else if is_immutable loc
    then some held
    else (do
      in_r ← to_region loc
      if is_frame_local (s.regions in_r)
          then prepare_in_local frames s held
          else prepare_in_heap fuel s (if is_move then in_stack_dec held else held))

-- What is done to the field, the register and the objects, in order.
pub data Effect : Type 0 where
  to_addr clear_register in_field_inc out_field_dec : Effect

-- `drag_allocation(in_drag_value, in->get_header(), &out_clear_parent_region)`.
abbrev pub Drag : Type 0
Drag = Store → ℕ → Option ℕ → Option (Bool × Option ℕ × Store)

abbrev pub is_some : {A : Type 0} → Option A → Bool
is_some (some x) = true
is_some none = false

abbrev pub guard : {A : Type 0} → Bool → Option A → Option A
guard true k = k
guard false k = none

abbrev pub adjust : ℕ → Store → ℕ → ℤ → Option Store
adjust fuel s loc (pos zero) = some s
adjust fuel s loc (pos (suc zero)) = do r ← to_region loc; stack_inc fuel s r 1
adjust fuel s loc (pos (suc (suc n))) = none
adjust fuel s loc (negsuc zero) = do r ← to_region loc; d ← stack_dec fuel s r 1; some d.1
adjust fuel s loc (negsuc (suc n)) = none
