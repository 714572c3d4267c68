-- ===== src/Vbci/WriteBarrier/Apply.antt =====
-- The second half of the write barrier: apply_in and apply_out of `write_ops`, and `exchange`, `init` and `drop`.
use verona_bc.Prelude.{
  ℕ, Bool, true, false, not, ◌&&◌, ◌||◌, Option, some, List, [], ◌∷◌, ◌++◌, ◌==◌, if◌then◌else◌,
}
use verona_bc.Prelude.Fallible.{◌>>=◌}
use verona_bc.Prelude.Integers.{pos, ◌+ℤ◌}
use verona_bc.Vbci.Location.{is_region, is_stack, is_immortal, is_immutable, to_region}
use verona_bc.Vbci.Regions.{Store, is_frame_local, has_parent, stack_dec, set_parent, clear_parent}
use verona_bc.Vbci.WriteBarrier.{
  WriteOps, no_ops, prepare_store, prepare_out, prepare_in, Drag, Effect, to_addr, clear_register,
  in_field_inc, out_field_dec, is_some, guard, adjust,
}

-- `if (need_in_drag)`.
abbrev pub apply_drag : Drag → Store → WriteOps → Option (Bool × WriteOps × Store)
apply_drag drag s o =
    if o.need_in_drag
    then guard (not o.need_in_parent) (do
      r ← o.in_drag_value
      d ← drag s r o.out_clear_parent_region
      some (
        d.0,
        record o {
          out_clear_parent_region = d.1;
          need_out_clear_parent = is_some d.1 && o.need_out_clear_parent;
        },
        d.2,
      ))
    else some (true, o, s)

-- `if (out_loc == in_loc)`: the counts of both are one.
abbrev pub combine_counts : WriteOps → WriteOps
combine_counts o =
    if o.out_loc == o.in_loc
    then record o {
      need_in_stack_inc = o.need_in_stack_inc +ℤ o.need_out_stack_inc;
      need_out_stack_inc = pos 0;
    }
    else o

abbrev pub apply_parent : ℕ → Option ℕ → Store → WriteOps → Option Store
apply_parent fuel header s o =
    if o.need_in_parent
    then guard (not o.need_in_drag) (do
      entry ← header
      in_r ← to_region o.in_loc
      parent ← o.in_parent_value
      set_parent fuel s in_r parent entry)
    else some s

-- What happens to the field, the register and the incoming object.
abbrev pub in_effects : Bool → WriteOps → Option (List Effect)
in_effects is_move o =
    if is_move
    then guard (not o.need_in_inc)
        (some (to_addr ∷ (if o.need_in_clear then clear_register ∷ [] else [])))
    else guard (not o.need_in_clear)
        (some (to_addr ∷ (if o.need_in_inc then in_field_inc ∷ [] else [])))

-- The Boolean is false if the drag fails; `header` is that of the incoming value, if it has one.
abbrev pub apply_in :
    Drag → ℕ → Bool → Option ℕ → Store → WriteOps → Option (Bool × WriteOps × Store × List Effect)
apply_in drag fuel is_move header s o = guard o.ok (do
  dragged ← apply_drag drag s o
  if not dragged.0 then some (false, dragged.1, dragged.2, []) else (do
    let o' = combine_counts dragged.1
    effects ← in_effects is_move o'
    s' ← apply_parent fuel header dragged.2 o'
    s'' ← adjust fuel s' o'.in_loc o'.need_in_stack_inc
    some (true, o', s'', effects)))

abbrev pub apply_out : ℕ → Store → WriteOps → Option (Store × List Effect)
apply_out fuel s o = guard o.ok (do
  s' ← adjust fuel s o.out_loc o.need_out_stack_inc
  s'' ←
      (if o.need_out_clear_parent
        then (do r ← to_region o.out_loc; clear_parent fuel s' r)
        else some s')
  some (s'', (if o.need_out_dec then out_field_dec ∷ [] else [])))

-- `Value::error` throws.
pub data Outcome : Type 0 where
  stored : Store → List Effect → Outcome
  bad_store : Store → Outcome
  bad_alloc_target : Store → Outcome

unfoldable pub exchange : Drag → ℕ → List ℕ → Bool → Option ℕ → Store → ℕ → ℕ → ℕ → Option Outcome
exchange drag fuel frames is_move header s store_loc prev_loc next_loc = do
  o ←
      prepare_in fuel frames is_move s next_loc
        (prepare_out s prev_loc (prepare_store store_loc no_ops))
  if not o.ok then some (bad_store s) else (do
    taken ← apply_in drag fuel is_move header s o
    if not taken.0
        then some (bad_store taken.2)
        else (do left ← apply_out fuel taken.2 taken.1; some (stored left.0 (taken.3 ++ left.1))))

-- A read-only value is refused.
pub init : Drag → ℕ → List ℕ → Bool → Option ℕ → Store → ℕ → ℕ → Option Outcome
init drag fuel frames readonly header s store_loc next_loc =
    if readonly then some (bad_store s) else (do
      o ← prepare_in fuel frames true s next_loc (prepare_store store_loc no_ops)
      if not o.ok then some (bad_alloc_target s) else (do
        taken ← apply_in drag fuel true header s o
        if not taken.0 then some (bad_store taken.2) else some (stored taken.2 taken.3)))

-- The Boolean tells that the value's own count goes down.
unfoldable pub drop : ℕ → Store → ℕ → ℕ → Option (Bool × Store)
drop fuel s store_loc loc =
    if is_immortal loc || is_stack loc
    then some (false, s)
    else if is_immutable loc
    then some (true, s)
    else (do
      r ← to_region loc
      if is_frame_local (s.regions r)
          then some (true, s)
          else if is_stack store_loc
              || (is_region store_loc && is_frame_local (s.regions store_loc))
          then (do d ← stack_dec fuel s r 1; some (false, d.1))
          else if store_loc == loc
          then some (true, s)
          else if has_parent (s.regions r)
          then (do s' ← clear_parent fuel s r; some (false, s'))
          else some (true, s))
