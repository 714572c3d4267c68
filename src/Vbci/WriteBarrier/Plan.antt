-- ===== src/Vbci/WriteBarrier/Plan.antt =====
-- What `exchange` does for a field of a region on the heap, by the regions of the old and the new value.
use Prim.Native.Nat.{bit_and}
use verona_bc.Prelude.{
  ℕ, ◌≡◌, ◌≢◌, Bool, true, false, Option, some, List, [], ◌∷◌, ◌==◌, ltb, refl, arith,
}
use verona_bc.Prelude.Fallible.{◌>>=◌}
use verona_bc.Prelude.Integers.{pos}
use verona_bc.Vbci.Location.{is_region}
use verona_bc.Vbci.Regions.{Store, has_owner, is_ancestor_of, stack_dec}
use verona_bc.Vbci.WriteBarrier.{
  WriteOps, no_ops, prepare_store, prepare_out, prepare_in, prepare_in_heap, on_frame, in_stack_dec,
  in_clear, in_inc, in_parent, Effect, to_addr, clear_register, in_field_inc,
}

-- The location is a region on the heap.
pub record IsHeap (s : Store) (loc : ℕ) : Type 0 where
  pub region : is_region loc ≡ true
  pub depth : (s.regions loc).frame_depth ≡ 0

abbrev pub moved : Bool → ℕ → Store → ℕ → Option Store
moved true fuel s r = do d ← stack_dec fuel s r 1; some d.1
moved false fuel s r = some s

abbrev pub on_incoming : Bool → List Effect
on_incoming true = to_addr ∷ clear_register ∷ []
on_incoming false = to_addr ∷ in_field_inc ∷ []

-- A field of a region on the heap may be written.
pub plan_store :
    (s : Store) (st : ℕ) → IsHeap s st → prepare_store st no_ops ≡ record no_ops { store_loc = st }
plan_store s st hs =
    let s2 : (bit_and st 7 == 2) ≡ false = ground (arith, hs.region) in
    let s4 : (bit_and st 7 == 4) ≡ false = ground (arith, hs.region) in
    let s5 : (bit_and st 7 == 5) ≡ false = ground (arith, hs.region) in rw (s2, s4, s5) refl

pub heap_not_frame : (s : Store) (st : ℕ) → IsHeap s st → on_frame s st ≡ false
heap_not_frame s st hs =
    let s1 : (bit_and st 7 == 1) ≡ false = ground (arith, hs.region) in
    let sl : ltb 0 (s.regions st).frame_depth ≡ false = ground (arith, hs.depth) in
    rw (s1, hs.region, sl) refl

-- The old value is in another region: that loses its parent, and gets a reference for the result.
pub plan_out :
    (s : Store) (st out : ℕ)
    → IsHeap s st
    → IsHeap s out
    → st ≢ out
    → prepare_out s out (record no_ops { store_loc = st }) ≡ record no_ops {
      store_loc = st;
      out_loc = out;
      need_out_stack_inc = pos 1;
      need_out_clear_parent = true;
      out_clear_parent_region = some out;
    }
plan_out s st out hs ho apart =
    let so : (st == out) ≡ false = ground arith in rw (heap_not_frame s st hs, ho.region, so) refl

abbrev pub taken : Bool → WriteOps → WriteOps
taken true o = in_stack_dec (in_clear o)
taken false o = in_inc o

-- The new value is in a region on the heap.
pub plan_in :
    (fuel : ℕ) (frames : List ℕ) (s : Store) (in_r : ℕ) (is_move : Bool) (o : WriteOps)
    → o.ok ≡ true
    → IsHeap s in_r
    → prepare_in fuel frames is_move s in_r o
      ≡ prepare_in_heap fuel s (taken is_move (record o { in_loc = in_r }))
plan_in fuel frames s in_r true o ok hi =
    let i1 : (bit_and in_r 7 == 1) ≡ false = ground (arith, hi.region) in
    let i2 : (bit_and in_r 7 == 2) ≡ false = ground (arith, hi.region) in
    let i4 : (bit_and in_r 7 == 4) ≡ false = ground (arith, hi.region) in
    let i5 : (bit_and in_r 7 == 5) ≡ false = ground (arith, hi.region) in
    let il : ltb 0 (s.regions in_r).frame_depth ≡ false = ground (arith, hi.depth) in
    rw (ok, i4, i1, i2, i5, hi.region, il) refl
plan_in fuel frames s in_r false o ok hi =
    let i1 : (bit_and in_r 7 == 1) ≡ false = ground (arith, hi.region) in
    let i2 : (bit_and in_r 7 == 2) ≡ false = ground (arith, hi.region) in
    let i4 : (bit_and in_r 7 == 4) ≡ false = ground (arith, hi.region) in
    let i5 : (bit_and in_r 7 == 5) ≡ false = ground (arith, hi.region) in
    let il : ltb 0 (s.regions in_r).frame_depth ≡ false = ground (arith, hi.depth) in
    rw (ok, i4, i1, i2, i5, hi.region, il) refl

-- It has no owner, so it becomes a child of the region that is written.
pub plan_fresh :
    (fuel : ℕ) (s : Store) (o : WriteOps)
    → IsHeap s o.store_loc
    → o.store_loc ≢ o.in_loc
    → has_owner (s.regions o.in_loc) ≡ false
    → is_ancestor_of fuel s o.in_loc o.store_loc ≡ some false
    → prepare_in_heap fuel s o ≡ some (in_parent o.store_loc o)
plan_fresh fuel s o hs apart free up =
    let si : (o.store_loc == o.in_loc) ≡ false = ground arith in
    rw (heap_not_frame s o.store_loc hs, hs.region, si, free, up) refl

-- It is in the region of the old value, which has an owner.
pub plan_owned :
    (fuel : ℕ) (s : Store) (o : WriteOps)
    → IsHeap s o.store_loc
    → o.store_loc ≢ o.in_loc
    → has_owner (s.regions o.in_loc) ≡ true
    → o.out_loc ≡ o.in_loc
    → prepare_in_heap fuel s o ≡ some o
plan_owned fuel s o hs apart owned same =
    let si : (o.store_loc == o.in_loc) ≡ false = ground arith in
    let oi : (o.out_loc == o.in_loc) ≡ true = ground arith in
    rw (heap_not_frame s o.store_loc hs, hs.region, si, owned, oi) refl
