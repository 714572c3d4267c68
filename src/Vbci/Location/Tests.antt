-- ===== src/Vbci/Location/Tests.antt =====
-- Tests of the locations.
use verona_bc.Prelude.{◌+◌, ◌*◌, ◌≡◌, true, some, arith}
use verona_bc.Prelude.Fallible.{◌>>=◌}
use verona_bc.Vbci.Location.{
  is_region, is_immutable, pending, unpending, next_stack_level, stack_index, scc_ptr, scc_target,
  stack,
}
use verona_bc.Vbci.Location.Tags.{Location-round_trips}

Location-round_trips_example :
    (is_region (5 * 8) ≡ true)
    × ((do v ← pending (5 * 8); unpending v) ≡ some (5 * 8))
    × (is_immutable (scc_ptr (5 * 8)) ≡ true)
    × (scc_target (scc_ptr (5 * 8)) ≡ some (5 * 8))
    × (stack_index (stack + 8 * 3) ≡ some 3)
    × ((do v ← next_stack_level (stack + 8 * 3); stack_index v) ≡ some (3 + 1))
Location-round_trips_example = Location-round_trips 5 3 (omega arith) (omega arith)
