-- ===== src/Vbci/Stack/Tests.antt =====
-- Tests of the stack: one chunk, all but 24 bytes of which are in use.
use verona_bc.Prelude.{◌-◌, ◌^◌, ◌<◌, ◌≡◌, ◌≤◌, ◌⊎◌, none, some, [], ◌∷◌, refl, arith}
use verona_bc.Vbci.Stack.{
  Idx, Stack, chunk_size, align_up, save, restore, next_chunk, grow, take_top, alloc,
}
use verona_bc.Vbci.Stack.Bounds.{IsStack, IsAllocated, alloc-IsAllocated}

abbrev nearly_full : Stack
nearly_full = record { chunks = 1; top = record { chunk = 0; offset = 1000 }; markers = [] }

nearly_full-IsStack : IsStack nearly_full
nearly_full-IsStack = record {
  aligned = refl;
  inside = omega arith;
  backed = omega arith;
  used = λ h. omega arith;
}

-- 30 bytes go to a new chunk, and the old one gets a marker.
moves_on :
    alloc 24 nearly_full 30
    ≡ some (
      some (record { chunk = 1; offset = 0 }),
      record {
        chunks = 2;
        top = record { chunk = 1; offset = 32 };
        markers = record { chunk = 0; offset = 1000 } ∷ [];
      },
    )
unfolding alloc align_up next_chunk grow take_top
moves_on = refl

-- Close to the largest size_t, the aligned size wraps to 0.
wraps :
    alloc 24 nearly_full (2 ^ 64 - 1)
    ≡ some (some (record { chunk = 0; offset = 1000 }), nearly_full)
unfolding alloc align_up grow take_top
wraps = refl

alloc-IsAllocated_example :
    ((30 ≤ chunk_size)
      × ((i : Idx) × (s' : Stack) × (alloc 24 nearly_full 30 ≡ some (some i, s'))
          × IsAllocated nearly_full 30 i s'
          × IsStack (restore s' (save nearly_full))))
    ⊎ ((chunk_size < 30) × (alloc 24 nearly_full 30 ≡ some (none, nearly_full)))
alloc-IsAllocated_example =
    alloc-IsAllocated 24 nearly_full 30 (omega arith) (omega arith) nearly_full-IsStack
